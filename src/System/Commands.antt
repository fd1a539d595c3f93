-- ===== src/System/Commands.antt =====
-- Every command and the script thread keep the invariant, and every property that is `Closed`.
use auto_test_tools.Base.{
  ℕ, zero, suc, ◌≡◌, ◌<◌, not, ◌||◌, List, [], ◌∷◌, Option, none, some, arith, length, get_elem?,
  ◌==◌,
}
use auto_test_tools.Base.Int.{ℤ, pos, eqb_ℤ, ltb_ℤ}
use auto_test_tools.CString.Compare.{Bytes}
use auto_test_tools.CString.Format.{snprintf_format}
use auto_test_tools.CString.Tokens.{c_string}
use auto_test_tools.CmdLib.{Cmd, Handler, cmd_lib, get_cmd_code}
use auto_test_tools.Commands.Dispatch.{
  random_key, config_lines, auto_config, run_handler, run_found, run_entry, cmd_proc,
}
use auto_test_tools.Commands.Framed.{
  Keeps-param, Keeps-param_number, Keeps-wrong_parameter, Keeps-parse_line,
}
use auto_test_tools.Commands.Framed.Shows.{
  Keeps-show_help, Keeps-show_client, Keeps-look, Keeps-delay, Keeps-get_rand_value,
  Keeps-random_time, Keeps-roll_key, Keeps-quit,
}
use auto_test_tools.Commands.Framed.Threads.{
  Keeps-stop, Keeps-start, Keeps-get_script_thread_id, Keeps-set_script_thread_id,
  Keeps-create_thread,
}
use auto_test_tools.Commands.Threads.{run_script_at, run_script}
use auto_test_tools.Commands.Usage.{cmd_at}
use auto_test_tools.Network.Config.{PtonLaws}
use auto_test_tools.Params.{parse_line}
use auto_test_tools.Script.Load.{file_lines, skipped, before_semicolon}
use auto_test_tools.System.Clients.{Keeps-add_client, Keeps-del_client, Keeps-change_client_ip_addr}
use auto_test_tools.System.Counts.{store-each}
use auto_test_tools.System.Invariant.{Closed, snprintf_format-short}
use auto_test_tools.System.Messages.{
  Keeps-ioevt, Keeps-call, Keeps-syslog_conf, Keeps-hide_feature_proc,
}
use auto_test_tools.World.Array.{store}
use auto_test_tools.World.Keeps.{
  Keeps, Frame, Keeps-emit, Keeps-bind, Keeps-bind-defined, Keeps-elim, Keeps-if, Keeps-modify,
  Keeps-pure, Keeps-gets, keeps_rules,
}
use auto_test_tools.World.Monad.{M, Void, ◌>>=◌, ◌>>◌, defined, modify, skip, gets}
use auto_test_tools.World.State.{
  World, Os, printed, max_file_name, script_cmd_process, max_script_thread,
}

module _ (os : Os) {P : World → Type 0} (closed : Closed os P) where
  abbrev frame : Frame P
  frame = closed.frame

  clears_names : (w : World) → P w → P (record w { scripts = record w.scripts { names = λ _. [] } })
  clears_names w h = closed.at_names w (λ _. []) (λ _. omega arith) h

  -- The name of a script is stored.
  Keeps-store_name :
      (n : ℤ) (name : Bytes) (rest : M Void)
      → length name < max_file_name
      → Keeps P rest
      → Keeps P (do
        old ← gets (λ w. w.scripts.names)
        names ← defined (store max_script_thread old n name)
        modify (λ w. record w { scripts = record w.scripts { names = names } })
        rest)
  Keeps-store_name n name rest short k = record {
    at = λ w h.
        (Keeps-bind-defined (store max_script_thread w.scripts.names n name) _ (λ names e.
            Keeps-bind (modify (λ v. record v { scripts = record v.scripts { names = names } }))
              (λ _. rest)
              (Keeps-modify (λ v. record v { scripts = record v.scripts { names = names } })
                (λ v hv.
                  closed.at_names v names
                    (store-each (λ s. length s < max_file_name) max_script_thread w.scripts.names n
                      name e short (closed.inv w h).named)
                    hv))
              (λ _. k))).at
          w h;
  }

  Keeps-run_script_at : (k : ℕ) (n : ℤ) → Keeps P (run_script_at os k n)
  unfolding run_script_at
  Keeps-run_script_at k n =
      Keeps-if (ltb_ℤ (pos 10) n || ltb_ℤ n (pos 0)) _ _ (Keeps-wrong_parameter frame k) (
        Keeps-bind _ _ (Keeps-get_script_thread_id frame n) (λ id.
          Keeps-if (not (id == 0)) _ _ (Keeps-emit frame (printed "script is running\n" [])) (
            Keeps-bind _ _ (Keeps-param frame 2) (λ word.
              Keeps-bind-defined (snprintf_format max_file_name word) _ (λ name e.
                Keeps-store_name n name _ (snprintf_format-short max_file_name word (omega arith) e)
                  (Keeps-bind _ _
                    (Keeps-create_thread frame os script_cmd_process
                      "Create runScript pthread error!\n")
                    (λ made.
                      Keeps-elim made _ _ (Keeps-pure tt)
                        (Keeps-set_script_thread_id frame n))))))))

  Keeps-run_script : (k : ℕ) → Keeps P (run_script os k)
  unfolding run_script
  Keeps-run_script k =
      search
        (
          keeps_rules,
          Keeps-emit frame,
          Keeps-param_number frame,
          Keeps-wrong_parameter frame,
          Keeps-run_script_at,
        )
        depth 8

  module _ (exec : Bytes → M Void) (kept : (line : Bytes) → Keeps P (exec line)) where
    Keeps-random_key : (fuel k : ℕ) → Keeps P (random_key os exec fuel k)
    unfolding random_key
    Keeps-random_key fuel k =
        search
          (
            keeps_rules,
            Keeps-emit frame,
            Keeps-param frame,
            Keeps-wrong_parameter frame,
            Keeps-get_rand_value frame,
            Keeps-roll_key frame,
            kept,
          )
          depth 16 fits 4000

    Keeps-config_lines : (lines : List Bytes) → Keeps P (config_lines os exec lines)
    unfolding config_lines
    Keeps-config_lines [] = Keeps-pure tt
    Keeps-config_lines (line ∷ lines) =
        Keeps-bind _ (λ _. config_lines os exec lines)
          (Keeps-if (skipped (c_string line)) _ _ (Keeps-pure tt) (
            Keeps-elim (before_semicolon (c_string line)) _ _
              (Keeps-emit frame (printed "parse error!\n" [])) kept))
          (λ _. Keeps-config_lines lines)

    Keeps-auto_config : (k : ℕ) → Keeps P (auto_config os exec k)
    unfolding auto_config
    Keeps-auto_config k = Keeps-bind _ _ (Keeps-gets (λ w. w.params.param_num)) (λ n.
        Keeps-if (not (eqb_ℤ n (pos 1))) _ _ (Keeps-wrong_parameter frame k) (
          Keeps-bind _ _ (Keeps-param frame 1) (λ word.
            Keeps-bind-defined (snprintf_format max_file_name word) _ (λ name e.
              Keeps-bind _
                (λ _. elim (os.file name) as (λ _. M Void) [
                  | none ↦ skip
                  | some content ↦ config_lines os exec (file_lines content)
                ])
                (Keeps-modify
                  (λ w. record w { scripts = record w.scripts { conf_file_name = name } })
                  (λ w h.
                    closed.at_configured w name
                      (snprintf_format-short max_file_name word (omega arith) e) h))
                (λ _.
                  Keeps-elim (os.file name) _ _ (Keeps-pure tt)
                    (λ content. Keeps-config_lines (file_lines content)))))))

    module _ (laws : PtonLaws os) where
      -- The entry is one of the table, whose example `addClient` prints.
      Keeps-run_handler :
          (fuel : ℕ) (func : Handler) (k : ℕ) {entry : Cmd}
          → get_elem? cmd_lib k ≡ some entry
          → Keeps P (run_handler os exec fuel func k)
      unfolding run_handler
      Keeps-run_handler fuel Handler.show_help k known = Keeps-show_help frame k
      Keeps-run_handler fuel Handler.auto_config k known = Keeps-auto_config k
      Keeps-run_handler fuel Handler.add_client k known = Keeps-add_client os closed laws k known
      Keeps-run_handler fuel Handler.call k known = Keeps-call os closed k
      Keeps-run_handler fuel Handler.change_client_ip_addr k known =
          Keeps-change_client_ip_addr os closed k
      Keeps-run_handler fuel Handler.del_client k known = Keeps-del_client os closed laws k known
      Keeps-run_handler fuel Handler.delay k known = Keeps-delay frame k
      Keeps-run_handler fuel Handler.ioevt k known = Keeps-ioevt os closed k
      Keeps-run_handler fuel Handler.look k known = Keeps-look frame k
      Keeps-run_handler fuel Handler.quit k known = Keeps-quit frame os k
      Keeps-run_handler fuel Handler.run_script k known = Keeps-run_script k
      Keeps-run_handler fuel Handler.random_time k known = Keeps-random_time frame os k
      Keeps-run_handler fuel Handler.random_key k known = Keeps-random_key fuel k
      Keeps-run_handler fuel Handler.show_client k known = Keeps-show_client frame k
      Keeps-run_handler fuel Handler.start k known = Keeps-start frame clears_names os k
      Keeps-run_handler fuel Handler.stop k known = Keeps-stop frame clears_names k
      Keeps-run_handler fuel Handler.syslog_conf k known = Keeps-syslog_conf os closed k
      Keeps-run_handler fuel Handler.hide_feature_proc k known = Keeps-hide_feature_proc os closed k

      Keeps-run_found : (fuel : ℕ) (o : Option ℕ) → Keeps P (run_found os exec fuel o)
      unfolding run_found cmd_at
      Keeps-run_found fuel none = Keeps-emit frame (printed "cmd not found!\n" [])
      Keeps-run_found fuel (some k) =
          Keeps-bind-defined (get_elem? cmd_lib k) _
            (λ c known. Keeps-run_handler fuel c.func k known)

      pub Keeps-run_entry : (fuel : ℕ) → Keeps P (run_entry os exec fuel)
      unfolding run_entry
      Keeps-run_entry fuel =
          Keeps-bind _ _ (Keeps-param frame 0)
            (λ word. Keeps-run_found fuel (get_cmd_code cmd_lib word))

  pub Keeps-cmd_proc : PtonLaws os → (fuel : ℕ) (line : Bytes) → Keeps P (cmd_proc os fuel line)
  unfolding cmd_proc
  Keeps-cmd_proc laws zero line = record { at = λ w h. tt }
  Keeps-cmd_proc laws (suc fuel) line = record {
    at =
        (Keeps-bind (parse_line line) (λ _. run_entry os (cmd_proc os fuel) fuel)
          (Keeps-parse_line frame line)
          (λ _. Keeps-run_entry (cmd_proc os fuel) (Keeps-cmd_proc laws fuel) laws fuel)).at;
  }
