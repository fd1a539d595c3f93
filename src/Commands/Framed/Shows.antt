-- ===== src/Commands/Framed/Shows.antt =====
-- The commands that print, wait or write the report.
use auto_test_tools.Base.{
  ℕ, zero, suc, ◌+◌, List, [], ◌∷◌, some, if◌then◌else◌, not, ltb, ◌==◌, length,
}
use auto_test_tools.Base.Int.{ℤ, pos, pos_part, ltb_ℤ}
use auto_test_tools.CmdLib.{Cmd, cmd_lib}
use auto_test_tools.CString.Compare.{Bytes}
use auto_test_tools.Commands.Dispatch.{roll_key}
use auto_test_tools.Commands.Framed.{
  Keeps-param_number, Keeps-print_example, Keeps-wrong_parameter, Keeps-locked_flag,
}
use auto_test_tools.Commands.Framed.Threads.{Keeps-get_script_thread_id, Keeps-end_thread}
use auto_test_tools.Commands.Quit.{
  write_note, note_clients, note_kind, note_scripts, write_report, quit, client_line, script_line,
}
use auto_test_tools.Commands.Show.{
  print_examples, show_help, show_row, show_script, show_tables, show_client, look_row, look_kind,
  look_script, look, delay,
}
use auto_test_tools.Commands.Timing.{get_rand_value, random_time}
use auto_test_tools.KeyMap.{key_lib, max_key_num}
use auto_test_tools.Logs.Counts.{get_count_of_success_call}
use auto_test_tools.Network.{get_client_ip_addr, out_of_range}
use auto_test_tools.Script.Run.{get_count_of_script_run}
use auto_test_tools.World.Array.{fetch}
use auto_test_tools.World.Keeps.{
  Leaves-if, Keeps, Frame, Keeps-emit, Keeps-ask, Keeps-bind, Keeps-if, Keeps-pure, Keeps-reads,
  Keeps-defined, keeps_rules,
}
use auto_test_tools.World.Monad.{defined, ◌>>=◌, pure, gets}
use auto_test_tools.World.State.{
  World, Os, printed, text, max_script_thread, max_client, max_call_type,
}

module _ {P : World → Type 0} (frame : Frame P) where
  Keeps-print_examples : (lib : List Cmd) → Keeps P (print_examples lib)
  unfolding print_examples
  Keeps-print_examples [] = Keeps-pure tt
  Keeps-print_examples (c ∷ lib) =
      Keeps-bind _ (λ _. print_examples lib)
        (Keeps-if (ltb 0 (length c.example)) _ _
          (Keeps-emit frame (printed "%s\n" (text c.example ∷ []))) (Keeps-pure tt))
        (λ _. Keeps-print_examples lib)

  pub Keeps-show_help : (k : ℕ) → Keeps P (show_help k)
  unfolding show_help
  Keeps-show_help k = Keeps-print_examples cmd_lib

  Keeps-get_client_ip_addr : (c : ℤ) → Keeps P (get_client_ip_addr c)
  unfolding get_client_ip_addr
  Keeps-get_client_ip_addr c = record {
    at = λ w h. Leaves-if P (out_of_range c) _ _ h (
        (Keeps-bind (defined (fetch max_client w.net.ip_addrs c)) _ (Keeps-defined _)
            (λ row. Keeps-pure (some row))).at
          w h);
  }

  Keeps-show_row : (i : ℕ) → Keeps P (show_row i)
  unfolding show_row
  Keeps-show_row i =
      search (keeps_rules, Keeps-emit frame, Keeps-locked_flag frame, Keeps-get_client_ip_addr)
        depth 10

  Keeps-show_script : (i : ℕ) → Keeps P (show_script i)
  unfolding show_script
  Keeps-show_script i =
      search (keeps_rules, Keeps-emit frame, Keeps-get_script_thread_id frame) depth 10

  Keeps-show_tables : Keeps P show_tables
  unfolding show_tables
  Keeps-show_tables =
      search (keeps_rules, Keeps-emit frame, Keeps-show_row, Keeps-show_script) depth 12

  pub Keeps-show_client : (k : ℕ) → Keeps P (show_client k)
  unfolding show_client
  Keeps-show_client k =
      search (keeps_rules, Keeps-emit frame, Keeps-print_example frame, Keeps-show_tables) depth 8

  pub Keeps-get_count_of_success_call : (k : ℕ) (c : ℤ) → Keeps P (get_count_of_success_call k c)
  unfolding get_count_of_success_call
  Keeps-get_count_of_success_call k c = record {
    at = λ w h.
        (Keeps-bind (defined (fetch max_call_type w.success_call (pos k))) _ (Keeps-defined _)
            (λ row. Keeps-defined (fetch max_client row c))).at
          w h;
  }

  pub Keeps-get_count_of_script_run : (c : ℤ) → Keeps P (get_count_of_script_run c)
  unfolding get_count_of_script_run
  Keeps-get_count_of_script_run c = Keeps-reads (λ w. fetch max_script_thread w.scripts.counts c)

  Keeps-look_row : (k i : ℕ) → Keeps P (look_row k i)
  unfolding look_row
  Keeps-look_row k i = search (keeps_rules, Keeps-emit frame, Keeps-get_count_of_success_call)

  Keeps-look_kind : (k : ℕ) → Keeps P (look_kind k)
  unfolding look_kind
  Keeps-look_kind k = search (keeps_rules, Keeps-emit frame, Keeps-look_row)

  Keeps-look_script : (i : ℕ) → Keeps P (look_script i)
  unfolding look_script
  Keeps-look_script i =
      search (keeps_rules, Keeps-emit frame, Keeps-get_count_of_script_run) depth 8

  pub Keeps-look : (k : ℕ) → Keeps P (look k)
  unfolding look
  Keeps-look k = search (keeps_rules, Keeps-look_kind, Keeps-look_script)

  pub Keeps-delay : (k : ℕ) → Keeps P (delay k)
  unfolding delay
  Keeps-delay k =
      search (keeps_rules, Keeps-emit frame, Keeps-param_number frame, Keeps-wrong_parameter frame)
        depth 8

  pub Keeps-get_rand_value : (os : Os) (a b : ℤ) → Keeps P (get_rand_value os a b)
  unfolding get_rand_value
  Keeps-get_rand_value os a b = search (keeps_rules, Keeps-ask frame) depth 8

  pub Keeps-random_time : (os : Os) (k : ℕ) → Keeps P (random_time os k)
  unfolding random_time
  Keeps-random_time os k =
      search
        (
          keeps_rules,
          Keeps-emit frame,
          Keeps-param_number frame,
          Keeps-wrong_parameter frame,
          Keeps-get_rand_value,
        )
        depth 12

  pub Keeps-roll_key : (os : Os) (fuel index : ℕ) → Keeps P (roll_key os fuel index)
  unfolding roll_key
  Keeps-roll_key os zero index = record { at = λ w h. tt }
  Keeps-roll_key os (suc fuel) index = record {
    at = λ w h. Leaves-if P (not (ltb index max_key_num)) _ _ tt (
        Leaves-if P (ltb 0 (length (key_lib index).key_code)) _ _ h (
          (Keeps-bind (get_rand_value os (pos 0) (pos 255)) _
              (Keeps-get_rand_value os (pos 0) (pos 255))
              (λ next. Keeps-roll_key os fuel (pos_part next))).at
            w h));
  }

  Keeps-write_note : (os : Os) (line : Bytes) → Keeps P (write_note os line)
  unfolding write_note
  Keeps-write_note os line = search (keeps_rules, Keeps-emit frame, Keeps-ask frame)

  Keeps-note_clients :
      (os : Os) (k rounds i : ℕ) (ret : ℤ) → Keeps P (note_clients os k rounds i ret)
  unfolding note_clients
  Keeps-note_clients os k zero i ret = Keeps-pure ret
  Keeps-note_clients os k (suc rounds) i ret =
      Keeps-bind _ _ (Keeps-get_count_of_success_call k (pos i)) (λ value.
        Keeps-bind _ _ (Keeps-write_note os (client_line i value)) (λ written.
          Keeps-bind _ _ (Keeps-if (ltb_ℤ (pos 0) written) _ _ (Keeps-pure tt) (Keeps-emit frame _))
            (λ _. Keeps-note_clients os k rounds (i + 1) written)))

  Keeps-note_kind : (os : Os) (k : ℕ) → Keeps P (note_kind os k)
  unfolding note_kind
  Keeps-note_kind os k =
      Keeps-bind _ _ (Keeps-write_note os _)
        (λ written. Keeps-note_clients os k max_client 0 written)

  -- The line of one script.
  Keeps-note_script :
      (os : Os) (i : ℕ) (ret : ℤ) (id : ℕ)
      → Keeps P (
          if id == 0 then pure ret else do
            value ← get_count_of_script_run (pos i)
            names ← gets (λ w. w.scripts.names)
            name ← defined (fetch max_script_thread names (pos i))
            write_note os (script_line name value))
  Keeps-note_script os i ret id =
      search (keeps_rules, Keeps-get_count_of_script_run, Keeps-write_note) depth 8

  Keeps-note_scripts : (os : Os) (rounds i : ℕ) (ret : ℤ) → Keeps P (note_scripts os rounds i ret)
  unfolding note_scripts
  Keeps-note_scripts os zero i ret = Keeps-pure ret
  Keeps-note_scripts os (suc rounds) i ret =
      Keeps-bind _ _ (Keeps-get_script_thread_id frame (pos i)) (λ id.
        Keeps-bind _ _ (Keeps-note_script os i ret id)
          (λ written. Keeps-note_scripts os rounds (i + 1) written))

  Keeps-write_report : (os : Os) → Keeps P (write_report os)
  unfolding write_report
  Keeps-write_report os =
      search
        (
          keeps_rules,
          Keeps-emit frame,
          Keeps-ask frame,
          Keeps-write_note,
          Keeps-note_kind,
          Keeps-note_scripts,
        )
        depth 16

  pub Keeps-quit : (os : Os) (k : ℕ) → Keeps P (quit os k)
  unfolding quit
  Keeps-quit os k =
      search (keeps_rules, Keeps-emit frame, Keeps-end_thread frame, Keeps-write_report) depth 10
