-- ===== src/Commands/Dispatch.antt =====
-- core/src/at_cmdProc.c: `cmd_proc`, and the two handlers that call it again, `autoConfig` and
-- `randomKey`.
pub mod Select
pub mod Config
pub mod Random
use auto_test_tools.Base.{
  ℕ, zero, suc, List, [], ◌∷◌, ◌++◌, Option, none, some, length, ltb, ◌==◌, if◌then◌else◌, not,
}
use auto_test_tools.Base.Int.{ℤ, pos, pos_part, eqb_ℤ}
use auto_test_tools.CString.Compare.{Bytes, codes}
use auto_test_tools.CString.Format.{snprintf_format}
use auto_test_tools.CString.Tokens.{c_string}
use auto_test_tools.CmdLib.{Cmd, Handler, cmd_lib, get_cmd_code}
use auto_test_tools.Commands.Clients.{add_client, del_client, change_client_ip_addr}
use auto_test_tools.Commands.Queue.{ioevt, call, syslog_conf, hide_feature_proc}
use auto_test_tools.Commands.Quit.{quit}
use auto_test_tools.Commands.Show.{show_help, show_client, look, delay}
use auto_test_tools.Commands.Threads.{start, stop, run_script}
use auto_test_tools.Commands.Timing.{get_rand_value, random_time}
use auto_test_tools.Commands.Usage.{cmd_at, wrong_parameter}
use auto_test_tools.KeyMap.{key_lib, max_key_num}
use auto_test_tools.Network.{failed}
use auto_test_tools.Params.{parse_line, param, param_num}
use auto_test_tools.Script.Load.{file_lines, skipped, before_semicolon}
use auto_test_tools.World.Monad.{M, Void, ◌>>=◌, ◌>>◌, defined, modify, skip, say, emit, pure}
use auto_test_tools.World.State.{World, Os, Scripts, paused, max_file_name}

-- `while(strlen(gKeyLib[randomKeyNum].keyCode) <= 0)`, with fuel for its rounds. `getRandValue` may
-- return 255, which is behind the table.
unfoldable pub roll_key : Os → ℕ → ℕ → M ℕ
roll_key os zero index w = none
roll_key os (suc fuel) index w =
    if not (ltb index max_key_num)
    then none
    else if ltb 0 (length (key_lib index).key_code)
    then some (index, w)
    else (do next ← get_rand_value os (pos 0) (pos 255); roll_key os fuel (pos_part next)) w

module _ (os : Os) (exec : Bytes → M Void) where
  -- `randomKey`, over `exec` for `cmd_proc`.
  unfoldable pub random_key : ℕ → ℕ → M Void
  random_key fuel cmd_num = do
    n ← param_num
    if not (eqb_ℤ n (pos 1)) then wrong_parameter cmd_num else do
      first ← get_rand_value os (pos 0) (pos 255)
      if eqb_ℤ first failed then say "randomKey parse error!\n" [] else do
        index ← roll_key os fuel (pos_part first)
        client ← param 1
        let line : Bytes =
            codes "ioevt " ++ client ++ codes " " ++ (key_lib index).key_name ++ codes " p"
        if ltb (length line) 256 then (do exec line; emit (paused 50000)) else defined none

  -- The loop of `autoConfig`.
  unfoldable pub config_lines : List Bytes → M Void
  config_lines [] = skip
  config_lines (line ∷ lines) = do
    (if skipped (c_string line) then skip else elim (before_semicolon (c_string line)) [
      | none ↦ say "parse error!\n" []
      | some command ↦ exec command
    ])
    config_lines lines

  -- `autoConfig`
  unfoldable pub auto_config : ℕ → M Void
  auto_config cmd_num = do
    n ← param_num
    if not (eqb_ℤ n (pos 1)) then wrong_parameter cmd_num else do
      word ← param 1
      name ← defined (snprintf_format max_file_name word)
      modify (λ w. record w { scripts = record w.scripts { conf_file_name = name } })
      elim (os.file name) [ none ↦ skip | some content ↦ config_lines (file_lines content) ]

-- The call through the function pointer of an entry, over `exec` for `cmd_proc`.
unfoldable pub run_handler : Os → (Bytes → M Void) → ℕ → Handler → ℕ → M Void
run_handler os exec fuel Handler.show_help k = show_help k
run_handler os exec fuel Handler.auto_config k = auto_config os exec k
run_handler os exec fuel Handler.add_client k = add_client os k
run_handler os exec fuel Handler.call k = call os k
run_handler os exec fuel Handler.change_client_ip_addr k = change_client_ip_addr os k
run_handler os exec fuel Handler.del_client k = del_client k
run_handler os exec fuel Handler.delay k = delay k
run_handler os exec fuel Handler.ioevt k = ioevt os k
run_handler os exec fuel Handler.look k = look k
run_handler os exec fuel Handler.quit k = quit os k
run_handler os exec fuel Handler.run_script k = run_script os k
run_handler os exec fuel Handler.random_time k = random_time os k
run_handler os exec fuel Handler.random_key k = random_key os exec fuel k
run_handler os exec fuel Handler.show_client k = show_client k
run_handler os exec fuel Handler.start k = start os k
run_handler os exec fuel Handler.stop k = stop k
run_handler os exec fuel Handler.syslog_conf k = syslog_conf os k
run_handler os exec fuel Handler.hide_feature_proc k = hide_feature_proc os k

-- The message, or the call of the entry found.
unfoldable pub run_found : Os → (Bytes → M Void) → ℕ → Option ℕ → M Void
run_found os exec fuel none = say "cmd not found!\n" []
run_found os exec fuel (some k) = do c ← cmd_at k; run_handler os exec fuel c.func k

-- `cmd_proc` behind `getTokens`: the search for the first word and the call.
unfoldable pub run_entry : Os → (Bytes → M Void) → ℕ → M Void
run_entry os exec fuel = do word ← param 0; run_found os exec fuel (get_cmd_code cmd_lib word)

-- `cmd_proc`, with fuel for the depth of the calls that `autoConfig` and `randomKey` make, and for the
-- rounds of `randomKey`.
unfoldable pub cmd_proc : Os → ℕ → Bytes → M Void
cmd_proc os zero line w = none
cmd_proc os (suc fuel) line w = (do parse_line line; run_entry os (cmd_proc os fuel) fuel) w
