-- ===== src/Commands/Show.antt =====
-- core/src/at_cmdProc.c: `showHelp`, `showClient`, `look` and `delay`.
pub mod Rows
use auto_test_tools.Base.{
  ℕ, ◌+◌, Bool, List, [], ◌∷◌, ◌++◌, Option, none, some, length, ltb, ◌==◌, if◌then◌else◌, not,
}
use auto_test_tools.Base.Int.{ℤ, pos, ltb_ℤ, eqb_ℤ}
use auto_test_tools.CString.Compare.{Bytes, codes}
use auto_test_tools.CmdLib.{Cmd, cmd_lib}
use auto_test_tools.Commands.Clients.{locked_flag}
use auto_test_tools.Commands.Threads.{get_script_thread_id}
use auto_test_tools.Commands.Usage.{print_example, wrong_parameter}
use auto_test_tools.Logs.Counts.{get_count_of_success_call}
use auto_test_tools.Network.{unused, get_client_ip_addr}
use auto_test_tools.Params.{param_num, param_number}
use auto_test_tools.Script.Run.{get_count_of_script_run}
use auto_test_tools.World.Array.{fetch}
use auto_test_tools.World.Monad.{M, Void, ◌>>=◌, ◌>>◌, defined, gets, skip, say, emit, for_each}
use auto_test_tools.World.State.{
  World, text, number, slept, max_client, max_script_thread, max_call_type,
}

-- `showHelp` from an entry of the table on.
unfoldable pub print_examples : List Cmd → M Void
print_examples [] = skip
print_examples (c ∷ lib) = do
  (if ltb 0 (length c.example) then say "%s\n" (text c.example ∷ []) else skip)
  print_examples lib

unfoldable pub show_help : ℕ → M Void
show_help cmd_num = print_examples cmd_lib

-- One client of `showClient`; a NULL address would be printed by `%s`, which is undefined.
unfoldable pub show_row : ℕ → M Void
show_row index = do
  say "%d     " (number (pos index) ∷ [])
  stat ← locked_flag (pos index)
  if eqb_ℤ stat unused
      then say "UNUSED\n" []
      else do ip ← get_client_ip_addr (pos index); row ← defined ip; say "\"%s\"\n" (text row ∷ [])

-- One script thread of `showClient`.
unfoldable pub show_script : ℕ → M Void
show_script index = do
  say "%d     " (number (pos index) ∷ [])
  id ← get_script_thread_id (pos index)
  if id == 0 then say "UNUSED\n" [] else do
    names ← gets (λ w. w.scripts.names)
    name ← defined (fetch max_script_thread names (pos index))
    say "\"%s\"\n" (text name ∷ [])

-- `showClient` behind its test of the parameters.
unfoldable pub show_tables : M Void
show_tables = do
  conf ← gets (λ w. w.scripts.conf_file_name)
  say "autoConf:  %s\n" (text conf ∷ [])
  say "client Parameter:\n" []
  for_each max_client 0 show_row
  say "script Parameter:\n" []
  for_each max_script_thread 0 show_script

-- `showClient`, which goes on behind its message.
unfoldable pub show_client : ℕ → M Void
show_client cmd_num = do
  n ← param_num
  (if ltb_ℤ (pos 0) n then (do say "too many parameter!!\n" []; print_example cmd_num) else skip)
  show_tables

-- A line of `look`.
unfoldable pub look_row : ℕ → ℕ → M Void
look_row kind index = do
  value ← get_count_of_success_call kind (pos index)
  say "%s%d: %d %s" (
      text (codes "client")
      ∷ number (pos index)
      ∷ number value
      ∷ text (if ltb_ℤ (pos 1) value then codes "times\n" else codes "time\n")
      ∷ [])

unfoldable pub look_kind : ℕ → M Void
look_kind kind = do
  say "%s\n" (text (if kind == 0 then codes "doubleTalk:" else codes "trebleTalk:") ∷ [])
  for_each max_client 0 (look_row kind)

unfoldable pub look_script : ℕ → M Void
look_script index = do
  value ← get_count_of_script_run (pos index)
  if eqb_ℤ value (pos 0) then skip else do
    names ← gets (λ w. w.scripts.names)
    name ← defined (fetch max_script_thread names (pos index))
    say "Run script file %s:%d\n" (text name ∷ number value ∷ [])

unfoldable pub look : ℕ → M Void
look cmd_num = do for_each max_call_type 0 look_kind; for_each max_script_thread 0 look_script

-- `delay`; a time that is not positive is passed over.
unfoldable pub delay : ℕ → M Void
delay cmd_num = do
  n ← param_num
  if not (eqb_ℤ n (pos 1))
      then wrong_parameter cmd_num
      else do time ← param_number 1; if ltb_ℤ (pos 0) time then emit (slept time) else skip
