-- ===== src/Commands/Quit.antt =====
-- core/src/at_cmdProc.c: `quit` and the report that it writes.
pub mod Report
pub mod Written
use auto_test_tools.Base.{
  ℕ, zero, suc, ◌+◌, [], ◌++◌, Option, none, some, length, ltb, ◌==◌, if◌then◌else◌, not,
}
use auto_test_tools.Base.Int.{ℤ, pos, ltb_ℤ}
use auto_test_tools.CString.Compare.{Bytes, codes}
use auto_test_tools.CString.Number.{decimal, decimal_ℤ}
use auto_test_tools.Commands.Threads.{
  get_send_thread_id, get_rec_thread_id, get_script_thread_id, end_thread, get_sys_time,
}
use auto_test_tools.Logs.Counts.{get_count_of_success_call}
use auto_test_tools.Script.Run.{get_count_of_script_run}
use auto_test_tools.World.Array.{fetch}
use auto_test_tools.World.Monad.{M, Void, ◌>>=◌, ◌>>◌, pure, defined, gets, skip, say, emit, ask}
use auto_test_tools.World.State.{Os, wrote, max_script_thread, max_client}

abbrev pub max_tmp_length : ℕ
max_tmp_length = 60

-- `sprintf(tmp, …)`: a text that does not fit is written past the array.
unfoldable pub tmp_text : Bytes → Option Bytes
tmp_text text = if ltb (length text) max_tmp_length then some text else none

-- `fwrite` of a text in `tmp` to the report.
unfoldable pub write_note : Os → Bytes → M ℤ
write_note os line = do stored ← defined (tmp_text line); emit (wrote stored); ask os.fwrite

-- The word behind a count.
abbrev pub times_word : ℤ → Bytes
times_word value = if ltb_ℤ (pos 1) value then codes "times\n" else codes "time\n"

unfoldable pub client_line : ℕ → ℤ → Bytes
client_line index value =
    codes "client"
    ++ decimal index
    ++ codes ": "
    ++ decimal_ℤ value
    ++ codes " "
    ++ times_word value

unfoldable pub script_line : Bytes → ℤ → Bytes
script_line name value =
    name ++ codes ": " ++ decimal_ℤ value ++ codes " " ++ times_word value ++ codes "\n"

-- The lines of the clients from `index` on; the result is the variable `ret`.
unfoldable pub note_clients : Os → ℕ → ℕ → ℕ → ℤ → M ℤ
note_clients os kind zero index ret = pure ret
note_clients os kind (suc rounds) index ret = do
  value ← get_count_of_success_call kind (pos index)
  written ← write_note os (client_line index value)
  (if ltb_ℤ (pos 0) written then skip else say "call note write failed\n" [])
  note_clients os kind rounds (index + 1) written

-- The lines of a type of call.
unfoldable pub note_kind : Os → ℕ → M ℤ
note_kind os kind = do
  written ← write_note os (if kind == 0 then codes "doubleTalk:\n" else codes "trebleTalk:\n")
  note_clients os kind max_client 0 written

-- The lines of the scripts that run, from `index` on.
unfoldable pub note_scripts : Os → ℕ → ℕ → ℤ → M ℤ
note_scripts os zero index ret = pure ret
note_scripts os (suc rounds) index ret = do
  id ← get_script_thread_id (pos index)
  written ←
      (if id == 0 then pure ret else do
        value ← get_count_of_script_run (pos index)
        names ← gets (λ w. w.scripts.names)
        name ← defined (fetch max_script_thread names (pos index))
        write_note os (script_line name value))
  note_scripts os rounds (index + 1) written

-- The report; a file that does not open is written to all the same, which is undefined.
unfoldable pub write_report : Os → M Void
write_report os = do
  opens ← ask os.note_opens
  if not opens then defined none else do
    time ← get_sys_time os
    stamp ← write_note os time
    doubles ← note_kind os 0
    trebles ← note_kind os 1
    ret ← note_scripts os max_script_thread 0 trebles
    if ltb_ℤ (pos 0) ret then say "all ok!exit!!\n" [] else say "script note write failed\n" []

-- `quit`; the script threads are not ended, and no id is cleared.
unfoldable pub quit : Os → ℕ → M Void
quit os cmd_num = do
  send_id ← get_send_thread_id
  rec_id ← get_rec_thread_id
  (if send_id == 0 then skip else do end_thread send_id; say "test mode stoped!" [])
  (if rec_id == 0 then skip else do end_thread rec_id; say "rec mode stoped!" [])
  write_report os
