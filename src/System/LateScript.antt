-- ===== src/System/LateScript.antt =====
-- core/src/at_cmdProc.c: a script thread that begins behind the line of another thread.
use auto_test_tools.Base.{
  ℕ, suc, ◌+◌, ◌≡◌, ◌≢◌, ◌<◌, refl, ap, sym, ◌∙◌, List, [], ◌∷◌, none, some, arith, length,
  get_elem?,
}
use auto_test_tools.Base.Int.{sub_ℕ, pos}
use auto_test_tools.CString.Compare.{Bytes}
use auto_test_tools.CString.Format.{bounded, IsPlain, IsText, snprintf_format_plain}
use auto_test_tools.CString.Number.{atoi}
use auto_test_tools.CmdLib.{cmd_lib, get_cmd_code}
use auto_test_tools.Commands.Dispatch.{cmd_proc, run_found}
use auto_test_tools.Commands.Dispatch.Select.{seen_words}
use auto_test_tools.Commands.Queue.Send.{param_number-atoi}
use auto_test_tools.Commands.Threads.{
  run_script, run_script_at, create_thread, get_script_thread_id, set_script_thread_id,
}
use auto_test_tools.Params.{param, parse_line}
use auto_test_tools.Script.Run.{script_cmd_process, set_count_of_script_run}
use auto_test_tools.System.Arrival.{cmd_proc-params, parse_line-reads}
use auto_test_tools.System.Entries.{run_script_index, run_found-run_script}
use auto_test_tools.World.Array.{update, update_ne, update_self}
use auto_test_tools.World.Monad.{M, Void, Ends, ◌>>=◌, ◌>>◌}
use auto_test_tools.World.State.{World, Os, Body, created, printed, max_file_name}

-- A state in which the script `n` has been begun.
abbrev begun : World → ℕ → ℕ → Bytes → World
begun w n id name = record w {
  scripts = record w.scripts { names = update w.scripts.names n name };
  threads = record w.threads { script_ids = update w.threads.script_ids n id };
  calls = w.calls + 1;
  events = created Body.script_cmd_process ∷ w.events;
}

run_script-begins :
    (os : Os) (k n id : ℕ) (num file : Bytes) (w : World)
    → w.params.param_num ≡ pos 2
    → param 1 w ≡ some (num, w)
    → param 2 w ≡ some (file, w)
    → atoi num ≡ some (pos n)
    → n < 10
    → IsPlain file
    → w.threads.send_id ≢ 0
    → w.threads.script_ids n ≡ 0
    → os.pthread_create w.calls ≡ (pos 0, id)
    → run_script os k w ≡ some (tt, begun w n id (bounded max_file_name file))
unfolding run_script run_script_at create_thread get_script_thread_id set_script_thread_id
run_script-begins os k n id num file w two p1 p2 number inside plain run idle made = ground (
  arith,
  two,
  param_number-atoi 1 num w p1 number,
  p2,
  snprintf_format_plain max_file_name file plain,
  idle,
  made,
)

-- The thread for the number `m`, whose file cannot be opened.
script_cmd_process-absent :
    (os : Os) (exec : Bytes → M Void) (m : ℕ) (num : Bytes) (w : World)
    → param 1 w ≡ some (num, w)
    → atoi num ≡ some (pos m)
    → m < 10
    → os.file (w.scripts.names m) ≡ none
    → script_cmd_process os exec w
      ≡ some (
        tt,
        record w {
          scripts = record w.scripts { counts = update w.scripts.counts m (pos 0) };
          threads = record w.threads { script_ids = update w.threads.script_ids m 0 };
          events = printed "\nscript file open failed!\n" [] ∷ w.events;
        },
      )
unfolding script_cmd_process set_count_of_script_run set_script_thread_id
script_cmd_process-absent os exec m num w p1 number inside absent =
    ground (arith, param_number-atoi 1 num w p1 number, absent)

-- The thread of `runScript` reads its number from `gCmdParam` only when it runs. A typed line
-- `runScript <n> <file>` names the file and begins the thread; if the words of another line with the
-- number `m` come before the thread runs, the thread opens the file of `m`. Where there is none, it ends:
-- the file of `n` is not run, but the number `n` keeps the id of the thread, so that it is taken. The
-- conditions: no per cent sign and no NUL in the two lines, no per cent sign in the name of the file, two
-- different numbers in range, a running send thread, no script with the number `n`, and a thread that is had.
pub run_script-late :
    (os : Os) (exec : Bytes → M Void) (fuel n m id : ℕ) (typed word num file line num' : Bytes)
    (w : World)
    → IsPlain typed
    → IsText typed
    → seen_words typed ≡ word ∷ num ∷ file ∷ []
    → get_cmd_code cmd_lib word ≡ some run_script_index
    → atoi num ≡ some (pos n)
    → n < 10
    → IsPlain file
    → IsPlain line
    → IsText line
    → get_elem? (seen_words line) 1 ≡ some num'
    → atoi num' ≡ some (pos m)
    → m < 10
    → n ≢ m
    → w.threads.send_id ≢ 0
    → w.threads.script_ids n ≡ 0
    → os.pthread_create w.calls ≡ (pos 0, id)
    → os.file (w.scripts.names m) ≡ none
    → Ends
        ((cmd_proc os (suc fuel) typed >> parse_line line >> script_cmd_process os exec) w)
        (λ w'.
          (w'.scripts.names n ≡ bounded max_file_name file)
          × (w'.threads.script_ids n ≡ id)
          × (w'.events
              ≡ printed "\nscript file open failed!\n" []
                ∷ created Body.script_cmd_process
                ∷ w.events))
run_script-late os exec fuel n m id typed word num file line num' w plain text three code number
      inside plain_file plain' text' second number' inside' differ run idle made absent =
    let at_word : (i : ℕ) → get_elem? (seen_words typed) i ≡ get_elem? (word ∷ num ∷ file ∷ []) i =
      λ i. ap (λ (l : List Bytes). get_elem? l i) three in
    let (p, (count, reads, runs)) = cmd_proc-params os fuel typed word w plain text (at_word 0) in
    let w₁ : World = record w { params = p } in
    let two : p.param_num ≡ pos 2 = count ∙ ap (λ (l : List Bytes). sub_ℕ (length l) 1) three in
    let name = bounded max_file_name file in
    let w₂ : World = begun w₁ n id name in
    let goes : cmd_proc os (suc fuel) typed w ≡ some (tt, w₂) =
      runs
      ∙ ap (λ o. run_found os (cmd_proc os fuel) fuel o w₁) code
      ∙ run_found-run_script os (cmd_proc os fuel) fuel w₁
      ∙ run_script-begins os run_script_index n id num file w₁ two (reads 1 num (at_word 1))
          (reads 2 file (at_word 2)) number inside plain_file run idle made in
    let (q, (parsed, read)) = parse_line-reads line w₂ plain' text' in
    let w₃ : World = record w₂ { params = q } in
    let other : update w.scripts.names n name m ≡ w.scripts.names m =
      update_ne w.scripts.names n m name differ in
    let ends =
      script_cmd_process-absent os exec m num' w₃ (read 1 num' second) number' inside'
        (ap os.file other ∙ absent) in
    let kept : update (update w.threads.script_ids n id) m 0 n ≡ id =
      update_ne (update w.threads.script_ids n id) m n 0 (λ e. differ (sym e))
      ∙ update_self w.threads.script_ids n id in
    rw (goes, ◌>>◌, ◌>>=◌)
      (rw (parsed, ◌>>◌, ◌>>=◌) (rw ends (update_self w.scripts.names n name, kept, refl)))
