-- ===== src/System/Overtaken.antt =====
-- core/src/at_cmdProc.c: a line whose words another thread overwrites before its handler runs.
use auto_test_tools.Base.{
  ℕ, suc, ◌+◌, ◌≡◌, ◌≢◌, ◌<◌, refl, ap, ◌∙◌, List, [], ◌∷◌, ◌++◌, some, arith, length, get_elem?,
}
use auto_test_tools.Base.Int.{sub_ℕ, pos}
use auto_test_tools.CString.Compare.{Bytes}
use auto_test_tools.CString.Format.{bounded, IsPlain, IsText}
use auto_test_tools.CString.Number.{atoi}
use auto_test_tools.CmdLib.{cmd_lib, get_cmd_code}
use auto_test_tools.Commands.Dispatch.{cmd_proc, run_entry, run_found}
use auto_test_tools.Commands.Dispatch.Select.{seen_words, run_entry-found}
use auto_test_tools.Commands.Queue.{max_cmd_code}
use auto_test_tools.Commands.Queue.Texts.{text_msg, call-sends}
use auto_test_tools.Network.{failed}
use auto_test_tools.Params.{param, parse_line}
use auto_test_tools.System.Entries.{call_index, call_entry-at, named_at, run_found-call}
use auto_test_tools.System.Arrival.{cmd_proc-params, parse_line-reads}
use auto_test_tools.World.Monad.{M, Void, Ends, ◌>>=◌, ◌>>◌}
use auto_test_tools.World.State.{World, Os, Msg, Params}
use mathlib.Core.List.{append_assoc}

-- A parameter is read in the same way where only other variables differ.
param-same :
    (i : ℕ) (p : Params) {x : Bytes} (v w : World)
    → param i (record v { params = p }) ≡ some (x, record v { params = p })
    → param i (record w { params = p }) ≡ some (x, record w { params = p })
unfolding param
param-same i p v w e = ground (arith, e)

module _ (os : Os) (c : ℕ) (word num tel : Bytes)
    (code : get_cmd_code cmd_lib word ≡ some call_index) (number : atoi num ≡ some (pos c))
    (inside : c < 10) (plain_word : IsPlain word) (plain_tel : IsPlain tel) where
  abbrev msg : Msg
  msg = text_msg c (bounded max_cmd_code word) tel

  -- Behind a line of `call`, its handler puts the message into the queue.
  call-runs :
      (exec : Bytes → M Void) (fuel : ℕ) (w : World)
      → w.params.param_num ≡ pos 2
      → param 0 w ≡ some (word, w)
      → param 1 w ≡ some (num, w)
      → param 2 w ≡ some (tel, w)
      → w.threads.send_id ≢ 0
      → os.msgsnd w.calls ≢ failed
      → run_found os exec fuel (get_cmd_code cmd_lib word) w
        ≡ some (tt, record w { queue = w.queue ++ msg ∷ []; calls = w.calls + 1 })
  call-runs exec fuel w n p0 p1 p2 run room =
      ap (λ o. run_found os exec fuel o w) code
      ∙ run_found-call os exec fuel w
      ∙ call-sends os call_index c word num w call_entry-at p0 p1
          (named_at word call_index call_entry-at code) number inside run room tel n p2 plain_word
          plain_tel

  -- A typed `call` whose line comes between the words of the line `row` of another thread and its handler
  -- is obeyed twice, and `row` not at all: two equal messages are queued, and nothing else changes but the
  -- parameters and the count of system calls. The conditions: no per cent sign and no NUL in the two
  -- lines, the three words of a `call` for a client in range, a running send thread, and a queue
  -- that takes both messages.
  pub call-overtakes :
      (fuel other : ℕ) (row line : Bytes) (w : World)
      → IsPlain row
      → IsText row
      → IsPlain line
      → IsText line
      → seen_words line ≡ word ∷ num ∷ tel ∷ []
      → w.threads.send_id ≢ 0
      → os.msgsnd w.calls ≢ failed
      → os.msgsnd (w.calls + 1) ≢ failed
      → Ends
          ((parse_line row >> cmd_proc os (suc fuel) line >> run_entry os (cmd_proc os other) other)
            w)
          (λ w'. w' ≡ record w {
            params = w'.params;
            queue = w.queue ++ msg ∷ msg ∷ [];
            calls = w.calls + 1 + 1;
          })
  call-overtakes fuel other row line w plain_row text_row plain text three run room more =
      let at_word : (i : ℕ) → get_elem? (seen_words line) i ≡ get_elem? (word ∷ num ∷ tel ∷ []) i =
        λ i. ap (λ (l : List Bytes). get_elem? l i) three in
      let (q, (parsed, _)) = parse_line-reads row w plain_row text_row in
      let w₁ : World = record w { params = q } in
      let (p, (count, reads, runs)) = cmd_proc-params os fuel line word w₁ plain text (at_word 0) in
      let w₂ : World = record w { params = p } in
      let two : p.param_num ≡ pos 2 = count ∙ ap (λ (l : List Bytes). sub_ℕ (length l) 1) three in
      let w₃ : World = record w₂ { queue = w.queue ++ msg ∷ []; calls = w.calls + 1 } in
      let r0 = reads 0 word (at_word 0) in
      let r1 = reads 1 num (at_word 1) in
      let r2 = reads 2 tel (at_word 2) in
      let first = runs ∙ call-runs (cmd_proc os fuel) fuel w₂ two r0 r1 r2 run room in
      let s0 = param-same 0 p w₂ w₃ r0 in
      let second =
        run_entry-found os (cmd_proc os other) other word w₃ s0
        ∙ call-runs (cmd_proc os other) other w₃ two s0 (param-same 1 p w₂ w₃ r1)
            (param-same 2 p w₂ w₃ r2) run more in
      rw (parsed, ◌>>◌, ◌>>=◌)
        (rw (first, ◌>>◌, ◌>>=◌) (rw second (rw (append_assoc w.queue (msg ∷ []) (msg ∷ [])) refl)))
