-- ===== src/System/TextArrival.antt =====
-- The typed lines of `syslog`, `hideFeature` and `call`, from the prompt to the phone.
use auto_test_tools.Base.{
  ℕ, suc, ◌+◌, ◌≡◌, ◌≢◌, ◌<◌, refl, ap, ◌∙◌, List, [], ◌∷◌, ◌++◌, none, some, length, get_elem?,
}
use auto_test_tools.Base.Int.{ℤ, sub_ℕ, pos, pos_part}
use auto_test_tools.CString.Compare.{Bytes, codes}
use auto_test_tools.CString.Format.{bounded, IsPlain, IsText}
use auto_test_tools.CString.Number.{atoi}
use auto_test_tools.CmdLib.{cmd_lib, get_cmd_code}
use auto_test_tools.Commands.Dispatch.{cmd_proc, run_found}
use auto_test_tools.Commands.Dispatch.Select.{seen_words}
use auto_test_tools.Commands.Queue.{call, syslog_conf, hide_feature_proc, max_cmd_code}
use auto_test_tools.Commands.Queue.Texts.{
  text_msg, syslog_body, call-sends, syslog_conf-sends, hide_feature_proc-sends,
}
use auto_test_tools.Logs.Serve.{cmd_send}
use auto_test_tools.Network.{failed}
use auto_test_tools.Network.Config.{PtonLaws}
use auto_test_tools.Network.Tables.{registered}
use auto_test_tools.Params.{param}
use auto_test_tools.System.Entries.{
  call_index, syslog_index, feature_index, call_entry-at, syslog_entry-at, feature_entry-at,
  named_at, run_found-call, run_found-syslog, run_found-feature,
}
use auto_test_tools.System.Arrival.{cmd_proc-params}
use auto_test_tools.System.Delivery.{Queued, ComesTo, Queued-arrives}
use auto_test_tools.System.Invariant.{Inv-Closed, Inv, Inv-Frame}
use auto_test_tools.System.Messages.{Keeps-call, Keeps-syslog_conf, Keeps-hide_feature_proc}
use auto_test_tools.System.Reach.{Reach, Reach-Inv, Keeps-run}
use auto_test_tools.World.Keeps.{Keeps}
use auto_test_tools.World.Monad.{M, Void, Ends, for_each, ◌>>◌}
use auto_test_tools.World.State.{World, Os, Msg}

-- The message that the words of a line stand for, when the log server is at this port: the text of
-- `syslog` with one parameter or two, of `hideFeature`, and the number of `call`.
pub data Says (port : ℤ) (c : ℕ) (num : Bytes) : List Bytes → Msg → Type 0 where
  says_syslog :
      (word first : Bytes)
      → get_cmd_code cmd_lib word ≡ some syslog_index
      → Says port c num
          (word ∷ num ∷ first ∷ [])
          (text_msg c (codes "syslog") (syslog_body first none c port))
  says_syslog_more :
      (word first second : Bytes)
      → get_cmd_code cmd_lib word ≡ some syslog_index
      → Says port c num
          (word ∷ num ∷ first ∷ second ∷ [])
          (text_msg c (codes "syslog") (syslog_body first (some second) c port))
  says_feature :
      (word on : Bytes)
      → get_cmd_code cmd_lib word ≡ some feature_index
      → Says port c num (word ∷ num ∷ on ∷ []) (text_msg c (codes "hideFeature") on)
  says_call :
      (word tel : Bytes)
      → get_cmd_code cmd_lib word ≡ some call_index
      → IsPlain word
      → IsPlain tel
      → Says port c num (word ∷ num ∷ tel ∷ []) (text_msg c (bounded max_cmd_code word) tel)

-- A run in full that keeps the invariant has queued its message.
queues :
    (os : Os) (run : M Void) (m : Msg) (w : World)
    → Inv os w
    → Keeps (Inv os) run
    → run w ≡ some (tt, record w { queue = w.queue ++ m ∷ []; calls = w.calls + 1 })
    → Ends (run w) (Queued os w m)
queues os run m w h k e = rw e (Keeps-run k h e, refl, refl, refl, refl)

-- The word that names the command.
abbrev pub command_word : List Bytes → Bytes
command_word [] = []
command_word (word ∷ ws) = word

-- The handler behind the words of a line.
module _ (os : Os) (exec : Bytes → M Void) (fuel c : ℕ) (num : Bytes) (w : World) (h : Inv os w)
    (number : atoi num ≡ some (pos c)) (inside : c < 10) (run : w.threads.send_id ≢ 0)
    (room : os.msgsnd w.calls ≢ failed) where
  Says-queues :
      {ws : List Bytes} {m : Msg}
      → Says w.syslog_port c num ws m
      → w.params.param_num ≡ sub_ℕ (length ws) 1
      → ((i : ℕ) (y : Bytes) → get_elem? ws i ≡ some y → param i w ≡ some (y, w))
      → Ends (run_found os exec fuel (get_cmd_code cmd_lib (command_word ws)) w) (Queued os w m)
  Says-queues (says_syslog word first code) count reads = rw code (
      rw (run_found-syslog os exec fuel w) (
        queues os (syslog_conf os syslog_index) _ w h
          (Keeps-syslog_conf os (Inv-Closed os) syslog_index)
          (syslog_conf-sends os syslog_index c word num w syslog_entry-at (reads 0 word refl)
            (reads 1 num refl) (named_at word syslog_index syslog_entry-at code) number inside run
            room first none (reads 2 first refl) count)))
  Says-queues (says_syslog_more word first second code) count reads = rw code (
      rw (run_found-syslog os exec fuel w) (
        queues os (syslog_conf os syslog_index) _ w h
          (Keeps-syslog_conf os (Inv-Closed os) syslog_index)
          (syslog_conf-sends os syslog_index c word num w syslog_entry-at (reads 0 word refl)
            (reads 1 num refl) (named_at word syslog_index syslog_entry-at code) number inside run
            room first (some second) (reads 2 first refl) (count, reads 3 second refl))))
  Says-queues (says_feature word on code) count reads = rw code (
      rw (run_found-feature os exec fuel w) (
        queues os (hide_feature_proc os feature_index) _ w h
          (Keeps-hide_feature_proc os (Inv-Closed os) feature_index)
          (hide_feature_proc-sends os feature_index c word num w feature_entry-at
            (reads 0 word refl) (reads 1 num refl)
            (named_at word feature_index feature_entry-at code) number inside run room on
            (rw count refl) (reads 2 on refl))))
  Says-queues (says_call word tel code plain plain') count reads = rw code (
      rw (run_found-call os exec fuel w) (
        queues os (call os call_index) _ w h (Keeps-call os (Inv-Closed os) call_index) (
          call-sends os call_index c word num w call_entry-at (reads 0 word refl) (reads 1 num refl)
            (named_at word call_index call_entry-at code) number inside run room tel count
            (reads 2 tel refl) plain plain')))

-- A line that says something has a word to begin with.
Says-command_word :
    {port : ℤ} {c : ℕ} {num : Bytes} {ws : List Bytes} {m : Msg}
    → Says port c num ws m
    → get_elem? ws 0 ≡ some (command_word ws)
Says-command_word (says_syslog word first code) = refl
Says-command_word (says_syslog_more word first second code) = refl
Says-command_word (says_feature word on code) = refl
Says-command_word (says_call word tel code plain plain') = refl

Says-client_num :
    {port : ℤ} {c : ℕ} {num : Bytes} {ws : List Bytes} {m : Msg}
    → Says port c num ws m
    → pos_part m.client_num ≡ c
Says-client_num (says_syslog word first code) = refl
Says-client_num (says_syslog_more word first second code) = refl
Says-client_num (says_feature word on code) = refl
Says-client_num (says_call word tel code plain plain') = refl

-- A line of these, wherever it comes from, queues its message.
pub text-queues :
    (os : Os) (fuel c : ℕ) (line num : Bytes) (ws : List Bytes) (m : Msg) (w : World)
    → Inv os w
    → IsPlain line
    → IsText line
    → seen_words line ≡ ws
    → Says w.syslog_port c num ws m
    → atoi num ≡ some (pos c)
    → c < 10
    → w.threads.send_id ≢ 0
    → os.msgsnd w.calls ≢ failed
    → Ends (cmd_proc os (suc fuel) line w) (Queued os w m)
text-queues os fuel c line num ws m w h plain text same says number inside run room =
    let at_word : (i : ℕ) → get_elem? (seen_words line) i ≡ get_elem? ws i =
      λ i. ap (λ (l : List Bytes). get_elem? l i) same in
    let (p, (count, reads, runs)) =
      cmd_proc-params os fuel line (command_word ws) w plain text
        (at_word 0 ∙ Says-command_word says) in
    let w₁ : World = record w { params = p } in
    rw runs (
      Says-queues os (cmd_proc os fuel) fuel c num w₁ ((Inv-Frame os).at_params w p h) number inside
        run room says (count ∙ ap (λ (l : List Bytes). sub_ℕ (length l) 1) same)
        (λ i y e. reads i y (at_word i ∙ e)))

-- From every reachable state a typed line of `syslog` with one parameter or two behind the client, of
-- `hideFeature` or of `call` comes to the phone: behind the line and one round of the send thread for each
-- message then in the queue, the queue is empty, and the last thing done is to send the message that the
-- words stand for to the phone whose address is registered for the client. The conditions: no per cent
-- sign and no NUL in the line, a client in range that is registered, a running send thread, and a queue
-- that takes the message; `inet_pton` takes no address of more than 15 characters.
pub text-arrives :
    (os : Os) (fuel c : ℕ) (line num ip : Bytes) (ws : List Bytes) (m : Msg) (w : World)
    → PtonLaws os
    → Reach os w
    → IsPlain line
    → IsText line
    → seen_words line ≡ ws
    → Says w.syslog_port c num ws m
    → atoi num ≡ some (pos c)
    → c < 10
    → w.threads.send_id ≢ 0
    → os.msgsnd w.calls ≢ failed
    → registered w.net c ≡ some ip
    → Ends
        ((cmd_proc os (suc fuel) line >> for_each (suc (length w.queue)) 0 (λ _. cmd_send)) w)
        (ComesTo os w m ip)
text-arrives os fuel c line num ip ws m w laws r plain text same says number inside run room
      at_phone =
    Queued-arrives os (cmd_proc os (suc fuel) line) m ip w
      (text-queues os fuel c line num ws m w (Reach-Inv laws r) plain text same says number inside
        run room)
      (ap (registered w.net) (Says-client_num says) ∙ at_phone)
