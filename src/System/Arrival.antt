-- ===== src/System/Arrival.antt =====
-- A typed line of `ioevt` comes to the phone.
use auto_test_tools.Base.{
  ℕ, suc, ◌≡◌, ◌≢◌, ◌<◌, ◌||◌, ap, ◌∙◌, true, List, [], ◌∷◌, some, length, get_elem?,
}
use auto_test_tools.Base.Int.{sub_ℕ, pos}
use auto_test_tools.CString.Compare.{Bytes, codes, same}
use auto_test_tools.CString.Format.{bounded, IsPlain, IsText}
use auto_test_tools.CString.Number.{atoi}
use auto_test_tools.CString.Tokens.{words}
use auto_test_tools.CmdLib.{cmd_lib, get_cmd_code}
use auto_test_tools.Commands.Dispatch.{cmd_proc, run_found}
use auto_test_tools.Commands.Dispatch.Select.{seen_words, cmd_proc-found}
use auto_test_tools.Commands.Queue.{ioevt}
use auto_test_tools.Commands.Queue.Keys.{key_codes_of}
use auto_test_tools.Commands.Queue.Send.{ioevt_msg}
use auto_test_tools.Logs.Serve.{cmd_send}
use auto_test_tools.Network.{failed}
use auto_test_tools.Network.Config.{PtonLaws, phone_addr}
use auto_test_tools.Network.Tables.{registered}
use auto_test_tools.Params.{param, parse_line}
use auto_test_tools.Params.Words.{parse_line-words}
use auto_test_tools.System.Entries.{
  ioevt_index, ioevt_entry, ioevt_entry-at, named_at, run_found-ioevt,
}
use auto_test_tools.System.Invariant.{Inv}
use auto_test_tools.System.Reach.{Reach, Reach-Inv}
use auto_test_tools.System.Delivery.{Newest, Queued, Queued-arrives, ioevt-queues}
use auto_test_tools.System.Invariant.{Inv-Frame}
use mathlib.Core.Path.{subst}
use auto_test_tools.World.Monad.{Ends, for_each, ◌>>◌}
use auto_test_tools.World.State.{Params, World, Os, sent}

-- What a typed line does, with the new parameters named.
abbrev pub Parsed : Os → ℕ → Bytes → Bytes → World → World → Type 0
Parsed os fuel line x w v =
    (v.params.param_num ≡ sub_ℕ (length (seen_words line)) 1)
    × ((i : ℕ) (y : Bytes) → get_elem? (seen_words line) i ≡ some y → param i v ≡ some (y, v))
    × (cmd_proc os (suc fuel) line w
        ≡ run_found os (cmd_proc os fuel) fuel (get_cmd_code cmd_lib x) v)

pub cmd_proc-params :
    (os : Os) (fuel : ℕ) (line x : Bytes) (w : World)
    → IsPlain line
    → IsText line
    → get_elem? (seen_words line) 0 ≡ some x
    → (p : Params) × Parsed os fuel line x w (record w { params = p })
cmd_proc-params os fuel line x w plain text first =
    let (w₁, kept, count, reads, runs) = cmd_proc-found os fuel line x w plain text first in
    (w₁.params, subst (Parsed os fuel line x w) kept (count, reads, runs))

-- A line changes nothing but the parameters, and these give its words.
pub parse_line-reads :
    (line : Bytes) (w : World)
    → IsPlain line
    → IsText line
    → (p : Params) × ((parse_line line w ≡ some (tt, record w { params = p }))
        × ((i : ℕ) (x : Bytes)
            → get_elem? (seen_words line) i ≡ some x
            → param i (record w { params = p }) ≡ some (x, record w { params = p })))
parse_line-reads line w plain text =
    let (w₁, e, kept, _, reads) = parse_line-words line w plain text in
    let Reads : World → Type 0 = λ v.
      (parse_line line w ≡ some (tt, v))
      × ((i : ℕ) (x : Bytes) → get_elem? (seen_words line) i ≡ some x → param i v ≡ some (x, v)) in
    (w₁.params, subst Reads kept (e, reads))

-- A typed line of `ioevt` queues its message.
pub cmd_proc-queues :
    (os : Os) (fuel c : ℕ) (line word num keys action : Bytes) (ks : List Bytes) (w : World)
    → Inv os w
    → IsPlain line
    → IsText line
    → seen_words line ≡ word ∷ num ∷ keys ∷ action ∷ []
    → get_cmd_code cmd_lib word ≡ some ioevt_index
    → atoi num ≡ some (pos c)
    → c < 10
    → (same action (codes "p") || same action (codes "l")) ≡ true
    → IsPlain keys
    → IsText keys
    → key_codes_of (words b',' (bounded 20 keys)) ≡ some ks
    → w.threads.send_id ≢ 0
    → os.msgsnd w.calls ≢ failed
    → Ends (cmd_proc os (suc fuel) line w) (Queued os w (ioevt_msg c ioevt_entry ks action))
cmd_proc-queues os fuel c line word num keys action ks w h plain text four code number inside act
      plain_keys text_keys found run room =
    let at_word : (i : ℕ)
        → get_elem? (seen_words line) i ≡ get_elem? (word ∷ num ∷ keys ∷ action ∷ []) i =
      λ i. ap (λ (l : List Bytes). get_elem? l i) four in
    let (p, (count, reads, runs)) = cmd_proc-params os fuel line word w plain text (at_word 0) in
    let w₁ : World = record w { params = p } in
    let three : p.param_num ≡ pos 3 = count ∙ ap (λ (l : List Bytes). sub_ℕ (length l) 1) four in
    let goes : cmd_proc os (suc fuel) line w ≡ ioevt os ioevt_index w₁ =
      runs
      ∙ ap (λ o. run_found os (cmd_proc os fuel) fuel o w₁) code
      ∙ run_found-ioevt os (cmd_proc os fuel) fuel w₁ in
    rw goes (
      ioevt-queues os ioevt_index c word num keys action ks w₁ ((Inv-Frame os).at_params w p h)
        ioevt_entry-at three (reads 0 word (at_word 0)) (reads 1 num (at_word 1))
        (reads 2 keys (at_word 2)) (reads 3 action (at_word 3))
        (named_at word ioevt_index ioevt_entry-at code) number inside act plain_keys text_keys found
        run room)

-- From every reachable state a typed line `ioevt <client> <keys> <action>`, by either name, comes to the
-- phone with the keys that stand in the first 19 bytes of the word `<keys>`, to which the program cuts it:
-- behind the line and one round of the send thread for each message then in the queue, the queue is empty,
-- and the last thing done is to send the message, with the name `ioevt`, the codes of the keys in those
-- 19 bytes in order and the action, through the socket of the client to the phone whose address is
-- registered for it. The conditions: no per cent sign and no NUL in the line and the keys, four words, keys
-- in those 19 bytes that are all known, a client in range that is registered, the action `p` or `l`, a
-- running send thread, and a queue that takes the message; `inet_pton` takes no address of more than
-- 15 characters.
pub cmd_proc-arrives :
    (os : Os) (fuel c : ℕ) (line word num keys action ip : Bytes) (ks : List Bytes) (w : World)
    → PtonLaws os
    → Reach os w
    → IsPlain line
    → IsText line
    → seen_words line ≡ word ∷ num ∷ keys ∷ action ∷ []
    → get_cmd_code cmd_lib word ≡ some ioevt_index
    → atoi num ≡ some (pos c)
    → c < 10
    → (same action (codes "p") || same action (codes "l")) ≡ true
    → IsPlain keys
    → IsText keys
    → key_codes_of (words b',' (bounded 20 keys)) ≡ some ks
    → w.threads.send_id ≢ 0
    → os.msgsnd w.calls ≢ failed
    → registered w.net c ≡ some ip
    → Ends
        ((cmd_proc os (suc fuel) line >> for_each (suc (length w.queue)) 0 (λ _. cmd_send)) w)
        (λ w'.
          (w'.queue ≡ [])
          × Newest
              (sent
                (w.net.sockets c)
                (phone_addr os ip)
                (ioevt_msg c ioevt_entry ks action).cmd_obj)
              w'.events)
cmd_proc-arrives os fuel c line word num keys action ip ks w laws r plain text four code number
      inside act plain_keys text_keys found run room at_phone =
    Queued-arrives os (cmd_proc os (suc fuel) line) (ioevt_msg c ioevt_entry ks action) ip w
      (cmd_proc-queues os fuel c line word num keys action ks w (Reach-Inv laws r) plain text four
        code number inside act plain_keys text_keys found run room)
      at_phone
