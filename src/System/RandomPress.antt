-- ===== src/System/RandomPress.antt =====
-- A typed line of `randomKey`, from the random numbers to the phone.
use mathlib.Core.List.{append_assoc}
use mathlib.Core.Path.{subst⁻¹}
use auto_test_tools.Base.{
  ℕ, suc, ◌+◌, ◌≡◌, ◌≢◌, ◌<◌, refl, ap, ◌∙◌, true, List, [], ◌∷◌, ◌++◌, some, All, arith, length,
  length-append, get_elem?, take_all,
}
use auto_test_tools.Base.Int.{sub_ℕ, pos}
use auto_test_tools.CString.Compare.{Bytes, codes, same}
use auto_test_tools.CString.Find.{lacks}
use auto_test_tools.CString.Format.{bounded, IsPlain, IsText}
use auto_test_tools.CString.Number.{atoi}
use auto_test_tools.CString.Tokens.{words}
use auto_test_tools.CString.Words.{words-word, words-spaced}
use auto_test_tools.CmdLib.{cmd_lib, get_cmd_code, names}
use auto_test_tools.Commands.Dispatch.{cmd_proc, run_found}
use auto_test_tools.Commands.Dispatch.Random.{
  RandLaws, FirstKey, drawn, is_key, press_line, random_key-presses,
}
use auto_test_tools.Commands.Dispatch.Select.{seen_words}
use auto_test_tools.Commands.Queue.Keys.{key_codes_of}
use auto_test_tools.Commands.Queue.Send.{ioevt_msg}
use auto_test_tools.KeyMap.{key_lib}
use auto_test_tools.KeyMap.Names.{IsKeyWord, key_lib-found, key_lib-IsKeyWord}
use auto_test_tools.Logs.Serve.{cmd_send}
use auto_test_tools.Network.{failed}
use auto_test_tools.Network.Config.{PtonLaws}
use auto_test_tools.Network.Tables.{registered}
use auto_test_tools.System.Entries.{
  ioevt_index, random_key_index, ioevt_entry, run_found-random_key,
}
use auto_test_tools.System.Arrival.{cmd_proc-params, cmd_proc-queues}
use auto_test_tools.System.Delivery.{Queued, ComesTo, Queued-arrives}
use auto_test_tools.System.Invariant.{Inv, Inv-Frame}
use auto_test_tools.System.Reach.{Reach, Reach-Inv}
use auto_test_tools.World.Monad.{Ends, Ends-some, for_each, ◌>>=◌, ◌>>◌}
use auto_test_tools.World.State.{World, Os}

-- The number of a client as a word: 1 to 200 plain bytes.
pub record IsClientWord (num : Bytes) : Type 0 where
  pub some_byte : 0 < length num
  pub short : length num < 201
  pub plain : IsPlain num
  pub text : IsText num
  pub no_space : lacks b' ' num ≡ true

All-append : {A : Type 0} (P : A → Type 0) (xs ys : List A) → All P xs → All P ys → All P (xs ++ ys)
All-append P [] ys h k = k
All-append P (x ∷ xs) ys h k = (h.0, All-append P xs ys h.1 k)

module _ (num name : Bytes) (client : IsClientWord num) (key : IsKeyWord name) where
  abbrev line : Bytes
  line = codes "ioevt " ++ num ++ codes " " ++ name ++ codes " p"

  line-spaced : line ≡ codes "ioevt" ++ b' ' ∷ (num ++ b' ' ∷ (name ++ b' ' ∷ codes "p"))
  line-spaced = simp (append_assoc) refl

  line-length : length line < 256
  line-length =
      subst⁻¹ (λ (l : Bytes). length l < 256) line-spaced
        (omega (
          arith,
          client.short,
          key.short,
          length-append num (b' ' ∷ (name ++ b' ' ∷ codes "p")),
          length-append name (b' ' ∷ codes "p"),
        ))

  line-All :
      (P : ℕ → Type 0)
      → All P (codes "ioevt ")
      → P b' '
      → All P num
      → All P name
      → All P (codes " p")
      → All P line
  line-All P head space h k tail =
      subst⁻¹ (λ (l : Bytes). All P l) line-spaced
        (All-append P (codes "ioevt ") (num ++ b' ' ∷ (name ++ codes " p")) head (
          All-append P num (b' ' ∷ (name ++ codes " p")) h
            (space, All-append P name (codes " p") k tail)))

  line-words : seen_words line ≡ codes "ioevt" ∷ num ∷ name ∷ codes "p" ∷ []
  line-words = rw (take_all 255 line (omega (arith, line-length))) (
      rw line-spaced (
        rw
          (words-spaced b' ' (codes "ioevt") (num ++ b' ' ∷ (name ++ b' ' ∷ codes "p"))
            (omega arith) refl)
          (rw (words-spaced b' ' num (name ++ b' ' ∷ codes "p") client.some_byte client.no_space) (
            rw (words-spaced b' ' name (codes "p") key.some_byte key.no_space)
              (rw (words-word b' ' (codes "p") (omega arith) refl) refl)))))

  name-words : words b',' (bounded 20 name) ≡ name ∷ []
  name-words =
      rw (take_all 19 name (omega (arith, key.short)))
        (words-word b',' name key.some_byte key.no_comma)

code_of-key :
    (i : ℕ)
    → is_key i ≡ true
    → key_codes_of ((key_lib i).key_name ∷ []) ≡ some ((key_lib i).key_code ∷ [])
unfolding key_codes_of
code_of-key i e = rw (key_lib-found i e, key_codes_of) refl

code-ioevt : get_cmd_code cmd_lib (codes "ioevt") ≡ some ioevt_index
unfolding get_cmd_code names cmd_lib same
code-ioevt = refl

-- The line that `randomKey` runs queues the press of its key.
press-queues :
    (os : Os) (fuel c : ℕ) (num : Bytes) (i : ℕ) (w : World)
    → Inv os w
    → is_key i ≡ true
    → atoi num ≡ some (pos c)
    → c < 10
    → IsClientWord num
    → w.threads.send_id ≢ 0
    → os.msgsnd w.calls ≢ failed
    → Ends
        (cmd_proc os (suc fuel) (press_line num i) w)
        (Queued os w (ioevt_msg c ioevt_entry ((key_lib i).key_code ∷ []) (codes "p")))
press-queues os fuel c num i w h hit number inside client run room =
    let name = (key_lib i).key_name in
    let key = key_lib-IsKeyWord i hit in
    cmd_proc-queues os fuel c (press_line num i) (codes "ioevt") num name (codes "p")
      ((key_lib i).key_code ∷ []) w h
      (line-All num name client key (λ c. c ≢ b'%') (omega arith) (omega arith) client.plain
        key.plain (omega arith))
      (line-All num name client key (λ c. 0 < c) (omega arith) (omega arith) client.text key.text
        (omega arith))
      (line-words num name client key) code-ioevt number inside (unfold same in refl) key.plain
      key.text (ap key_codes_of (name-words num name client key) ∙ code_of-key i hit) run room

-- From every reachable state a typed line `randomKey <client>`, by either name, makes the press of a key
-- come to the phone: behind the line and one round of the send thread for each message then in the queue,
-- the queue is empty, and the last thing done is to send `ioevt` with the code of the first key that was
-- drawn to the phone whose address is registered for the client. The conditions: no per cent sign and no
-- NUL in the line, two words, the number of a client in range that is registered, of at most 200 bytes; a
-- draw of a key within the fuel and none of 255 before it; a running send thread, and a queue that takes
-- the message. `rand` gives no negative `int32_t`, and `inet_pton` takes no address of more than
-- 15 characters.
pub random_key-arrives :
    (os : Os) (fuel n c : ℕ) (typed word num ip : Bytes) (w : World)
    → PtonLaws os
    → (rand : RandLaws os) → Reach os w
    → IsPlain typed
    → IsText typed
    → seen_words typed ≡ word ∷ num ∷ []
    → get_cmd_code cmd_lib word ≡ some random_key_index
    → atoi num ≡ some (pos c)
    → c < 10
    → IsClientWord num
    → FirstKey os w.calls n
    → n < suc fuel
    → w.threads.send_id ≢ 0
    → os.msgsnd (w.calls + n + 1) ≢ failed
    → registered w.net c ≡ some ip
    → Ends
        ((cmd_proc os (suc (suc fuel)) typed >> for_each (suc (length w.queue)) 0 (λ _. cmd_send))
          w)
        (ComesTo os w
          (ioevt_msg c ioevt_entry ((key_lib (drawn os (w.calls + n))).key_code ∷ []) (codes "p"))
          ip)
random_key-arrives os fuel n c typed word num ip w laws rand r plain text two code number inside
      client first enough run room at_phone =
    let at_word : (i : ℕ) → get_elem? (seen_words typed) i ≡ get_elem? (word ∷ num ∷ []) i =
      λ i. ap (λ (l : List Bytes). get_elem? l i) two in
    let (p, (count, reads, runs)) =
      cmd_proc-params os (suc fuel) typed word w plain text (at_word 0) in
    let w₁ : World = record w { params = p } in
    let one : p.param_num ≡ pos 1 = count ∙ ap (λ (l : List Bytes). sub_ℕ (length l) 1) two in
    let i = drawn os (w.calls + n) in
    let key = key_lib-IsKeyWord i first.1 in
    let w₂ : World = record w₁ { calls = w.calls + n + 1 } in
    let goes =
      runs
      ∙ ap (λ o. run_found os (cmd_proc os (suc fuel)) (suc fuel) o w₁) code
      ∙ run_found-random_key os (cmd_proc os (suc fuel)) (suc fuel) w₁
      ∙ random_key-presses os rand (cmd_proc os (suc fuel)) n (suc fuel) random_key_index num w₁
          (rw one refl) (reads 1 num (at_word 1)) first enough
          (line-length num (key_lib i).key_name client key) in
    let m = ioevt_msg c ioevt_entry ((key_lib i).key_code ∷ []) (codes "p") in
    let (_, v, e, (h, q, net, threads, port)) =
      Ends-some (Queued os w m) (cmd_proc os (suc fuel) (press_line num i) w₂) (
        press-queues os fuel c num i w₂
          ((Inv-Frame os).at_calls w₁ _ ((Inv-Frame os).at_params w p (Reach-Inv laws r))) first.1
          number inside client run room) in
    let queued : Ends (cmd_proc os (suc (suc fuel)) typed w) (Queued os w m) =
      rw goes (rw (e, ◌>>◌, ◌>>=◌) ((Inv-Frame os).at_events v _ h, q, net, threads, port)) in
    Queued-arrives os (cmd_proc os (suc (suc fuel)) typed) m ip w queued at_phone
