-- ===== src/Commands/Threads/Single.antt =====
-- `start` never begins a second thread of a kind that runs.
use auto_test_tools.Base.{
  ℕ, suc, ◌+◌, ◌≡◌, true, false, List, [], ◌∷◌, some, arith, get_elem?, if◌then◌else◌, Bool-cases,
  inl, inr, ◌==◌,
}
use auto_test_tools.Base.Int.{pos, eqb_ℤ}
use auto_test_tools.CString.Compare.{Bytes, same, codes}
use auto_test_tools.CmdLib.{Cmd, cmd_lib}
use auto_test_tools.Commands.Threads.{
  create_thread, start_send, start_rec, open_queue, start_all, start_mode, start,
}
use auto_test_tools.Commands.Usage.{wrong_parameter, print_example, cmd_at}
use auto_test_tools.Network.{failed}
use auto_test_tools.Params.{param}
use auto_test_tools.World.Monad.{Ends, ◌>>=◌}
use auto_test_tools.World.State.{World, Os, Event, created, cmd_send, ret_receive}

-- How many threads of a kind were begun.
abbrev pub made_send : List Event → ℕ
made_send [] = 0
made_send (created cmd_send ∷ events) = suc (made_send events)
made_send (_ ∷ events) = made_send events

abbrev pub made_rec : List Event → ℕ
made_rec [] = 0
made_rec (created ret_receive ∷ events) = suc (made_rec events)
made_rec (_ ∷ events) = made_rec events

-- A thread that runs keeps its id, and no second one is begun.
abbrev pub Single : World → World → Type 0
Single w w' =
    ((w.threads.send_id == 0) ≡ false
      → (w'.threads.send_id ≡ w.threads.send_id) × (made_send w'.events ≡ made_send w.events))
    × ((w.threads.rec_id == 0) ≡ false
        → (w'.threads.rec_id ≡ w.threads.rec_id) × (made_rec w'.events ≡ made_rec w.events))

module _ (os : Os) (k : ℕ) {example : Cmd} (known : get_elem? cmd_lib k ≡ some example) where
  start_mode-Single :
      (mode : Bytes) (w : World)
      → Ends (start_mode os k mode w.threads.send_id w.threads.rec_id w) (Single w)
  unfolding start_mode start_all start_send start_rec open_queue create_thread wrong_parameter
      print_example cmd_at
  start_mode-Single mode w = ground (arith, known)

  -- `start`, with a known command and a first parameter to read, comes to its end in every case, and a
  -- send or receive thread that runs keeps its id and gets no second one beside it.
  pub start-Single :
      (mode : Bytes) (w : World) → param 1 w ≡ some (mode, w) → Ends (start os k w) (Single w)
  unfolding start wrong_parameter print_example cmd_at
  start-Single mode w p = elim (Bool-cases (eqb_ℤ w.params.param_num (pos 1))) [
    | inl one ↦ rw one (rw (p, ◌>>=◌) (start_mode-Single mode w))
    | inr other ↦ rw other (ground (arith, known))
  ]

-- What `start` asks of the system goes well: the file of the queue, the key, the queue, and two
-- threads whose ids are not 0.
pub record StartLaws (os : Os) : Type 0 where
  pub opens : (n : ℕ) → eqb_ℤ (os.open_msg_file n) (pos 1) ≡ false
  pub key : (n : ℕ) → eqb_ℤ (os.ftok n) failed ≡ false
  pub queue : (n : ℕ) → eqb_ℤ (os.msgget n) failed ≡ false
  pub makes : (n : ℕ) → eqb_ℤ ((os.pthread_create n).0) (pos 0) ≡ true
  pub ids : (n : ℕ) → ((os.pthread_create n).1 == 0) ≡ false

-- If the system gives what is asked, `start all` leaves both threads running, whichever of them ran
-- before, and begins one thread of each kind that did not run and none of a kind that did.
pub start_mode-begins :
    (os : Os) (k : ℕ) (w : World)
    → StartLaws os
    → Ends (start_mode os k (codes "all") w.threads.send_id w.threads.rec_id w) (λ w'.
      ((w'.threads.send_id == 0) ≡ false)
      × ((w'.threads.rec_id == 0) ≡ false)
      × (made_send w'.events
          ≡ (if w.threads.send_id == 0 then suc (made_send w.events) else made_send w.events))
      × (made_rec w'.events
          ≡ (if w.threads.rec_id == 0 then suc (made_rec w.events) else made_rec w.events)))
unfolding start_mode start_all start_send start_rec open_queue create_thread same
start_mode-begins os k w laws =
    let c = w.calls in
    ground (
      arith,
      laws.opens c,
      laws.key (c + 1),
      laws.queue (c + 1 + 1),
      laws.makes (c + 1 + 1 + 1),
      laws.ids (c + 1 + 1 + 1),
      laws.makes (c + 1 + 1 + 1 + 1),
      laws.ids (c + 1 + 1 + 1 + 1),
    )
