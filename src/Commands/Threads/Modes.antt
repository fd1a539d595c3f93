-- ===== src/Commands/Threads/Modes.antt =====
-- What `start`, `stop` and `runScript` do to the threads.
use auto_test_tools.Base.{
  ℕ, zero, suc, ◌+◌, ◌≡◌, ◌↔◌, ◌≤◌, ◌<◌, refl, ap, ◌∙◌, List, [], ◌∷◌, none, arith, if◌then◌else◌,
  Bool-cases, inl, inr, ◌==◌,
}
use auto_test_tools.Base.Int.{ℤ, pos, negsuc}
use auto_test_tools.Commands.Threads.{
  get_script_thread_id, set_script_thread_id, stop_script_at, stop_script, stop_all, stop_send,
  stop_rec, end_thread,
}
use auto_test_tools.World.Monad.{Ends, Ends-map, Ends-some, for_each, ◌>>=◌}
use auto_test_tools.World.State.{World, Event, printed, killed, joined}
use Prim.Native.String.{String}

-- The log with a thread ended: it is signalled and waited for, if it runs.
abbrev pub ended : ℕ → List Event → List Event
ended id events = if id == 0 then events else joined id ∷ killed id ∷ events

-- The same for one of the two modes, which is reported.
abbrev pub ended_mode : ℕ → String → List Event → List Event
ended_mode id report events =
    if id == 0 then events else printed report [] ∷ joined id ∷ killed id ∷ events

-- The same for so many script threads, from slot `from` on.
abbrev pub ended_scripts : ℕ → ℕ → (ℕ → ℕ) → List Event → List Event
ended_scripts zero from ids events = events
ended_scripts (suc rounds) from ids events =
    ended_scripts rounds (from + 1) ids (ended (ids from) events)

ended_scripts-same :
    (rounds from : ℕ) (ids ids' : ℕ → ℕ) (events : List Event)
    → ((j : ℕ) → from ≤ j → ids j ≡ ids' j)
    → ended_scripts rounds from ids events ≡ ended_scripts rounds from ids' events
ended_scripts-same zero from ids ids' events e = refl
ended_scripts-same (suc rounds) from ids ids' events e =
    ap (λ n. ended_scripts rounds (from + 1) ids (ended n events)) (e from (omega arith))
    ∙ ended_scripts-same rounds (from + 1) ids ids' (ended (ids' from) events)
        (λ j l. e j (omega arith))

-- Only the ids of the script threads and the log differ.
abbrev OnlyScripts : List Event → World → World → Type 0
OnlyScripts events w w' = w' ≡ record w {
  threads = record w.threads { script_ids = w'.threads.script_ids };
  events = events;
}

abbrev Stopped : ℕ → World → World → Type 0
Stopped i w w' =
    OnlyScripts (ended (w.threads.script_ids i) w.events) w w'
    × ((j : ℕ) → w'.threads.script_ids j ≡ (if i == j then 0 else w.threads.script_ids j))

stop_script_at-slot : (i : ℕ) (w : World) → i < 10 → Ends (stop_script_at i w) (Stopped i w)
unfolding stop_script_at get_script_thread_id set_script_thread_id end_thread
stop_script_at-slot i w h = ground arith

-- The loop of `stop all` for so many slots from `from` on.
abbrev Zeroed : ℕ → ℕ → World → World → Type 0
Zeroed from rounds w w' =
    OnlyScripts (ended_scripts rounds from w.threads.script_ids w.events) w w'
    × ((j : ℕ) → from ≤ j → j < from + rounds → w'.threads.script_ids j ≡ 0)
    × ((j : ℕ) → j < from → w'.threads.script_ids j ≡ w.threads.script_ids j)

Zeroed-cons :
    (from rounds : ℕ) (w w₁ w' : World)
    → Stopped from w w₁
    → Zeroed (from + 1) rounds w₁ w'
    → Zeroed from (suc rounds) w w'
Zeroed-cons from rounds w w₁ w' (only, slot) (only', above, below) =
    let log : ended_scripts rounds (from + 1) w₁.threads.script_ids w₁.events
        ≡ ended_scripts (suc rounds) from w.threads.script_ids w.events =
      ended_scripts-same rounds (from + 1) w₁.threads.script_ids w.threads.script_ids w₁.events
        (λ j l. slot j ∙ ground arith)
      ∙ ap (λ (x : World). ended_scripts rounds (from + 1) w.threads.script_ids x.events) only in
    (
      only'
          ∙ ap
              (λ (events : List Event). record w₁ {
                threads = record w₁.threads { script_ids = w'.threads.script_ids };
                events = events;
              })
              log
          ∙ ap
              (λ (x : World). record x {
                threads = record x.threads { script_ids = w'.threads.script_ids };
                events = ended_scripts (suc rounds) from w.threads.script_ids w.events;
              })
              only,
      λ j l u. elim (Bool-cases (from == j)) [
        | inl e ↦ below j (ground arith) ∙ slot j ∙ rw e
        | inr e ↦ above j (ground arith) (omega arith)
      ],
      λ j l. below j (omega arith) ∙ slot j ∙ ground arith,
    )

stop_loop-Zeroed :
    (rounds from : ℕ) (w : World)
    → from + rounds ≤ 10
    → Ends (for_each rounds from stop_script_at w) (Zeroed from rounds w)
unfolding for_each
stop_loop-Zeroed zero from w h = (refl, λ j l u. absurd (omega arith), λ j l. refl)
stop_loop-Zeroed (suc rounds) from w h =
    let (_, w₁, e, stopped) =
      Ends-some (Stopped from w) (stop_script_at from w)
        (stop_script_at-slot from w (omega arith)) in
    rw (e, for_each)
      (Ends-map (for_each rounds (from + 1) stop_script_at w₁)
        (λ w' z. Zeroed-cons from rounds w w₁ w' stopped z)
        (stop_loop-Zeroed rounds (from + 1) w₁ (omega arith)))

abbrev NoSend : World → World → Type 0
NoSend w w' = w' ≡ record w {
  threads = record w.threads { send_id = 0 };
  events = ended_mode w.threads.send_id "test mode stoped!\n" w.events;
}

abbrev NoRec : World → World → Type 0
NoRec w w' = w' ≡ record w {
  threads = record w.threads { rec_id = 0 };
  events = ended_mode w.threads.rec_id "rec mode stoped!\n" w.events;
}

stop_send-NoSend : (w : World) → Ends (stop_send w.threads.send_id w) (NoSend w)
unfolding stop_send end_thread
stop_send-NoSend w = ground arith

stop_rec-NoRec : (w : World) → Ends (stop_rec w.threads.rec_id w) (NoRec w)
unfolding stop_rec end_thread
stop_rec-NoRec w = ground arith

-- `stop all` ends every thread that runs, the send thread, then the receive thread, then the script
-- threads in the order of their numbers: each one, and no other, is signalled and waited for, and the ends
-- of the two modes and of the scripts are reported. Behind it no id is left, the scripts have no names,
-- and nothing else has changed.
pub stop_all-idle :
    (w : World)
    → Ends (stop_all w.threads.send_id w.threads.rec_id w) (λ w'.
      (w' ≡ record w {
        threads = record { send_id = 0; rec_id = 0; script_ids = w'.threads.script_ids };
        scripts = record w.scripts { names = λ _. [] };
        events =
            printed "script mode stoped!\n" []
            ∷ ended_scripts 10 0 w.threads.script_ids (
                ended_mode w.threads.rec_id "rec mode stoped!\n"
                  (ended_mode w.threads.send_id "test mode stoped!\n" w.events));
      })
      × ((j : ℕ) → j < 10 → w'.threads.script_ids j ≡ 0))
unfolding stop_all
stop_all-idle w =
    let (_, w₁, e₁, p₁) =
      Ends-some (NoSend w) (stop_send w.threads.send_id w) (stop_send-NoSend w) in
    let v₁ : World = record w {
      threads = record w.threads { send_id = 0 };
      events = ended_mode w.threads.send_id "test mode stoped!\n" w.events;
    } in
    let (_, w₂, e₂, p₂) = Ends-some (NoRec v₁) (stop_rec w.threads.rec_id v₁) (stop_rec-NoRec v₁) in
    let v₂ : World = record v₁ {
      threads = record v₁.threads { rec_id = 0 };
      events = ended_mode w.threads.rec_id "rec mode stoped!\n" v₁.events;
    } in
    let (_, w₃, e₃, (p₃, zero_all, _)) =
      Ends-some (Zeroed 0 10 v₂) (for_each 10 0 stop_script_at v₂)
        (stop_loop-Zeroed 10 0 v₂ (omega arith)) in
    let end = λ (x : World). record x {
      scripts = record x.scripts { names = λ _. [] };
      events = printed "script mode stoped!\n" [] ∷ x.events;
    } in
    rw (e₁, ◌>>=◌)
      (rw (p₁) (
        rw (e₂, ◌>>=◌)
          (rw (p₂) (rw (e₃, ◌>>=◌) (ap end p₃, λ j h. zero_all j (omega arith) (omega arith))))))

-- `stop <n> script` is undefined for the number 10, which its own bound lets pass and the table of
-- script threads does not have, and for no other number.
pub stop_script-undefined_iff : (n : ℤ) (w : World) → (stop_script n w ≡ none) ↔ (n ≡ pos 10)
unfolding stop_script get_script_thread_id set_script_thread_id end_thread
stop_script-undefined_iff (pos n) w = (λ h. ground arith, λ h. ground arith)
stop_script-undefined_iff (negsuc n) w = (λ h. ground arith, λ h. ground arith)
