-- ===== src/System/Turns.antt =====
-- What becomes of a queued message while the threads take their turns in any order.
use auto_test_tools.Base.{
  ℕ, suc, ◌+◌, ◌≡◌, ◌<◌, ◌∙◌, ap, sym, List, [], ◌∷◌, ◌++◌, some, arith, length, ◌⊎◌, inl, inr,
}
use auto_test_tools.Logs.Delivery.{delivered, Delivers, cmd_send-Delivers}
use auto_test_tools.Logs.Serve.{cmd_send}
use auto_test_tools.Network.Config.{PtonLaws}
use auto_test_tools.System.Invariant.{Closed, Inv, Inv-Closed}
use auto_test_tools.System.Reach.{Reach, Reach-Inv, Turn, Turn-keeps, turn, sends, later}
use auto_test_tools.World.Keeps.{Frame}
use auto_test_tools.World.Monad.{Ends}
use auto_test_tools.World.State.{World, Os, Msg}
use mathlib.Core.List.{append_assoc}

-- The threads go from one state to another, with so many rounds of the send thread and any turns of the
-- others before, between and behind them.
pub data Run (os : Os) (w : World) : ℕ → World → Type 0 where
  stays : Run os w 0 w
  others : {n : ℕ} {u v : World} → Run os w n u → Turn os u v → Run os w n v
  serves : {n : ℕ} {u v : World} → Run os w n u → cmd_send u ≡ some (tt, v) → Run os w (suc n) v

-- The queue begins with these messages.
abbrev Begins : Os → List Msg → World → Type 0
Begins os ms w = Inv os w × ((added : List Msg) × (w.queue ≡ ms ++ added))

Begins-Frame : (os : Os) (ms : List Msg) → Frame (Begins os ms)
Begins-Frame os ms =
    let k = Inv-Closed os in
    record {
      free = λ w h. h.0.free;
      at_events = λ w events h. (k.frame.at_events w events h.0, h.1);
      at_calls = λ w calls h. (k.frame.at_calls w calls h.0, h.1);
      at_params = λ w params h. (k.frame.at_params w params h.0, h.1);
      at_threads = λ w threads h. (k.frame.at_threads w threads h.0, h.1);
      at_msg_id = λ w id h. (k.frame.at_msg_id w id h.0, h.1);
      at_syslog_port = λ w port h. (k.frame.at_syslog_port w port h.0, h.1);
    }

-- Outside `cmd_send` the program puts messages behind those in the queue, and takes none.
Begins-Closed : (os : Os) (ms : List Msg) → Closed os (Begins os ms)
Begins-Closed os ms =
    let k = Inv-Closed os in
    record {
      frame = Begins-Frame os ms;
      inv = λ w h. h.0;
      at_net = λ w net ok h. (k.at_net w net ok h.0, h.1);
      at_queued = λ w m ok h.
          let (inv, (added, q)) = h in
          (
            k.at_queued w m ok inv,
            (
              added ++ m ∷ [],
              ap (λ (l : List Msg). l ++ m ∷ []) q ∙ append_assoc ms added (m ∷ []),
            ),
          );
      at_called = λ w table ok h. (k.at_called w table ok h.0, h.1);
      at_run = λ w counts ok h. (k.at_run w counts ok h.0, h.1);
      at_names = λ w names ok h. (k.at_names w names ok h.0, h.1);
      at_configured = λ w name ok h. (k.at_configured w name ok h.0, h.1);
    }

-- A round of the send thread with a message in the queue.
cmd_send-pops :
    (os : Os) (m : Msg) (rest : List Msg) {u v : World}
    → Inv os u
    → u.queue ≡ m ∷ rest
    → cmd_send u ≡ some (tt, v)
    → Delivers rest (delivered os u.net m u.events) u v
cmd_send-pops os m rest {u} {v} h q e =
    let inside = (rw q at h.queued).0.0 in
    let done : Ends (cmd_send u) (Delivers rest (delivered os u.net m u.events) u) =
      cmd_send-Delivers os u m rest h.free h.tables inside q in
    let left : Ends (some (tt, v)) (Delivers rest (delivered os u.net m u.events) u) =
      rw e at done in
    left

-- The message has been taken out of the queue by the round number `n` from the state `w`: to the phone that
-- was then registered for its client, or dropped if none was.
pub record Served (os : Os) (m : Msg) (n : ℕ) (w v : World) : Type 0 where
  pub before : World
  pub behind : World
  pub rounds : ℕ
  pub comes : Run os w n before
  pub first : before.queue ≡ m ∷ behind.queue
  pub round : cmd_send before ≡ some (tt, behind)
  pub goes_out : Delivers behind.queue (delivered os before.net m before.events) before behind
  pub goes_on : Run os behind rounds v

module _ {os : Os} (laws : PtonLaws os) where
  Run-Reach : {w : World} {n : ℕ} {v : World} → Reach os w → Run os w n v → Reach os v
  Run-Reach r stays = r
  Run-Reach r (others run t) = later (Run-Reach r run) (turn t)
  Run-Reach r (serves run e) = later (Run-Reach r run) (sends e)

  -- The message still waits, behind what is left of those that were before it.
  abbrev Waits : Msg → ℕ → ℕ → World → Type 0
  Waits m length_before n v =
      (left : List Msg) × (after : List Msg) × (v.queue ≡ left ++ m ∷ after)
      × (n + length left ≡ length_before)

  -- Another thread takes its turn.
  Waits-Turn :
      (m : Msg) (k n : ℕ) {u v : World} → Inv os u → Turn os u v → Waits m k n u → Waits m k n v
  Waits-Turn m k n {u} h t (left, after, q, count) =
      let begun : Begins os (left ++ m ∷ []) u =
        (h, (after, q ∙ sym (append_assoc left (m ∷ []) after))) in
      let (_, (added, q')) = Turn-keeps laws (Begins-Closed os (left ++ m ∷ [])) begun t in
      (left, added, q' ∙ append_assoc left (m ∷ []) added, count)

  -- The send thread takes its turn.
  Waits-serves :
      (m : Msg) (k n : ℕ) {w u v : World}
      → Inv os u
      → Run os w n u
      → cmd_send u ≡ some (tt, v)
      → Waits m k n u
      → Waits m k (suc n) v ⊎ Served os m k w v
  Waits-serves m k n {w} {u} {v} h run e ([], after, q, count) =
      let d = cmd_send-pops os m after h q e in
      let same : v.queue ≡ after = ap (λ (x : World). x.queue) d in
      let here : n ≡ k = omega (arith, count) in
      inr (record {
        before = u;
        behind = v;
        rounds = 0;
        comes = rw here at run;
        first = rw same q;
        round = e;
        goes_out =
            d
            ∙ ap (λ (l : List Msg). record u { queue = l; events = delivered os u.net m u.events })
                (sym same);
        goes_on = stays;
      })
  Waits-serves m k n {w} {u} {v} h run e (x ∷ left, after, q, count) =
      let d = cmd_send-pops os x (left ++ m ∷ after) h q e in
      inl (left, after, ap (λ (y : World). y.queue) d, omega (arith, count))

  Served-others :
      (m : Msg) (k : ℕ) {w u v : World} → Served os m k w u → Turn os u v → Served os m k w v
  Served-others m k s t = record {
    before = s.before;
    behind = s.behind;
    rounds = s.rounds;
    comes = s.comes;
    first = s.first;
    round = s.round;
    goes_out = s.goes_out;
    goes_on = others s.goes_on t;
  }

  Served-serves :
      (m : Msg) (k : ℕ) {w u v : World}
      → Served os m k w u
      → cmd_send u ≡ some (tt, v)
      → Served os m k w v
  Served-serves m k s e = record {
    before = s.before;
    behind = s.behind;
    rounds = suc s.rounds;
    comes = s.comes;
    first = s.first;
    round = s.round;
    goes_out = s.goes_out;
    goes_on = serves s.goes_on e;
  }

  Waits-or_Served :
      (m : Msg) (before after : List Msg) {w : World} {n : ℕ} {v : World}
      → Reach os w
      → w.queue ≡ before ++ m ∷ after
      → Run os w n v
      → Waits m (length before) n v ⊎ Served os m (length before) w v
  Waits-or_Served m before after r q stays = inl (before, after, q, omega arith)
  Waits-or_Served m before after r q (others {n} {u} {v} run t) =
      elim (Waits-or_Served m before after r q run) [
        | inl waits ↦
            inl (Waits-Turn m (length before) n (Reach-Inv laws (Run-Reach r run)) t waits)
        | inr s ↦ inr (Served-others m (length before) s t)
      ]
  Waits-or_Served m before after r q (serves {n} {u} {v} run e) =
      elim (Waits-or_Served m before after r q run) [
        | inl waits ↦
            Waits-serves m (length before) n (Reach-Inv laws (Run-Reach r run)) run e waits
        | inr s ↦ inr (Served-serves m (length before) s e)
      ]

  -- From every reachable state, in whatever order the threads take their turns, once the send thread has
  -- had more rounds than there were messages before a queued message, this message has been taken out of the
  -- queue, in exactly the round that its place gives it: it went to the phone registered for its
  -- client at that moment, or to nobody if none was, and that round changed nothing else.
  -- `inet_pton` takes no address of more than 15 characters.
  pub queued-Served :
      (m : Msg) (before after : List Msg) (n : ℕ) (w v : World)
      → Reach os w
      → w.queue ≡ before ++ m ∷ after
      → Run os w n v
      → length before < n
      → Served os m (length before) w v
  queued-Served m before after n w v r q run enough =
      elim (Waits-or_Served m before after r q run) [
        | inl (_, _, _, count) ↦ absurd (omega (arith, count))
        | inr s ↦ s
      ]
