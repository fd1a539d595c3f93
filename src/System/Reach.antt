-- ===== src/System/Reach.antt =====
-- The program as a step relation: the command line of core/src/autoTest.c, the script threads and the two
-- threads that serve the phones, in any order.
use auto_test_tools.Base.{
  ℕ, ◌≡◌, refl, Bool, false, List, [], ◌∷◌, Option, none, some, All, length, inr, arith, ◌==◌,
}
use auto_test_tools.Base.Int.{ℤ, pos}
use auto_test_tools.CString.Compare.{Bytes}
use auto_test_tools.Commands.Dispatch.{cmd_proc, run_entry}
use auto_test_tools.Commands.Framed.{Keeps-parse_line}
use auto_test_tools.Params.{parse_line}
use auto_test_tools.Commands.Framed.Threads.{Keeps-set_script_thread_id}
use auto_test_tools.Commands.Threads.{set_script_thread_id}
use auto_test_tools.Logs.Delivery.{IsInRange, Delivers, delivered_all, cmd_send-fifo}
use auto_test_tools.Logs.Serve.{cmd_send, ret_receive, ret_receive_begins}
use auto_test_tools.Network.Config.{PtonLaws}
use auto_test_tools.Prompt.{is_quit, main_loop}
use auto_test_tools.Script.Run.{script_cmd_process, count_round, set_count_of_script_run}
use auto_test_tools.System.Commands.{Keeps-cmd_proc, Keeps-run_entry}
use auto_test_tools.System.Counts.{Keeps-count_round, Keeps-set_count_of_script_run}
use auto_test_tools.System.Services.{Keeps-cmd_send, Keeps-ret_receive, Keeps-ret_receive_begins}
use auto_test_tools.System.Invariant.{Closed, Inv, Inv-Closed, IsMessage}
use auto_test_tools.System.Scripts.{Keeps-script_cmd_process}
use auto_test_tools.World.Keeps.{Leaves, Keeps, Keeps-pure, Keeps-if, Keeps-bind}
use auto_test_tools.World.Monad.{M, Void, Ends, for_each}
use auto_test_tools.World.State.{World, Os, Msg}

-- The static variables before `main`, and an empty queue.
abbrev pub initial : World
initial = record {
  net = record {
    sockets = λ _. pos 0;
    ip_addrs = λ _. [];
    sock_addrs = λ _. record { family = 0; port = 0; address = 0 };
    flags = λ _. pos 0;
  };
  params = record { buffer = []; argv = λ _. none; param_num = pos 0 };
  threads = record { send_id = 0; rec_id = 0; script_ids = λ _. 0 };
  scripts = record { conf_file_name = []; names = λ _. []; counts = λ _. pos 0 };
  success_call = λ _ _. pos 0;
  queue = [];
  msg_id = pos 0;
  syslog_port = pos 0;
  mutex = false;
  calls = 0;
  events = [];
}

-- One of the things that any thread but the send thread does between two looks at the state. A script
-- thread is one turn as a whole, or one turn for each of its rows and each of its rounds. A line is one
-- turn, or two: threads may take turns between `getTokens` and the handler, which then reads whatever
-- words are there.
pub data Turn (os : Os) (w : World) : World → Type 0 where
  -- A line that is typed, or the row of a script.
  command :
      (fuel : ℕ) (line : Bytes) {w' : World}
      → cmd_proc os fuel line w ≡ some (tt, w')
      → Turn os w w'
  parses : (line : Bytes) {w' : World} → parse_line line w ≡ some (tt, w') → Turn os w w'
  handles :
      (fuel : ℕ) {w' : World}
      → run_entry os (cmd_proc os fuel) fuel w ≡ some (tt, w')
      → Turn os w w'
  script :
      (fuel : ℕ) {w' : World}
      → script_cmd_process os (cmd_proc os fuel) w ≡ some (tt, w')
      → Turn os w w'
  script_begins :
      (n : ℤ) {w' : World} → set_count_of_script_run n (pos 0) w ≡ some (tt, w') → Turn os w w'
  script_round : (n : ℤ) {w' : World} → count_round n w ≡ some (tt, w') → Turn os w w'
  script_ends : (n : ℤ) {w' : World} → set_script_thread_id n 0 w ≡ some (tt, w') → Turn os w w'
  listens :
      (binds : ℕ → Bool) {r : Bool} {w' : World}
      → ret_receive_begins os binds w ≡ some (r, w')
      → Turn os w w'
  receives :
      (source line : Bytes) {w' : World}
      → ret_receive os source line w ≡ some (tt, w')
      → Turn os w w'

-- A turn of those, or a round of the send thread.
pub data Step (os : Os) (w : World) : World → Type 0 where
  turn : {w' : World} → Turn os w w' → Step os w w'
  sends : {w' : World} → cmd_send w ≡ some (tt, w') → Step os w w'

-- The states that the program comes to. The queue of System V outlives the program, so it may hold messages
-- of an earlier run when it begins.
pub data Reach (os : Os) : World → Type 0 where
  start : (left : List Msg) → All IsMessage left → Reach os (record initial { queue = left })
  later : {w w' : World} → Reach os w → Step os w w' → Reach os w'

initial-Inv :
    (os : Os) (left : List Msg) → All IsMessage left → Inv os (record initial { queue = left })
initial-Inv os left ok = record {
  free = refl;
  tables = λ i. (inr refl, omega arith, λ u. cc, λ u. cc);
  queued = ok;
  called = λ k i. refl;
  run = λ i. refl;
  named = λ i. omega arith;
  configured = omega arith;
}

pub Keeps-run :
    {A : Type 0} {P : World → Type 0} {m : M A} {a : A} {w w' : World}
    → Keeps P m
    → P w
    → m w ≡ some (a, w')
    → P w'
Keeps-run {A} {P} {a} {w} {w'} k h e =
    let left : Leaves {A = A} P (some (a, w')) = rw e at (k.at w h) in left

pub IsMessage-IsInRange : (ms : List Msg) → All IsMessage ms → All IsInRange ms
IsMessage-IsInRange [] h = tt
IsMessage-IsInRange (m ∷ ms) h = (h.0.0, IsMessage-IsInRange ms h.1)

module _ {os : Os} (laws : PtonLaws os) where
  -- A turn keeps what the changes of the variables keep.
  pub Turn-keeps : {P : World → Type 0} → Closed os P → {w w' : World} → P w → Turn os w w' → P w'
  Turn-keeps k h (command fuel line e) = Keeps-run (Keeps-cmd_proc os k laws fuel line) h e
  Turn-keeps k h (parses line e) = Keeps-run (Keeps-parse_line k.frame line) h e
  Turn-keeps k h (handles fuel e) =
      Keeps-run (Keeps-run_entry os k (cmd_proc os fuel) (Keeps-cmd_proc os k laws fuel) laws fuel)
        h e
  Turn-keeps k h (script fuel e) =
      Keeps-run
        (Keeps-script_cmd_process k.frame (cmd_proc os fuel) (Keeps-cmd_proc os k laws fuel)
          (Keeps-count_round os k) os (Keeps-set_count_of_script_run os k))
        h e
  Turn-keeps k h (script_begins n e) = Keeps-run (Keeps-set_count_of_script_run os k n (pos 0)) h e
  Turn-keeps k h (script_round n e) = Keeps-run (Keeps-count_round os k n) h e
  Turn-keeps k h (script_ends n e) = Keeps-run (Keeps-set_script_thread_id k.frame n 0) h e
  Turn-keeps k h (listens binds e) = Keeps-run (Keeps-ret_receive_begins os k binds) h e
  Turn-keeps k h (receives source line e) = Keeps-run (Keeps-ret_receive os k source line) h e

  Step-Inv : {w w' : World} → Inv os w → Step os w w' → Inv os w'
  Step-Inv h (turn t) = Turn-keeps (Inv-Closed os) h t
  Step-Inv h (sends e) = Keeps-run (Keeps-cmd_send os) h e

  -- In every state that the threads can reach, in whatever order they take their steps, where the
  -- words of a line may be overwritten by another thread before its handler runs: the lock is
  -- free; the row of each client is whole (its flag is a flag, its address fits the row, and if it is
  -- registered its socket is not -1 and its messages go to the address that `show` prints); every
  -- message in the queue is for a client in range and fits the arrays of its struct; no count is
  -- negative; and every file name fits its 60 bytes. The messages that an earlier run has left in the
  -- queue are for clients in range and fit; `inet_pton` takes no address of more than 15 characters.
  pub Reach-Inv : {w : World} → Reach os w → Inv os w
  Reach-Inv (start left ok) = initial-Inv os left ok
  Reach-Inv (later r s) = Step-Inv (Reach-Inv r) s

  -- From every reachable state, as many rounds of the send thread as there are messages in the queue
  -- empty it: each message, oldest first, is sent to the phone whose address is registered for its
  -- client, or dropped if none is; the rounds do not wait for the lock and change nothing else.
  -- `inet_pton` takes no address of more than 15 characters.
  Reach-drains :
      {w : World}
      → Reach os w
      → Ends
          (for_each (length w.queue) 0 (λ _. cmd_send) w)
          (Delivers [] (delivered_all os w.net w.queue w.events) w)
  Reach-drains {w} r =
      let h = Reach-Inv r in
      cmd_send-fifo os w.queue 0 w h.free h.tables (IsMessage-IsInRange w.queue h.queued) refl

-- What is a turn leads from reachable states to reachable states.
Keeps-Reach :
    {os : Os} (m : M Void)
    → ((w w' : World) → m w ≡ some (tt, w') → Turn os w w')
    → Keeps (Reach os) m
Keeps-Reach {os} m step = record { at = λ w r. go w r (m w) refl }
  where
    go : (w : World) → Reach os w → (o : Option (Void × World)) → m w ≡ o → Leaves (Reach os) o
    go w r none e = tt
    go w r (some (_, w')) e = later r (turn (step w w' e))

module _ (os : Os) (fuel : ℕ) where
  -- A session at the prompt goes from one reachable state to another.
  pub Keeps-main_loop :
      (inputs : List Bytes) → Keeps (Reach os) (main_loop (cmd_proc os fuel) inputs)
  unfolding main_loop
  Keeps-main_loop [] = Keeps-pure _
  Keeps-main_loop (input ∷ inputs) = Keeps-if (length input == 0) _ _ (Keeps-main_loop inputs) (
      Keeps-bind _ _ (Keeps-Reach (cmd_proc os fuel input) (λ w w' e. command fuel input e)) (λ _.
        Keeps-if (is_quit input) _ _ (Keeps-pure _)
          (Keeps-bind _ _ (Keeps-main_loop inputs) (λ session. Keeps-pure _))))
