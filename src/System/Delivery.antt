-- ===== src/System/Delivery.antt =====
-- From the typed command to the phone: `ioevt` and then the rounds of `cmd_send`.
use auto_test_tools.Base.{
  ℕ, suc, ◌≡◌, ◌≢◌, ◌<◌, ◌||◌, refl, ap, ◌∙◌, true, List, [], ◌∷◌, ◌++◌, some, All, arith, length,
  length-append, get_elem?,
}
use auto_test_tools.Base.Int.{pos, pos_part}
use auto_test_tools.CString.Compare.{Bytes, codes, same}
use auto_test_tools.CString.Format.{bounded, IsPlain, IsText}
use auto_test_tools.CString.Number.{atoi}
use auto_test_tools.CString.Tokens.{words}
use auto_test_tools.CmdLib.{Cmd, cmd_lib, names}
use auto_test_tools.Commands.Queue.{ioevt}
use auto_test_tools.Commands.Queue.Keys.{key_codes_of}
use auto_test_tools.Commands.Queue.Send.{ioevt_msg, queue_with, ioevt-sends}
use auto_test_tools.Logs.Delivery.{IsInRange, delivered, delivered_all, cmd_send-fifo}
use auto_test_tools.Logs.Serve.{cmd_send}
use auto_test_tools.Network.{failed}
use auto_test_tools.Network.Config.{phone_addr}
use auto_test_tools.Network.Tables.{registered}
use auto_test_tools.Params.{param}
use auto_test_tools.System.Invariant.{Inv-Closed, Inv, IsMessage}
use auto_test_tools.System.Messages.{Keeps-ioevt}
use auto_test_tools.System.Reach.{Keeps-run, IsMessage-IsInRange}
use auto_test_tools.World.Monad.{M, Void, Ends, Ends-map, Ends-some, for_each, ◌>>=◌, ◌>>◌}
use auto_test_tools.World.State.{World, Os, Net, Msg, Event, sent}

delivered_all-append :
    (os : Os) (n : Net) (ms : List Msg) (m : Msg) (events : List Event)
    → delivered_all os n (ms ++ m ∷ []) events ≡ delivered os n m (delivered_all os n ms events)
delivered_all-append os n [] m events = refl
delivered_all-append os n (x ∷ ms) m events =
    delivered_all-append os n ms m (delivered os n x events)

-- The newest event is this one.
abbrev pub Newest : Event → List Event → Type 0
Newest e events = (earlier : List Event) × (events ≡ e ∷ earlier)

length-snoc : (ms : List Msg) (m : Msg) → length (ms ++ m ∷ []) ≡ suc (length ms)
length-snoc ms m = omega (arith, length-append ms (m ∷ []))

module _ (os : Os) (w : World) (h : Inv os w) (ms : List Msg) (m : Msg)
    (q : w.queue ≡ ms ++ m ∷ []) where
  All-IsInRange : All IsInRange (ms ++ m ∷ [])
  All-IsInRange =
      let good : All IsMessage (ms ++ m ∷ []) = rw q at h.queued in
      IsMessage-IsInRange (ms ++ m ∷ []) good

  -- With the queue empty, the last message has gone to the phone of its client.
  rounds-arrive :
      (ip : Bytes)
      → registered w.net (pos_part m.client_num) ≡ some ip
      → Ends (for_each (suc (length ms)) 0 (λ _. cmd_send) w) (λ w'.
        (w'.queue ≡ [])
        × Newest
            (sent (w.net.sockets (pos_part m.client_num)) (phone_addr os ip) m.cmd_obj)
            w'.events)
  rounds-arrive ip known =
      let to_phone : (events : List Event)
          → delivered os w.net m events
            ≡ sent (w.net.sockets (pos_part m.client_num)) (phone_addr os ip) m.cmd_obj ∷ events =
        λ events. rw (known, delivered) refl in
      rw (← length-snoc ms m) (
        Ends-map (for_each (length (ms ++ m ∷ [])) 0 (λ _. cmd_send) w)
          (λ w' d. (
            ap (λ (v : World). v.queue) d,
            (
              delivered_all os w.net ms w.events,
              ap (λ (v : World). v.events) d
                  ∙ delivered_all-append os w.net ms m w.events
                  ∙ to_phone (delivered_all os w.net ms w.events),
            ),
          ))
          (cmd_send-fifo os (ms ++ m ∷ []) 0 w h.free h.tables All-IsInRange q))

-- A run has put the message into the queue, behind those that were there, and no client, no thread and not the port has
-- changed.
abbrev pub Queued : Os → World → Msg → World → Type 0
Queued os w m w' =
    Inv os w'
    × (w'.queue ≡ w.queue ++ m ∷ [])
    × (w'.net ≡ w.net)
    × (w'.threads ≡ w.threads)
    × (w'.syslog_port ≡ w.syslog_port)

-- The queue is empty, and the last thing done was to send the message to this phone.
abbrev pub ComesTo : Os → World → Msg → Bytes → World → Type 0
ComesTo os w m ip w' =
    (w'.queue ≡ [])
    × Newest (sent (w.net.sockets (pos_part m.client_num)) (phone_addr os ip) m.cmd_obj) w'.events

-- A message that a run queues comes to the phone of its client within a round of the send thread for
-- each message then in the queue.
pub Queued-arrives :
    (os : Os) (run : M Void) (m : Msg) (ip : Bytes) (w : World)
    → Ends (run w) (Queued os w m)
    → registered w.net (pos_part m.client_num) ≡ some ip
    → Ends ((run >> for_each (suc (length w.queue)) 0 (λ _. cmd_send)) w) (ComesTo os w m ip)
Queued-arrives os run m ip w queued at_phone =
    let (_, w₁, e, (h₁, q, net, _, _)) = Ends-some (Queued os w m) (run w) queued in
    let known₁ : registered w₁.net (pos_part m.client_num) ≡ some ip =
      ap (λ (t : Net). registered t (pos_part m.client_num)) net ∙ at_phone in
    rw (e, ◌>>◌, ◌>>=◌) (rw (← net) (rounds-arrive os w₁ h₁ w.queue m q ip known₁))

-- The handler of `ioevt` with keys that are all known.
pub ioevt-queues :
    (os : Os) (k c : ℕ) {entry : Cmd} (word num keys action : Bytes) (ks : List Bytes) (w : World)
    → Inv os w
    → get_elem? cmd_lib k ≡ some entry
    → w.params.param_num ≡ pos 3
    → param 0 w ≡ some (word, w)
    → param 1 w ≡ some (num, w)
    → param 2 w ≡ some (keys, w)
    → param 3 w ≡ some (action, w)
    → names word entry ≡ true
    → atoi num ≡ some (pos c)
    → c < 10
    → (same action (codes "p") || same action (codes "l")) ≡ true
    → IsPlain keys
    → IsText keys
    → key_codes_of (words b',' (bounded 20 keys)) ≡ some ks
    → w.threads.send_id ≢ 0
    → os.msgsnd w.calls ≢ failed
    → Ends (ioevt os k w) (Queued os w (ioevt_msg c entry ks action))
ioevt-queues os k c {entry} word num keys action ks w h known n p0 p1 p2 p3 named number inside act
      plain text found run room =
    let (_, w₁, e, (q, net, threads, port)) =
      Ends-some
        (λ w'.
          (w'.queue
            ≡ queue_with c entry action w.queue (key_codes_of (words b',' (bounded 20 keys))))
          × (w'.net ≡ w.net)
          × (w'.threads ≡ w.threads)
          × (w'.syslog_port ≡ w.syslog_port))
        (ioevt os k w)
        (ioevt-sends os k c word num keys action w known n p0 p1 p2 p3 named number inside act plain
          text run room) in
    rw e (
      Keeps-run (Keeps-ioevt os (Inv-Closed os) k) h e,
      q ∙ ap (queue_with c entry action w.queue) found,
      net,
      threads,
      port,
    )
