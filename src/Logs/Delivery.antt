-- ===== src/Logs/Delivery.antt =====
-- core/src/autoTest.c: what the rounds of `cmd_send` send.
use auto_test_tools.Base.{
  ℕ, ◌+◌, ◌≡◌, ◌<◌, refl, true, false, List, [], ◌∷◌, none, some, arith, length, All, lt→ltb, inl,
  inr,
}
use auto_test_tools.Base.Int.{pos, pos_part, eqb_ℤ}
use auto_test_tools.Commands.Clients.Registry.{IsConsistent}
use auto_test_tools.Logs.Serve.{msgrcv, send_message, cmd_send}
use auto_test_tools.Network.{unused, error, out_of_range, get_socket, get_client_sock_addr}
use auto_test_tools.Network.Config.{phone_addr}
use auto_test_tools.Network.Tables.{registered, in_range_index, get_client_flag_in}
use auto_test_tools.World.Monad.{Ends, Ends-some, for_each, ◌>>=◌}
use auto_test_tools.World.State.{World, Os, Net, Msg, Event, sent}

-- The log with a message delivered: to the phone of its client if that is registered, else to nobody.
abbrev pub delivered : Os → Net → Msg → List Event → List Event
delivered os n m events = elim (registered n (pos_part m.client_num)) [
  | none ↦ events
  | some ip ↦ sent (n.sockets (pos_part m.client_num)) (phone_addr os ip) m.cmd_obj ∷ events
]

abbrev pub delivered_all : Os → Net → List Msg → List Event → List Event
delivered_all os n [] events = events
delivered_all os n (m ∷ ms) events = delivered_all os n ms (delivered os n m events)

abbrev pub IsInRange : Msg → Type 0
IsInRange m = out_of_range m.client_num ≡ false

module _ (w : World) (i : ℕ) (h : i < 10) where
  get_socket-used :
      eqb_ℤ (w.net.flags i) unused ≡ false → get_socket (pos i) w ≡ some (w.net.sockets i, w)
  unfolding get_socket
  get_socket-used u =
      let inside : out_of_range (pos i) ≡ false = ground arith in
      rw inside (rw (lt→ltb i 10 h) (rw u))

  get_socket-unused : eqb_ℤ (w.net.flags i) unused ≡ true → get_socket (pos i) w ≡ some (error, w)
  unfolding get_socket
  get_socket-unused u =
      let inside : out_of_range (pos i) ≡ false = ground arith in
      rw inside (rw (lt→ltb i 10 h) (rw u))

  get_client_sock_addr-in : get_client_sock_addr (pos i) w ≡ some (w.net.sock_addrs i, w)
  unfolding get_client_sock_addr
  get_client_sock_addr-in = ground arith

module _ (w : World) (i : ℕ) (m : Msg) (free : w.mutex ≡ false) (e : m.client_num ≡ pos i)
    (h : i < 10) where
  send_message-unused : eqb_ℤ (w.net.flags i) unused ≡ true → send_message m w ≡ some (tt, w)
  unfolding send_message
  send_message-unused u =
      let held = record w { mutex = true } in
      ground (
        arith,
        e,
        get_socket-unused held i h u,
        get_client_sock_addr-in held i h,
        get_client_flag_in i h held,
        u,
      )

  send_message-used :
      eqb_ℤ (w.net.flags i) unused ≡ false
      → send_message m w
        ≡ some (
          tt,
          record w { events = sent (w.net.sockets i) (w.net.sock_addrs i) m.cmd_obj ∷ w.events },
        )
  unfolding send_message
  send_message-used u =
      let held = record w { mutex = true } in
      ground (
        arith,
        e,
        get_socket-used held i h u,
        get_client_sock_addr-in held i h,
        get_client_flag_in i h held,
        u,
      )

-- Behind the rounds: nothing but the queue and the log differs.
abbrev pub Delivers : List Msg → List Event → World → World → Type 0
Delivers rest events w w' = w' ≡ record w { queue = rest; events = events }

module _ (os : Os) (w : World) (free : w.mutex ≡ false) (ok : IsConsistent os w.net) (m : Msg)
    (inside : IsInRange m) where
  pub send_message-Delivers :
      Ends (send_message m w) (Delivers w.queue (delivered os w.net m w.events) w)
  send_message-Delivers =
      let (i, e, h) = in_range_index m.client_num inside in
      elim (ok i).0 [
        | inr u ↦ rw (send_message-unused w i m free e h (ground (arith, u))) (ground (arith, e, u))
        | inl u ↦
            rw (send_message-used w i m free e h (ground (arith, u)))
              (ground (arith, e, u, (ok i).2 u))
      ]

msgrcv-∷ :
    (w : World) (m : Msg) (rest : List Msg)
    → w.queue ≡ m ∷ rest
    → msgrcv w ≡ some (some m, record w { queue = rest })
unfolding msgrcv
msgrcv-∷ w m rest q = rw q

module _ (os : Os) where
  pub cmd_send-Delivers :
      (w : World) (m : Msg) (rest : List Msg)
      → w.mutex ≡ false
      → IsConsistent os w.net
      → IsInRange m
      → w.queue ≡ m ∷ rest
      → Ends (cmd_send w) (Delivers rest (delivered os w.net m w.events) w)
  unfolding cmd_send
  cmd_send-Delivers w m rest free ok inside q =
      rw (msgrcv-∷ w m rest q, ◌>>=◌)
        (send_message-Delivers os (record w { queue = rest }) free ok m inside)

  -- With consistent tables and a free lock, as many rounds of the send thread as there are messages
  -- empty the queue and send each message, oldest first, through the socket of its client to the phone
  -- whose address is registered; a message of a client that is no longer registered is dropped.
  -- Nothing but the queue and the log changes, and no round waits for the lock.
  pub cmd_send-fifo :
      (ms : List Msg) (from : ℕ) (w : World)
      → w.mutex ≡ false
      → IsConsistent os w.net
      → All IsInRange ms
      → w.queue ≡ ms
      → Ends
          (for_each (length ms) from (λ _. cmd_send) w)
          (Delivers [] (delivered_all os w.net ms w.events) w)
  unfolding for_each
  cmd_send-fifo [] from w free ok inside q = ground (arith, q)
  cmd_send-fifo (m ∷ ms) from w free ok inside q =
      let (_, w₁, e, d) =
        Ends-some (Delivers ms (delivered os w.net m w.events) w) (cmd_send w)
          (cmd_send-Delivers w m ms free ok inside.0 q) in
      rw (e, for_each)
        (rw d (
          cmd_send-fifo ms (from + 1)
            (record w { queue = ms; events = delivered os w.net m w.events }) free ok inside.1
            refl))
