-- ===== src/System/Clients.antt =====
-- `addClient`, `delClient`, `changeClientIpAddr` and the end of `syslogProcess` keep the invariant, and
-- every property that is `Closed`.
use auto_test_tools.Base.{
  List, ℕ, ◌≡◌, ◌<◌, ap, true, Option, none, some, arith, length, get_elem?, Bool-cases, inl, inr,
}
use mathlib.Core.Path.{subst⁻¹}
use auto_test_tools.Base.Int.{ℤ, pos, pos_part}
use auto_test_tools.CString.Compare.{Bytes}
use auto_test_tools.CmdLib.{cmd_lib, Cmd}
use auto_test_tools.Commands.Clients.{
  add_client_at, add_client, del_client_at, del_client, change_client_at, change_client_ip_addr,
  unregister,
}
use auto_test_tools.Commands.Clients.Effects.{
  add_client_in, add_client_refused, del_client_in, del_client_refused, deletes,
  change_client-keeps,
}
use auto_test_tools.Commands.Clients.Registry.{
  IsConsistent, Spares-IsConsistent, removed-IsConsistent, added-IsConsistent,
}
use auto_test_tools.Commands.Clients.Steps.{added, removed, unregister_in}
use auto_test_tools.Commands.Framed.{Keeps-param_number, Keeps-param_pointer, Keeps-wrong_parameter}
use auto_test_tools.Network.Config.{accepts, admits, prepared, Spares, PtonLaws}
use auto_test_tools.Network.Tables.{in_range_index}
use auto_test_tools.System.Invariant.{Closed}
use auto_test_tools.World.Keeps.{Leaves, Leaves-Ends, Keeps, Frame, keeps_rules}
use auto_test_tools.World.State.{World, Net, Os, Event}

module _ (os : Os) {P : World → Type 0} (closed : Closed os P) where
  abbrev frame : Frame P
  frame = closed.frame

  -- The tables change, and they are still consistent.
  after_net :
      (w : World) (n : Net) (calls : ℕ) (events : List Event)
      → IsConsistent os n
      → P w
      → P (record w { net = n; calls = calls; events = events })
  after_net w n calls events ok h =
      frame.at_events (record w { net = n; calls = calls }) events
        (frame.at_calls (record w { net = n }) calls (closed.at_net w n ok h))

  Spares-keeps : (w w' : World) → P w → Spares w w' → P w'
  Spares-keeps w w' h s = subst⁻¹ P s.0 (
      after_net w (record w.net { sockets = w'.net.sockets }) w'.calls w'.events
        (rw (ap (λ (x : World). x.net) s.0) at
          (Spares-IsConsistent os w w' (closed.inv w h).tables s))
        h)

  pub Keeps-unregister : (i : ℕ) → i < 10 → Keeps P (unregister (pos i))
  Keeps-unregister i l = record {
    at = λ w h.
        Leaves-Ends (unregister (pos i) w)
          (λ w' e. rw e (
            after_net w (removed w.net i) w.calls w'.events
              (removed-IsConsistent os w.net i (closed.inv w h).tables) h))
          (unregister_in w (frame.free w h) i l);
  }

  module _ (laws : PtonLaws os) (k : ℕ) {example : Cmd}
      (known : get_elem? cmd_lib k ≡ some example) where
    add_taken :
        (w : World) (c : ℤ) (ip : Option Bytes)
        → P w
        → accepts os w c ip ≡ true
        → Leaves P (add_client_at os k c ip w)
    add_taken w c none h a = cc
    add_taken w c (some ip) h a =
        let (i, e, l) = in_range_index c (ground arith) in
        let admitted : admits os w i ip ≡ true = ground arith in
        let short : length ip < 20 = omega (arith, laws.dotted ip (ground arith)) in
        rw e (
          rw (add_client_in os laws k known w (frame.free w h) i ip l admitted) (
            after_net w (added (prepared os w i ip) i ip).net _ _
              (added-IsConsistent os w i ip short admitted (closed.inv w h).tables) h))

    Keeps-add_client_at : (c : ℤ) (ip : Option Bytes) → Keeps P (add_client_at os k c ip)
    Keeps-add_client_at c ip = record {
      at = λ w h. elim (Bool-cases (accepts os w c ip)) [
        | inl a ↦ add_taken w c ip h a
        | inr r ↦
            Leaves-Ends (add_client_at os k c ip w) (λ w' s. Spares-keeps w w' h s)
              (add_client_refused os laws k known w (frame.free w h) c ip r)
      ];
    }

    pub Keeps-add_client : Keeps P (add_client os k)
    unfolding add_client
    Keeps-add_client = search (
      keeps_rules,
      Keeps-param_number (frame),
      Keeps-param_pointer (frame),
      Keeps-wrong_parameter (frame),
      Keeps-add_client_at,
    )

    del_taken :
        (w : World) (n c : ℤ) → P w → deletes w n c ≡ true → Leaves P (del_client_at k n c w)
    del_taken w n c h d =
        let (i, e, l) = in_range_index c (ground arith) in
        rw e (
          Leaves-Ends (del_client_at k n (pos i) w)
            (λ w' s. rw s (
              after_net w (removed w.net i) w.calls w'.events
                (removed-IsConsistent os w.net i (closed.inv w h).tables) h))
            (del_client_in w (frame.free w h) k i n l (ground arith) (ground arith)))

    Keeps-del_client_at : (n c : ℤ) → Keeps P (del_client_at k n c)
    Keeps-del_client_at n c = record {
      at = λ w h. elim (Bool-cases (deletes w n c)) [
        | inl d ↦ del_taken w n c h d
        | inr r ↦
            Leaves-Ends (del_client_at k n c w)
              (λ w' s. rw s (after_net w w.net w.calls w'.events (closed.inv w h).tables h))
              (del_client_refused w (frame.free w h) k n c known r)
      ];
    }

    pub Keeps-del_client : Keeps P (del_client k)
    unfolding del_client
    Keeps-del_client = search (keeps_rules, Keeps-param_number (frame), Keeps-del_client_at)

  Keeps-change_client_at : (c : ℤ) (ip : Option Bytes) → Keeps P (change_client_at os c ip)
  Keeps-change_client_at c ip = record {
    at = λ w h.
        Leaves-Ends (change_client_at os c ip w)
          (λ w' s. rw s (after_net w w.net w.calls w'.events (closed.inv w h).tables h))
          (change_client-keeps w (frame.free w h) os c ip ((closed.inv w h).tables (pos_part c)).0);
  }

  pub Keeps-change_client_ip_addr : (k : ℕ) → Keeps P (change_client_ip_addr os k)
  unfolding change_client_ip_addr
  Keeps-change_client_ip_addr k = search (
    keeps_rules,
    Keeps-param_number (frame),
    Keeps-param_pointer (frame),
    Keeps-wrong_parameter (frame),
    Keeps-change_client_at,
  )
