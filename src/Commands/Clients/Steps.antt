-- ===== src/Commands/Clients/Steps.antt =====
-- The parts of the commands on clients, each with the state that it leaves.
use auto_test_tools.Base.{
  ℕ, ◌≡◌, ◌<◌, true, false, some, [], ◌∷◌, arith, length, Bool-cases, inl, inr,
}
use auto_test_tools.Base.Int.{ℤ, pos}
use auto_test_tools.CString.Compare.{Bytes}
use auto_test_tools.Commands.Clients.{locked_flag, register, unregister}
use auto_test_tools.Network.{
  used, unused, error, out_of_range, set_client_flag, set_client_ip_addr, del_client_sock_addr,
  close_socket, zero_addr,
}
use auto_test_tools.Network.Tables.{
  get_client_flag_out, get_client_flag_in, in_range_index, set_client_flag_in,
  set_client_ip_addr_in,
}
use auto_test_tools.World.Array.{update}
use auto_test_tools.World.Monad.{Ends}
use auto_test_tools.World.State.{World, Net, printed}

-- The state behind the last lines of `addClient`.
abbrev pub added : World → ℕ → Bytes → World
added w i ip = record w {
  net = record w.net { flags = update w.net.flags i used; ip_addrs = update w.net.ip_addrs i ip };
  events = printed "add client OK!\n" [] ∷ w.events;
}

-- The tables behind the last lines of `delClient`.
abbrev pub removed : Net → ℕ → Net
removed n i = record n {
  flags = update n.flags i unused;
  ip_addrs = update n.ip_addrs i [];
  sock_addrs = update n.sock_addrs i zero_addr;
}

module _ (w : World) (free : w.mutex ≡ false) where
  pub locked_flag_out : (c : ℤ) → out_of_range c ≡ true → locked_flag c w ≡ some (error, w)
  unfolding locked_flag
  locked_flag_out c h = ground (arith, get_client_flag_out c (record w { mutex = true }) h)

  pub locked_flag_in : (i : ℕ) → i < 10 → locked_flag (pos i) w ≡ some (w.net.flags i, w)
  unfolding locked_flag
  locked_flag_in i h = ground (arith, get_client_flag_in i h (record w { mutex = true }))

  pub register_in :
      (i : ℕ) (ip : Bytes)
      → i < 10
      → length ip < 20
      → register (pos i) (some ip) w ≡ some (tt, added w i ip)
  unfolding register
  register_in i ip h l =
      let held = record w { mutex = true } in
      let flagged = record held { net = record w.net { flags = update w.net.flags i used } } in
      ground (arith, set_client_flag_in i h held used, set_client_ip_addr_in i h flagged ip l)

  pub unregister_in :
      (i : ℕ)
      → i < 10
      → Ends
          (unregister (pos i) w)
          (λ w'. w' ≡ record w { net = removed w.net i; events = w'.events })
  unfolding unregister set_client_flag set_client_ip_addr close_socket del_client_sock_addr
  unregister_in i h = ground arith

  -- The flag is read for every number, and the lock is free again.
  pub locked_flag_any : (c : ℤ) → (f : ℤ) × (locked_flag c w ≡ some (f, w))
  locked_flag_any c = elim (Bool-cases (out_of_range c)) [
    | inl out ↦ (error, locked_flag_out c out)
    | inr inside ↦
        let (i, e, h) = in_range_index c inside in (w.net.flags i, rw e (locked_flag_in i h))
  ]
