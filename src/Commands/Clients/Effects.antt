-- ===== src/Commands/Clients/Effects.antt =====
-- The commands on clients against a registry: a map from client numbers to addresses.
use auto_test_tools.Base.{
  ℕ, ◌≡◌, ◌≢◌, ◌<◌, Bool, true, false, ◌&&◌, not, Option, some, arith, get_elem?, Bool-cases, inl,
  inr,
}
use auto_test_tools.Base.Int.{ℤ, pos, pos_part, ltb_ℤ, eqb_ℤ}
use auto_test_tools.CString.Compare.{Bytes}
use auto_test_tools.CmdLib.{cmd_lib, Cmd}
use auto_test_tools.Commands.Clients.{add_client_at, del_client_at, change_client_at}
use auto_test_tools.Commands.Clients.Steps.{
  locked_flag_any, locked_flag_out, locked_flag_in, register_in, unregister_in, added, removed,
}
use auto_test_tools.Commands.Usage.{print_example, wrong_parameter}
use auto_test_tools.Network.{unused, out_of_range, network_config, change_client_addr, at_failed}
use auto_test_tools.Network.Config.{
  accepts, network_config_fails, admits, prepared, Spares, network_config_ok, network_config-used,
  PtonLaws,
}
use auto_test_tools.Network.Tables.{in_range_index, IsFlag}
use auto_test_tools.World.Monad.{Ends, Returns-some}
use auto_test_tools.World.State.{World, Os}

module _ (os : Os) (laws : PtonLaws os) (k : ℕ) {example : Cmd}
    (known : get_elem? cmd_lib k ≡ some example) (w : World) (free : w.mutex ≡ false) where
  pub add_client_in :
      (i : ℕ) (ip : Bytes)
      → i < 10
      → admits os w i ip ≡ true
      → add_client_at os k (pos i) (some ip) w ≡ some (tt, added (prepared os w i ip) i ip)
  unfolding add_client_at
  add_client_in i ip h a = ground (
    arith,
    locked_flag_in w free i h,
    network_config_ok os i ip w h a,
    register_in (prepared os w i ip) free i ip h,
    laws.dotted ip,
  )

  -- What it does not take it leaves alone: only the example is printed.
  pub add_client_refused :
      (c : ℤ) (ip : Option Bytes)
      → accepts os w c ip ≡ false
      → Ends (add_client_at os k c ip w) (Spares w)
  unfolding add_client_at print_example
  add_client_refused c ip a =
      let (flag, f) = locked_flag_any w free c in
      let (r, w', e, q) =
        Returns-some (λ r w'. (r ≡ at_failed) × Spares w w') (network_config os c ip w)
          (network_config_fails os c ip w a) in
      ground (arith, f, e, q.0, q.1.0, known, q.1.1)

-- `delClient` removes the client: it has a parameter, in range, of a client that is registered.
abbrev pub deletes : World → ℤ → ℤ → Bool
deletes w n c =
    not (ltb_ℤ n (pos 1)) && not (out_of_range c) && not (eqb_ℤ (w.net.flags (pos_part c)) unused)

module _ (w : World) (free : w.mutex ≡ false) where
  pub del_client_in :
      (k i : ℕ) (n : ℤ)
      → i < 10
      → ltb_ℤ n (pos 1) ≡ false
      → w.net.flags i ≢ unused
      → Ends
          (del_client_at k n (pos i) w)
          (λ w'. w' ≡ record w { net = removed w.net i; events = w'.events })
  unfolding del_client_at
  del_client_in k i n h few u = ground (arith, locked_flag_in w free i h, unregister_in w free i h)

  -- Every other `del` only prints.
  pub del_client_refused :
      (k : ℕ) {example : Cmd} (n c : ℤ)
      → get_elem? cmd_lib k ≡ some example
      → deletes w n c ≡ false
      → Ends (del_client_at k n c w) (λ w'. w' ≡ record w { events = w'.events })
  unfolding del_client_at wrong_parameter print_example
  del_client_refused k n c known d = elim (Bool-cases (out_of_range c)) [
    | inl out ↦ ground (arith, locked_flag_out w free c out, known)
    | inr inside ↦
        let (i, e, h) = in_range_index c inside in
        ground (arith, e, locked_flag_in w free i h, known)
  ]

  -- With a free lock `changeIp` never changes an address: for a number that is not registered the
  -- handler stops, and for a registered one `network_config` refuses, so with every number and every
  -- address the whole state but the log stays as it was. The client's flag is `USED` or `UNUSED`.
  pub change_client-keeps :
      (os : Os) (c : ℤ) (ip : Option Bytes)
      → IsFlag (w.net.flags (pos_part c))
      → Ends (change_client_at os c ip w) (λ w'. w' ≡ record w { events = w'.events })
  unfolding change_client_at change_client_addr
  change_client-keeps os c ip flag = elim (Bool-cases (out_of_range c)) [
    | inl out ↦ ground (arith, locked_flag_out w free c out)
    | inr inside ↦ let (i, e, h) = in_range_index c inside in registered_case i e h flag
  ]
    where
      registered_case :
          (i : ℕ)
          → c ≡ pos i
          → i < 10
          → IsFlag (w.net.flags (pos_part c))
          → Ends (change_client_at os c ip w) (λ w'. w' ≡ record w { events = w'.events })
      registered_case i e h (inr u) = ground (arith, e, locked_flag_in w free i h)
      registered_case i e h (inl u) =
          let (r, w', f, q) =
            Returns-some (λ r w'. (r ≡ at_failed) × (w' ≡ record w { events = w'.events }))
              (network_config os c ip w) (network_config-used os c ip w u) in
          ground (arith, e, f, q.0, q.1, locked_flag_in w free i h)
