-- ===== src/Commands/Clients/Registry.antt =====
-- The commands on clients refine a registry, a map from client numbers to addresses, and keep its
-- tables consistent.
use mathlib.Core.Path.{subst⁻¹}
use auto_test_tools.Base.{
  ℕ, ◌≡◌, ◌≢◌, ◌<◌, refl, ap, true, false, Option, none, some, arith, length, if◌then◌else◌,
  get_elem?, Bool-cases, inl, inr, ◌==◌, ◌∙◌,
}
use auto_test_tools.Base.Int.{ℤ, pos, pos_part}
use auto_test_tools.CString.Compare.{Bytes}
use auto_test_tools.CmdLib.{cmd_lib, Cmd}
use auto_test_tools.Commands.Clients.{add_client_at, del_client_at, unregister}
use auto_test_tools.Commands.Clients.Effects.{
  add_client_in, add_client_refused, del_client_in, del_client_refused, deletes,
}
use auto_test_tools.Commands.Clients.Steps.{added, removed, unregister_in}
use auto_test_tools.Network.{used, failed}
use auto_test_tools.Network.Config.{accepts, admits, prepared, Spares, PtonLaws, phone_addr}
use auto_test_tools.Network.Tables.{registered, IsFlag, in_range_index}
use auto_test_tools.World.Array.{update}
use auto_test_tools.World.Monad.{Ends, Ends-map}
use auto_test_tools.World.State.{World, Net, Os, SockAddr}

-- The row of one client: its flag is a flag and its address ends within the row; if it is registered
-- its socket is not -1, and messages go to the address that `show` prints.
abbrev pub IsRow : Os → ℤ → Bytes → SockAddr → ℤ → Type 0
IsRow os flag ip addr fd =
    IsFlag flag
    × (length ip < 20)
    × (flag ≡ used → addr ≡ phone_addr os ip)
    × (flag ≡ used → fd ≢ failed)

abbrev pub IsConsistent : Os → Net → Type 0
IsConsistent os n = (i : ℕ) → IsRow os (n.flags i) (n.ip_addrs i) (n.sock_addrs i) (n.sockets i)

module _ (os : Os) where
  pub Spares-IsConsistent :
      (w w' : World) → IsConsistent os w.net → Spares w w' → IsConsistent os w'.net
  Spares-IsConsistent w w' ok s i =
      let same : w'.net ≡ record w.net { sockets = w'.net.sockets } =
        ap (λ (x : World). x.net) s.0 in
      subst⁻¹ (λ (n : Net). IsRow os (n.flags i) (n.ip_addrs i) (n.sock_addrs i) (n.sockets i)) same
        ((ok i).0, (ok i).1, (ok i).2, λ u. rw (s.1 i u) ((ok i).3 u))

  pub removed-IsConsistent : (n : Net) (i : ℕ) → IsConsistent os n → IsConsistent os (removed n i)
  removed-IsConsistent n i ok j = elim (Bool-cases (i == j)) [
    | inl e ↦ rw e (inr refl, omega arith, λ u. cc, λ u. cc)
    | inr e ↦ rw e (ok j)
  ]

  pub added-IsConsistent :
      (w : World) (i : ℕ) (ip : Bytes)
      → length ip < 20
      → admits os w i ip ≡ true
      → IsConsistent os w.net
      → IsConsistent os (added (prepared os w i ip) i ip).net
  added-IsConsistent w i ip l a ok j = elim (Bool-cases (i == j)) [
    | inl e ↦ rw e (inl refl, l, λ u. refl, λ u. ground arith)
    | inr e ↦ rw e (ok j)
  ]

  registered-added :
      (w : World) (i : ℕ) (ip : Bytes) (j : ℕ)
      → registered (added w i ip).net j ≡ update (registered w.net) i (some ip) j
  registered-added w i ip j = elim (Bool-cases (i == j)) [ inl e ↦ rw e | inr e ↦ rw e ]

  registered-removed :
      (n : Net) (i j : ℕ) → registered (removed n i) j ≡ update (registered n) i none j
  registered-removed n i j = elim (Bool-cases (i == j)) [ inl e ↦ rw e | inr e ↦ rw e ]

-- A run is defined and frees the lock, the tables stay consistent, and the registry becomes `r`.
abbrev pub BecomesRegistry : Os → (ℕ → Option Bytes) → World → Type 0
BecomesRegistry os r w =
    (w.mutex ≡ false) × IsConsistent os w.net × ((j : ℕ) → registered w.net j ≡ r j)

module _ (os : Os) (w : World) (free : w.mutex ≡ false) (ok : IsConsistent os w.net) where
  pub unregister-removes :
      (i : ℕ)
      → i < 10
      → Ends (unregister (pos i) w) (BecomesRegistry os (update (registered w.net) i none))
  unregister-removes i h =
      Ends-map (unregister (pos i) w)
        (λ w' s. rw s (free, removed-IsConsistent os w.net i ok, registered-removed os w.net i))
        (unregister_in w free i h)

module _ (os : Os) (k : ℕ) {example : Cmd} (known : get_elem? cmd_lib k ≡ some example) (w : World)
    (free : w.mutex ≡ false) (ok : IsConsistent os w.net) where
  add_client_taken :
      (laws : PtonLaws os) (c : ℤ) (ip : Option Bytes)
      → accepts os w c ip ≡ true
      → Ends
          (add_client_at os k c ip w)
          (BecomesRegistry os (update (registered w.net) (pos_part c) ip))
  add_client_taken laws c none a = cc
  add_client_taken laws c (some ip) a =
      let (i, e, h) = in_range_index c (ground arith) in
      let admitted : admits os w i ip ≡ true = ground arith in
      let short : length ip < 20 = omega (arith, laws.dotted ip (ground arith)) in
      rw e (
        rw (add_client_in os laws k known w free i ip h admitted) (
          free,
          added-IsConsistent os w i ip short admitted ok,
          registered-added os (prepared os w i ip) i ip,
        ))

  -- With a free lock, consistent tables and an entry of the table of commands for its messages, and if
  -- `inet_pton` takes dotted addresses only, `addClient` refines the insertion into the registry: the
  -- client is inserted if its number is in range and free, its address valid and a socket is had; else
  -- the registry stays. The lock is free again and the tables are consistent on every branch.
  pub add_client-registers :
      (laws : PtonLaws os) (c : ℤ) (ip : Option Bytes)
      → Ends (add_client_at os k c ip w) (
          BecomesRegistry os (
            if accepts os w c ip
            then update (registered w.net) (pos_part c) ip
            else registered w.net))
  add_client-registers laws c ip = elim (Bool-cases (accepts os w c ip)) [
    | inl a ↦ rw a (add_client_taken laws c ip a)
    | inr r ↦ rw r (
        Ends-map (add_client_at os k c ip w)
          (λ w' s. (
            ap (λ (x : World). x.mutex) s.0 ∙ free,
            Spares-IsConsistent os w w' ok s,
            λ j. ap (λ (x : World). registered x.net j) s.0,
          ))
          (add_client_refused os laws k known w free c ip r))
  ]

  del_client_taken :
      (n c : ℤ)
      → deletes w n c ≡ true
      → Ends
          (del_client_at k n c w)
          (BecomesRegistry os (update (registered w.net) (pos_part c) none))
  del_client_taken n c d =
      let (i, e, h) = in_range_index c (ground arith) in
      rw e (
        Ends-map (del_client_at k n (pos i) w)
          (λ w' s. rw s (free, removed-IsConsistent os w.net i ok, registered-removed os w.net i))
          (del_client_in w free k i n h (ground arith) (ground arith)))

  -- With a free lock, consistent tables and an entry for its messages, `delClient` refines the removal
  -- from the registry: a client whose number is given, in range and registered is removed; else the
  -- registry stays. It is defined for the number 10 too, which its own bound lets pass, and the lock is
  -- free and the tables are consistent on every branch.
  pub del_client-removes :
      (n c : ℤ)
      → Ends (del_client_at k n c w) (
          BecomesRegistry os (
            if deletes w n c
            then update (registered w.net) (pos_part c) none
            else registered w.net))
  del_client-removes n c = elim (Bool-cases (deletes w n c)) [
    | inl d ↦ rw d (del_client_taken n c d)
    | inr r ↦ rw r (
        Ends-map (del_client_at k n c w) (λ w' s. rw s (free, ok, λ j. refl))
          (del_client_refused w free k n c known r))
  ]
