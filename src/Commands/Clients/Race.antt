-- ===== src/Commands/Clients/Race.antt =====
-- core/src/at_cmdProc.c: two threads in `addClient` at the same time.
use auto_test_tools.Base.{
  ℕ, ◌+◌, ◌≡◌, ◌<◌, true, false, [], ◌∷◌, some, arith, length, get_elem?, if◌then◌else◌,
}
use auto_test_tools.Base.Int.{ℤ, pos, eqb_ℤ}
use auto_test_tools.CString.Compare.{Bytes}
use auto_test_tools.CmdLib.{Cmd, cmd_lib}
use auto_test_tools.Commands.Clients.{add_client_at, register, locked_flag}
use auto_test_tools.Commands.Clients.Effects.{add_client_in}
use auto_test_tools.Commands.Clients.Steps.{locked_flag_in, register_in, added}
use auto_test_tools.Commands.Usage.{print_example}
use auto_test_tools.Network.{used, at_ok, at_failed, network_config}
use auto_test_tools.Network.Config.{PtonLaws, admits, prepared, phone_addr, network_config_ok}
use auto_test_tools.Network.Tables.{registered}
use auto_test_tools.World.Monad.{M, Void, Ends, ◌>>=◌, ◌>>◌, say}
use auto_test_tools.World.State.{World, Os, printed}

-- A thread in `addClient` with the address `ip`, and behind its `network_config`, where it does not hold
-- the lock, the whole `addClient` of another thread with the same number and the address `other`.
abbrev pub add_client_overtaken : Os → ℕ → ℤ → Bytes → Bytes → M Void
add_client_overtaken os k c ip other = do
  stat ← locked_flag c
  if eqb_ℤ stat used then say "client num exist! add failed\n" [] else do
    result ← network_config os c (some ip)
    add_client_at os k c (some other)
    elim result [ at_failed ↦ print_example k | at_ok ↦ register c (some ip) ]

-- Two threads that add the same free client at the same time may both report success: the table then
-- names the address of the first, the messages go to the address of the second through its socket, and the
-- socket of the first stays open, since no call but the two reports is made. The conditions: a free
-- lock, a number in range, and both addresses and both sockets good.
pub add_client_overtaken-crosses :
    (os : Os) (k i : ℕ) {entry : Cmd} (ip other : Bytes) (w : World)
    → PtonLaws os
    → get_elem? cmd_lib k ≡ some entry
    → w.mutex ≡ false
    → i < 10
    → admits os w i ip ≡ true
    → admits os (prepared os w i ip) i other ≡ true
    → Ends (add_client_overtaken os k (pos i) ip other w) (λ w'.
      (registered w'.net i ≡ some ip)
      × (w'.net.sock_addrs i ≡ phone_addr os other)
      × (w'.net.sockets i ≡ os.socket (w.calls + 1))
      × (w'.events ≡ printed "add client OK!\n" [] ∷ printed "add client OK!\n" [] ∷ w.events))
add_client_overtaken-crosses os k i ip other w laws known free h a b =
    let w₁ = prepared os w i ip in
    let w₂ = added (prepared os w₁ i other) i other in
    let short : length ip < 20 = omega (arith, laws.dotted ip (ground arith)) in
    let unmarked : eqb_ℤ (w.net.flags i) used ≡ false = ground arith in
    rw (locked_flag_in w free i h, ◌>>=◌)
      (rw unmarked (
        rw (network_config_ok os i ip w h a, ◌>>=◌)
          (rw (add_client_in os laws k known w₁ free i other h b, ◌>>◌, ◌>>=◌)
            (rw (register_in w₂ free i ip h short) (ground arith)))))
