-- ===== src/Network/Config.antt =====
-- When `network_config` prepares a client, and what it leaves alone when it does not.
use auto_test_tools.Base.{
  ℕ, ◌+◌, ◌≡◌, ◌<◌, Bool, true, false, ◌&&◌, not, Option, none, some, arith, length, Bool-cases,
  inl, inr,
}
use auto_test_tools.Base.Int.{ℤ, pos, negsuc, pos_part, eqb_ℤ, ltb_ℤ}
use auto_test_tools.CString.Compare.{Bytes}
use auto_test_tools.Network.{
  used, failed, out_of_range, at_ok, at_failed, network_config, af_inet, server_port,
}
use auto_test_tools.Network.Tables.{in_range_index}
use auto_test_tools.World.Array.{update}
use auto_test_tools.World.Monad.{Returns}
use auto_test_tools.World.State.{World, SockAddr, Os}

-- The address of the phone that `network_config` stores.
abbrev pub phone_addr : Os → Bytes → SockAddr
phone_addr os ip = record { family = af_inet; port = server_port; address = (os.inet_aton ip).1 }

-- The number is free, and the address, its conversion and the socket are good.
abbrev pub admits : Os → World → ℕ → Bytes → Bool
admits os w i ip =
    not (eqb_ℤ (os.inet_pton ip) (pos 0))
    && not (eqb_ℤ (w.net.flags i) used)
    && not (ltb_ℤ (os.inet_aton ip).0 (pos 0))
    && not (eqb_ℤ (os.socket w.calls) failed)

-- The state behind a `network_config` that succeeds.
abbrev pub prepared : Os → World → ℕ → Bytes → World
prepared os w i ip = record w {
  net = record w.net {
    sockets = update w.net.sockets i (os.socket w.calls);
    sock_addrs = update w.net.sock_addrs i (phone_addr os ip);
  };
  calls = w.calls + 1;
}

-- What a failing `network_config` may change: the socket's number of a client that is not
-- registered, the count of calls and the log.
abbrev pub Spares : World → World → Type 0
Spares w w' =
    (w' ≡ record w {
      net = record w.net { sockets = w'.net.sockets };
      calls = w'.calls;
      events = w'.events;
    })
    × ((j : ℕ) → w.net.flags j ≡ used → w'.net.sockets j ≡ w.net.sockets j)

module _ (os : Os) (i : ℕ) (ip : Bytes) (w : World) where
  pub network_config_ok :
      i < 10
      → admits os w i ip ≡ true
      → network_config os (pos i) (some ip) w ≡ some (at_ok, prepared os w i ip)
  unfolding network_config
  network_config_ok h a = ground arith

  pub network_config_refused :
      i < 10
      → admits os w i ip ≡ false
      → Returns (network_config os (pos i) (some ip) w) (λ r w'. (r ≡ at_failed) × Spares w w')
  unfolding network_config
  network_config_refused h a = ground arith

pub network_config_range :
    (os : Os) (c : ℤ) (ip : Bytes) (w : World)
    → out_of_range c ≡ true
    → Returns (network_config os c (some ip) w) (λ r w'. (r ≡ at_failed) × Spares w w')
unfolding network_config
network_config_range os c ip w h = ground arith

pub network_config_null :
    (os : Os) (c : ℤ) (w : World)
    → Returns (network_config os c none w) (λ r w'. (r ≡ at_failed) × Spares w w')
unfolding network_config
network_config_null os c w = ground arith

-- `network_config` succeeds: the number is in range, and the client is admitted.
abbrev pub accepts : Os → World → ℤ → Option Bytes → Bool
accepts os w c none = false
accepts os w c (some ip) = not (out_of_range c) && admits os w (pos_part c) ip

pub network_config_fails :
    (os : Os) (c : ℤ) (ip : Option Bytes) (w : World)
    → accepts os w c ip ≡ false
    → Returns (network_config os c ip w) (λ r w'. (r ≡ at_failed) × Spares w w')
network_config_fails os c none w a = network_config_null os c w
network_config_fails os c (some ip) w a = elim (Bool-cases (out_of_range c)) [
  | inl out ↦ network_config_range os c ip w out
  | inr inside ↦
      let (i, e, h) = in_range_index c inside in
      let a' : accepts os w (pos i) (some ip) ≡ false = rw e at a in
      rw e (network_config_refused os i ip w h (ground arith))
]

-- A client that is registered cannot be configured: no table changes and no socket is asked for.
pub network_config-used :
    (os : Os) (c : ℤ) (ip : Option Bytes) (w : World)
    → w.net.flags (pos_part c) ≡ used
    → Returns
        (network_config os c ip w)
        (λ r w'. (r ≡ at_failed) × (w' ≡ record w { events = w'.events }))
unfolding network_config
network_config-used os c none w h = ground arith
network_config-used os (pos i) (some ip) w h = ground arith
network_config-used os (negsuc i) (some ip) w h = ground arith

-- What the manual of `inet_pton` says of the family `AF_INET`: an address that it takes is in
-- dotted-decimal format, of at most 15 characters.
pub record PtonLaws (os : Os) : Type 0 where
  pub dotted : (s : Bytes) → eqb_ℤ (os.inet_pton s) (pos 0) ≡ false → length s < 16
