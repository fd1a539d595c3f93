-- ===== src/Network/Tables.antt =====
-- What the accessors of the tables do for an index, inside the tables and outside.
use auto_test_tools.Base.{
  ℕ, ◌≡◌, ◌⊎◌, ◌<◌, refl, true, false, Option, none, some, arith, length, if◌then◌else◌,
}
use auto_test_tools.Base.Int.{ℤ, pos, negsuc, eqb_ℤ}
use auto_test_tools.CString.Compare.{Bytes}
use auto_test_tools.Network.{
  used, unused, error, out_of_range, get_client_flag, set_client_flag, set_client_ip_addr,
}
use auto_test_tools.World.Array.{update}
use auto_test_tools.World.State.{World, Net}

-- The clients as the commands see them: which numbers are registered, and with which address.
abbrev pub registered : Net → ℕ → Option Bytes
registered n i = if eqb_ℤ (n.flags i) used then some (n.ip_addrs i) else none

-- A flag is `USED` or `UNUSED`.
abbrev pub IsFlag : ℤ → Type 0
IsFlag f = (f ≡ used) ⊎ (f ≡ unused)

module _ (i : ℕ) (h : i < 10) (w : World) where
  pub get_client_flag_in : get_client_flag (pos i) w ≡ some (w.net.flags i, w)
  unfolding get_client_flag
  get_client_flag_in = ground arith

  pub set_client_flag_in :
      (f : ℤ)
      → set_client_flag (pos i) f w
        ≡ some (tt, record w { net = record w.net { flags = update w.net.flags i f } })
  unfolding set_client_flag
  set_client_flag_in f = ground arith

  pub set_client_ip_addr_in :
      (ip : Bytes)
      → length ip < 20
      → set_client_ip_addr (pos i) (some ip) w
        ≡ some (tt, record w { net = record w.net { ip_addrs = update w.net.ip_addrs i ip } })
  unfolding set_client_ip_addr
  set_client_ip_addr_in ip l = ground arith

-- Outside the tables a flag reads as `ERROR`, which is `UNUSED`.
pub get_client_flag_out :
    (c : ℤ) (w : World) → out_of_range c ≡ true → get_client_flag c w ≡ some (error, w)
unfolding get_client_flag
get_client_flag_out c w h = rw (h, get_client_flag)

-- A number that passes the test of the accessors is an index of the tables.
pub in_range_index : (c : ℤ) → out_of_range c ≡ false → (i : ℕ) × (c ≡ pos i) × (i < 10)
in_range_index (pos i) h = (i, refl, ground arith)
in_range_index (negsuc i) h = ground arith
