-- ===== src/Network.antt =====
-- core/src/at_network.c: the tables of clients, which the commands and the two threads share.
pub mod Tables
pub mod Config
pub mod Stdin
use auto_test_tools.Base.{
  ℕ, ◌||◌, Bool, true, false, List, [], ◌∷◌, Option, none, some, ltb, if◌then◌else◌, length,
}
use auto_test_tools.Base.Int.{ℤ, pos, negsuc, ltb_ℤ, eqb_ℤ}
use auto_test_tools.CString.Compare.{Bytes}
use auto_test_tools.World.Array.{fetch, store}
use auto_test_tools.World.Monad.{
  M, Void, ◌>>=◌, ◌>>◌, pure, defined, gets, skip, emit, say, ask, set_net,
}
use auto_test_tools.World.State.{
  World, Net, SockAddr, Os, Event, shutdown_fd, closed, max_client, max_ip_length,
}

-- The values of `USED`, `UNUSED`, `ERROR` and `FAILED`.
abbrev pub used : ℤ
used = pos 1

abbrev pub unused : ℤ
unused = pos 0

abbrev pub error : ℤ
error = pos 0

abbrev pub failed : ℤ
failed = negsuc 0

abbrev pub min_client : ℤ
min_client = pos 0

-- `atstat_e`, without `AT_ERROR`, which no function returns.
pub data Stat : Type 0 where
  at_ok at_failed : Stat

-- `clientNum < MIN_CLIENT || clientNum > MAX_CLIENT-1`
abbrev pub out_of_range : ℤ → Bool
out_of_range c = ltb_ℤ c min_client || ltb_ℤ (pos 9) c

-- `setSocket`
unfoldable pub set_socket : ℤ → ℤ → M Void
set_socket c socket w =
    if out_of_range c || eqb_ℤ socket (pos 0)
    then skip w
    else (do
      flag ← defined (fetch max_client w.net.flags c)
      if eqb_ℤ flag used then skip else do
        sockets ← defined (store max_client w.net.sockets c socket)
        set_net (record w.net { sockets = sockets }))
        w

-- `getSocket`
unfoldable pub get_socket : ℤ → M ℤ
get_socket c w =
    if out_of_range c
    then pure error w
    else (do
      flag ← defined (fetch max_client w.net.flags c)
      if eqb_ℤ flag unused then pure error else defined (fetch max_client w.net.sockets c))
        w

-- `setClientIpAddr`; `none` for a NULL address. A row has room for 19 bytes and the NUL.
unfoldable pub set_client_ip_addr : ℤ → Option Bytes → M Void
set_client_ip_addr c none w = skip w
set_client_ip_addr c (some ip) w =
    if out_of_range c
    then skip w
    else if ltb (length ip) max_ip_length
    then (do
      rows ← defined (store max_client w.net.ip_addrs c ip)
      set_net (record w.net { ip_addrs = rows }))
        w
    else none

-- `getClientIpAddr`; `none` inside for the NULL that stands for an error.
unfoldable pub get_client_ip_addr : ℤ → M (Option Bytes)
get_client_ip_addr c w =
    if out_of_range c
    then pure none w
    else (do row ← defined (fetch max_client w.net.ip_addrs c); pure (some row)) w

-- `setClientFlag`
unfoldable pub set_client_flag : ℤ → ℤ → M Void
set_client_flag c flag w =
    if out_of_range c
    then skip w
    else (do
      flags ← defined (store max_client w.net.flags c flag)
      set_net (record w.net { flags = flags }))
        w

-- `getClientFlag`
unfoldable pub get_client_flag : ℤ → M ℤ
get_client_flag c w =
    if out_of_range c then pure error w else defined (fetch max_client w.net.flags c) w

-- `setClientSockAddr`; every caller passes the address of a local, which is not NULL.
unfoldable pub set_client_sock_addr : ℤ → SockAddr → M Void
set_client_sock_addr c addr w =
    if out_of_range c
    then skip w
    else (do
      addrs ← defined (store max_client w.net.sock_addrs c addr)
      set_net (record w.net { sock_addrs = addrs }))
        w

-- `getClientSockAddr`; out of range it returns no value, which its callers then read.
unfoldable pub get_client_sock_addr : ℤ → M SockAddr
get_client_sock_addr c w =
    if out_of_range c then none else defined (fetch max_client w.net.sock_addrs c) w

abbrev pub zero_addr : SockAddr
zero_addr = record { family = 0; port = 0; address = 0 }

-- `delClientSockAddr`
unfoldable pub del_client_sock_addr : ℤ → M Void
del_client_sock_addr c w =
    if out_of_range c
    then skip w
    else (do
      addrs ← defined (store max_client w.net.sock_addrs c zero_addr)
      set_net (record w.net { sock_addrs = addrs }))
        w

-- `closeSocket`, which does not check its index and leaves the number in the table.
unfoldable pub close_socket : ℤ → ℤ → M Void
close_socket c how = do
  fd ← gets (λ w. w.net.sockets) >>= λ sockets. defined (fetch max_client sockets c)
  if eqb_ℤ fd error
      then skip
      else do emit (shutdown_fd fd how); emit (closed fd); say "client deleted!\n" []

-- `isValidIp`: only a result of 0 is an error.
unfoldable pub is_valid_ip : Os → Bytes → M Bool
is_valid_ip os str =
    if eqb_ℤ (os.inet_pton str) (pos 0)
    then (do say "Incorrect network address! i.e. ip=192.168.10.1\n\n" []; pure false)
    else pure true

abbrev pub af_inet : ℕ
af_inet = 2

abbrev pub server_port : ℕ
server_port = 5000

-- `gSockets[cNum] = socket(…)` and what follows it.
open_client_socket : Os → ℤ → SockAddr → M Stat
unfolding set_client_sock_addr
open_client_socket os c addr = do
  fd ← ask os.socket
  table ← gets (λ w. w.net)
  sockets ← defined (store max_client table.sockets c fd)
  set_net (record table { sockets = sockets })
  if eqb_ℤ fd failed
      then (do say "create socket failed!\n" []; pure at_failed)
      else do set_client_sock_addr c addr; pure at_ok

-- `network_config` once the address is known to be valid.
config_valid : Os → ℤ → Bytes → M Stat
unfolding open_client_socket
config_valid os c ip w =
    (do
      flag ← defined (fetch max_client w.net.flags c)
      if eqb_ℤ flag used
          then (do say "client using\n" []; pure at_failed)
          else if ltb_ℤ (os.inet_aton ip).0 (pos 0)
          then pure at_failed
          else open_client_socket os c
              (record { family = af_inet; port = server_port; address = (os.inet_aton ip).1 }))
      w

-- `network_config`
unfoldable pub network_config : Os → ℤ → Option Bytes → M Stat
unfolding config_valid is_valid_ip
network_config os c none = do say "invalid parameter!\n" []; pure at_failed
network_config os c (some ip) =
    if out_of_range c
    then (do say "invalid parameter!\n" []; pure at_failed)
    else do valid ← is_valid_ip os ip; if valid then config_valid os c ip else pure at_failed

-- `changeClientAddr`
unfoldable pub change_client_addr : Os → ℤ → Option Bytes → M Stat
unfolding network_config
change_client_addr os c ip = do
  stat ← network_config os c ip
  elim stat [ at_failed ↦ pure at_failed | at_ok ↦ pure at_ok ]
