-- ===== src/Commands/Clients.antt =====
-- core/src/at_cmdProc.c: `addClient`, `delClient` and `changeClientIpAddr`.
pub mod Steps
pub mod Effects
pub mod Registry
pub mod Race
use auto_test_tools.Base.{ℕ, Bool, ◌||◌, List, [], ◌∷◌, Option, none, some, if◌then◌else◌}
use auto_test_tools.Base.Int.{ℤ, pos, ltb_ℤ, eqb_ℤ}
use auto_test_tools.CString.Compare.{Bytes}
use auto_test_tools.Commands.Usage.{wrong_parameter, print_example}
use auto_test_tools.Network.{
  used, unused, min_client, at_ok, at_failed, set_client_ip_addr, set_client_flag, get_client_flag,
  del_client_sock_addr, close_socket, network_config, change_client_addr,
}
use auto_test_tools.Params.{param_num, param_number, param_pointer}
use auto_test_tools.World.Monad.{M, Void, ◌>>=◌, ◌>>◌, say, lock, unlock}
use auto_test_tools.World.State.{Os, Arg, number}

abbrev pub rd_wr : ℤ
rd_wr = pos 2

-- `getClientFlag` under the lock.
unfoldable pub locked_flag : ℤ → M ℤ
locked_flag c = do lock; stat ← get_client_flag c; unlock; λ w. some (stat, w)

-- The end of `addClient`, under the lock.
unfoldable pub register : ℤ → Option Bytes → M Void
register c ip = do
  lock
  set_client_flag c used
  set_client_ip_addr c ip
  unlock
  say "add client OK!\n" []

-- `addClient` with its two parameters read.
unfoldable pub add_client_at : Os → ℕ → ℤ → Option Bytes → M Void
add_client_at os cmd_num c ip = do
  stat ← locked_flag c
  if eqb_ℤ stat used then say "client num exist! add failed\n" [] else do
    result ← network_config os c ip
    elim result [ at_failed ↦ print_example cmd_num | at_ok ↦ register c ip ]

unfoldable pub add_client : Os → ℕ → M Void
unfolding add_client_at
add_client os cmd_num = do
  n ← param_num
  if ltb_ℤ n (pos 2)
      then wrong_parameter cmd_num
      else do c ← param_number 1; ip ← param_pointer 2; add_client_at os cmd_num c ip

-- The end of `delClient`, under the lock; `syslogProcess` has the same lines.
unfoldable pub unregister : ℤ → M Void
unregister c = do
  lock
  set_client_flag c unused
  set_client_ip_addr c (some [])
  close_socket c rd_wr
  del_client_sock_addr c
  unlock

-- `delClient` with its parameter and `gParamNum` read. Its own bound lets 10 pass.
unfoldable pub del_client_at : ℕ → ℤ → ℤ → M Void
del_client_at cmd_num n c =
    if ltb_ℤ n (pos 1) || ltb_ℤ (pos 10) c || ltb_ℤ c min_client
    then wrong_parameter cmd_num
    else do
      stat ← locked_flag c
      if eqb_ℤ stat unused then say "client %d not configured!\n" (number c ∷ []) else unregister c

-- The parameter is read before `gParamNum` is looked at.
unfoldable pub del_client : ℕ → M Void
unfolding del_client_at
del_client cmd_num = do c ← param_number 1; n ← param_num; del_client_at cmd_num n c

unfoldable pub change_client_at : Os → ℤ → Option Bytes → M Void
change_client_at os c ip = do
  stat ← locked_flag c
  if eqb_ℤ stat unused then say "client num no exist! add client!\n" [] else do
    result ← change_client_addr os c ip
    elim result [
      | at_failed ↦ say "client edit failed!\n" []
      | at_ok ↦ do lock; set_client_ip_addr c ip; unlock; say "change client Ip address OK!\n" []
    ]

-- `changeClientIpAddr`
unfoldable pub change_client_ip_addr : Os → ℕ → M Void
unfolding change_client_at
change_client_ip_addr os cmd_num = do
  n ← param_num
  if ltb_ℤ n (pos 2)
      then wrong_parameter cmd_num
      else do c ← param_number 1; ip ← param_pointer 2; change_client_at os c ip
