-- ===== src/Network/Stdin.antt =====
-- core/src/at_network.c: `clear_stdin_buff` and `get_cNumAndIpAddr`, which read the standard input.
pub mod Typed
use auto_test_tools.Base.{
  ℕ, ◌+◌, ◌-◌, ◌≡◌, ◌<◌, ◌^◌, refl, List, [], ◌∷◌, ◌++◌, Option, none, some, length, take, ◌==◌,
  if◌then◌else◌,
}
use auto_test_tools.Base.Int.{ℤ, pos}
use auto_test_tools.CString.Compare.{Bytes, codes}
use auto_test_tools.CString.Number.{scan_int}
use auto_test_tools.CString.Tokens.{c_string}
use auto_test_tools.Network.{Stat, at_ok, at_failed}
use auto_test_tools.Script.Load.{take_line}
use auto_test_tools.World.Monad.{M, ◌>>=◌, ◌>>◌, pure, defined, say}
use auto_test_tools.World.State.{text, number, max_ip_length}

-- What the two pointers hold at the return, `none` for a number that was not written, and what is left
-- of the input.
pub record Answer : Type 0 where
  pub stat : Stat
  pub client_num : Option ℤ
  pub ip_addr : Bytes
  pub stdin : Bytes

-- `clear_stdin_buff`; without a newline its loop never ends.
unfoldable pub clear_stdin_buff : Bytes → Option Bytes
clear_stdin_buff [] = none
clear_stdin_buff (c ∷ stdin) =
    let rest = clear_stdin_buff stdin in if c == b'\n' then some stdin else rest

-- `fgets(ipAddr, MAX_IP_LENTH, stdin)`: at the end of the input `ipAddr` stays.
unfoldable pub read_ip : Bytes → Bytes → Bytes × Bytes
read_ip [] old = (old, [])
read_ip (c ∷ stdin) old =
    let (line, rest) = take_line (max_ip_length - 1) (c ∷ stdin) in (c_string line, rest)

-- `get_cNumAndIpAddr` behind the number; `localhost` takes the place of an empty address.
unfoldable pub ask_ip : ℤ → Bytes → Bytes → M Answer
ask_ip c stdin old = do
  say "Num:%d\n" (number c ∷ [])
  say "please input the IP address\n" []
  next ← defined (clear_stdin_buff stdin)
  say "ipAddr:" []
  let (line, rest) = read_ip next old
  if length line == 0
      then (do
        say "wrong client IP address\n" []
        pure (record {
          stat = at_failed;
          client_num = some c;
          ip_addr = codes "localhost";
          stdin = rest;
        }))
      else do
        let ip = take (length line - 1) line
        say "ip:%s\n" (text ip ∷ [])
        pure (record { stat = at_ok; client_num = some c; ip_addr = ip; stdin = rest })

-- `get_cNumAndIpAddr`, with the input and what `ipAddr` holds before.
unfoldable pub get_c_num_and_ip_addr : Bytes → Bytes → M Answer
get_c_num_and_ip_addr stdin old = do
  say "please input the client num\n" []
  say "%d-%d is valid:" (number (pos 0) ∷ number (pos 9) ∷ [])
  found ← defined (scan_int stdin)
  elim found.0 [
    | none ↦ do
      say "wrong client num!\n" []
      rest ← defined (clear_stdin_buff found.1)
      pure (record { stat = at_failed; client_num = none; ip_addr = old; stdin = rest })
    | some c ↦ ask_ip c found.1 old
  ]
