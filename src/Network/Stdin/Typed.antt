-- ===== src/Network/Stdin/Typed.antt =====
-- core/src/at_network.c: what `get_cNumAndIpAddr` reads from a number and an address that are typed on
-- two lines.
use auto_test_tools.Base.{
  ℕ, zero, suc, ◌-◌, ◌≡◌, ◌<◌, ◌^◌, refl, ap, ◌∙◌, false, [], ◌∷◌, ◌++◌, some, arith, length, take,
  All, ◌==◌,
}
use auto_test_tools.Base.Int.{pos}
use auto_test_tools.CString.Compare.{Bytes}
use auto_test_tools.CString.Number.{decimal}
use auto_test_tools.CString.Number.Decimal.{scan_int-decimal}
use auto_test_tools.CString.Tokens.{c_string}
use auto_test_tools.Network.{at_ok}
use auto_test_tools.Network.Stdin.{clear_stdin_buff, read_ip, ask_ip, get_c_num_and_ip_addr}
use auto_test_tools.Script.Load.{take_line}
use auto_test_tools.World.Monad.{Returns, ◌>>=◌}
use auto_test_tools.World.State.{World}

-- A byte that can stand in an address: neither NUL nor a newline.
abbrev pub IsPlain : ℕ → Type 0
IsPlain c = ((c == 0) ≡ false) × ((c == b'\n') ≡ false)

-- A line that fits is read with its newline.
take_line-line :
    (room : ℕ) (ip rest : Bytes)
    → length ip < room
    → All IsPlain ip
    → take_line room (ip ++ b'\n' ∷ rest) ≡ (ip ++ b'\n' ∷ [], rest)
unfolding take_line
take_line-line zero ip rest h p = absurd (omega arith)
take_line-line (suc room) [] rest h p = refl
take_line-line (suc room) (c ∷ ip) rest h p =
    rw p.0.1 (rw (take_line-line room ip rest (omega arith) p.1) refl)

c_string-plain : (ip : Bytes) → All IsPlain ip → c_string (ip ++ b'\n' ∷ []) ≡ ip ++ b'\n' ∷ []
unfolding c_string
c_string-plain [] p = refl
c_string-plain (c ∷ ip) p = rw p.0.0 (ap (◌∷◌ c) (c_string-plain ip p.1))

length-line : (ip : Bytes) → length (ip ++ b'\n' ∷ []) ≡ suc (length ip)
length-line [] = refl
length-line (c ∷ ip) = ap suc (length-line ip)

line-filled : (ip : Bytes) → (length (ip ++ b'\n' ∷ []) == 0) ≡ false
line-filled ip = ground (arith, length-line ip)

take-length : (ip : Bytes) → take (length ip) (ip ++ b'\n' ∷ []) ≡ ip
take-length [] = refl
take-length (c ∷ ip) = ap (◌∷◌ c) (take-length ip)

take-line : (ip : Bytes) → take (length (ip ++ b'\n' ∷ []) - 1) (ip ++ b'\n' ∷ []) ≡ ip
take-line ip = ap (λ k. take k (ip ++ b'\n' ∷ [])) (omega (arith, length-line ip)) ∙ take-length ip

read_ip-line :
    (ip rest old : Bytes)
    → length ip < 19
    → All IsPlain ip
    → read_ip (ip ++ b'\n' ∷ rest) old ≡ (ip ++ b'\n' ∷ [], rest)
unfolding read_ip
read_ip-line [] rest old h p =
    rw (take_line-line 19 [] rest h p) (ap (λ s. (s, rest)) (c_string-plain [] p))
read_ip-line (c ∷ ip) rest old h p =
    rw (take_line-line 19 (c ∷ ip) rest h p) (ap (λ s. (s, rest)) (c_string-plain (c ∷ ip) p))

-- A client number and an address, each typed on a line of its own, are what `get_cNumAndIpAddr`
-- returns, with `AT_OK`; it reads these two lines and no more, and changes no state but the log. The
-- number is any that an `int` holds and that is not negative; the address has at most 18 bytes, none of
-- them NUL or a newline.
pub get_c_num_and_ip_addr-typed :
    (n : ℕ) (ip rest old : Bytes) (w : World)
    → n < 2 ^ 31
    → length ip < 19
    → All IsPlain ip
    → Returns (get_c_num_and_ip_addr (decimal n ++ (b'\n' ∷ (ip ++ b'\n' ∷ rest))) old w) (λ a w'.
      (a ≡ record { stat = at_ok; client_num = some (pos n); ip_addr = ip; stdin = rest })
      × (w' ≡ record w { events = w'.events }))
unfolding get_c_num_and_ip_addr ask_ip clear_stdin_buff
get_c_num_and_ip_addr-typed n ip rest old w small short plain =
    rw (scan_int-decimal n (b'\n' ∷ (ip ++ b'\n' ∷ rest)) small refl, ◌>>=◌)
      (rw (read_ip-line ip rest old short plain)
        (rw (line-filled ip) (rw (take-line ip) (refl, refl))))
