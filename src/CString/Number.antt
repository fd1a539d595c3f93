-- ===== src/CString/Number.antt =====
-- `atoi`, and the decimal text that `%d` prints.
pub mod Decimal
pub mod Length
use auto_test_tools.Base.{
  ℕ, zero, suc, ◌+◌, ◌-◌, ◌*◌, ◌/◌, ◌%◌, ◌≡◌, refl, Bool, true, false, ◌&&◌, ◌||◌, [], ◌∷◌, Option,
  none, some, leb, ltb, ◌==◌, if◌then◌else◌, ◌^◌,
}
use auto_test_tools.Base.Int.{ℤ, pos, negsuc}
use auto_test_tools.CString.Compare.{Bytes}

abbrev pub is_digit : ℕ → Bool
is_digit c = leb b'0' c && leb c b'9'

-- `isspace`
abbrev pub is_space : ℕ → Bool
is_space c = c == b' ' || (leb 9 c && leb c 13)

unfoldable pub digits_value : ℕ → Bytes → ℕ
digits_value acc [] = acc
digits_value acc (c ∷ cs) =
    let more = digits_value (10 * acc + (c - b'0')) cs in if is_digit c then more else acc

-- A value outside `int` is undefined.
unfoldable pub as_int : Bool → ℕ → Option ℤ
as_int true zero = some (pos 0)
as_int true (suc n) = if ltb n (2 ^ 31) then some (negsuc n) else none
as_int false n = if ltb n (2 ^ 31) then some (pos n) else none

-- An optional sign, then the digits.
unfoldable pub signed_value : Bytes → Option ℤ
signed_value [] = some (pos 0)
signed_value (c ∷ cs) =
    if c == b'-'
    then as_int true (digits_value 0 cs)
    else if c == b'+'
    then as_int false (digits_value 0 cs)
    else as_int false (digits_value 0 (c ∷ cs))

unfoldable pub atoi : Bytes → Option ℤ
unfolding signed_value as_int digits_value
atoi [] = some (pos 0)
atoi (c ∷ cs) = if is_space c then atoi cs else signed_value (c ∷ cs)

abbrev pub begins_with_digit : Bytes → Bool
begins_with_digit [] = false
begins_with_digit (c ∷ cs) = is_digit c

unfoldable pub after_digits : Bytes → Bytes
after_digits [] = []
after_digits (c ∷ cs) = let rest = after_digits cs in if is_digit c then rest else c ∷ cs

-- A number that `scanf` found, and what it leaves.
scanned : Option ℤ → Bytes → Option (Option ℤ × Bytes)
unfolding after_digits
scanned none digits = none
scanned (some z) digits = some (some z, after_digits digits)

-- `scanf("%d", …)` on the input: the number, if it begins with one, and what is left. A sign without a
-- digit stays, since no caller can tell. A value outside `int` is undefined.
unfoldable pub scan_int : Bytes → Option (Option ℤ × Bytes)
unfolding scanned
scan_int [] = some (none, [])
scan_int (c ∷ cs) =
    if is_space c
    then scan_int cs
    else if is_digit c
    then scanned (as_int false (digits_value 0 (c ∷ cs))) (c ∷ cs)
    else if c == b'-' && begins_with_digit cs
    then scanned (as_int true (digits_value 0 cs)) cs
    else if c == b'+' && begins_with_digit cs
    then scanned (as_int false (digits_value 0 cs)) cs
    else some (none, c ∷ cs)

-- The decimal digits of `n`, with fuel for their number.
unfoldable pub decimal_on : ℕ → ℕ → Bytes → Bytes
decimal_on zero n acc = acc
decimal_on (suc f) n acc =
    let acc' = (n % 10 + b'0') ∷ acc in
    let more = decimal_on f (n / 10) acc' in if ltb n 10 then acc' else more

-- `%d` of a number that is not negative; a number has no more digits than its value and one.
unfoldable pub decimal : ℕ → Bytes
unfolding decimal_on
decimal n = decimal_on (suc n) n []

atoi-cases :
    (atoi (b'1' ∷ b'0' ∷ []) ≡ some (pos 10))
    × (atoi (b' ' ∷ b'-' ∷ b'7' ∷ b'x' ∷ []) ≡ some (negsuc 6))
    × (atoi (b'p' ∷ []) ≡ some (pos 0))
    × (decimal 5001 ≡ b'5' ∷ b'0' ∷ b'0' ∷ b'1' ∷ [])
unfolding atoi decimal
atoi-cases = (refl, refl, refl, refl)

-- `%d`
unfoldable pub decimal_ℤ : ℤ → Bytes
unfolding decimal
decimal_ℤ (pos n) = decimal n
decimal_ℤ (negsuc n) = b'-' ∷ decimal (suc n)
