-- ===== src/CString/Number/Length.antt =====
-- How many bytes `%d` prints.
use auto_test_tools.Base.{
  ℕ, zero, suc, ◌+◌, ◌*◌, ◌/◌, ◌%◌, ◌≤◌, ◌<◌, ◌≡◌, true, [], ◌∷◌, length, ltb, arith, Bool-cases,
  inl, inr,
}
use auto_test_tools.Base.Int.{pos}
use auto_test_tools.CString.Compare.{Bytes}
use auto_test_tools.CString.Number.{decimal_on, decimal, decimal_ℤ}

-- A power of ten.
abbrev ten_to : ℕ → ℕ
ten_to zero = 1
ten_to (suc k) = 10 * ten_to k

length-decimal_on :
    (f n k : ℕ) (acc : Bytes)
    → n < ten_to (suc k)
    → length (decimal_on f n acc) ≤ suc k + length acc
unfolding decimal_on
length-decimal_on zero n k acc h = omega arith
length-decimal_on (suc f) n zero acc h =
    let small : ltb n 10 ≡ true = ground arith in rw small (omega arith)
length-decimal_on (suc f) n (suc k) acc h = elim (Bool-cases (ltb n 10)) [
  | inl small ↦ rw small (omega arith)
  | inr big ↦
      rw big (omega (arith, length-decimal_on f (n / 10) k ((n % 10 + b'0') ∷ acc) (omega arith)))
]

-- The largest `int` has ten digits.
length-decimal_le : (n : ℕ) → n < 10000000000 → length (decimal n) ≤ 10
unfolding decimal
length-decimal_le n h = omega (arith, length-decimal_on (suc n) n 9 [] (omega arith))

pub length-digit_le : (n : ℕ) → n < 10 → length (decimal n) ≤ 1
unfolding decimal
length-digit_le n h = omega (arith, length-decimal_on (suc n) n 0 [] (omega arith))

pub length-decimal_ℤ_le : (n : ℕ) → n < 10000000000 → length (decimal_ℤ (pos n)) ≤ 10
unfolding decimal_ℤ
length-decimal_ℤ_le n h = length-decimal_le n h
