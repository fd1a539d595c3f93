-- ===== src/Commands/Timing/Bounds.antt =====
-- The range of `getRandValue`.
use auto_test_tools.Base.{
  ℕ, zero, suc, ◌+◌, ◌-◌, ◌*◌, ◌/◌, ◌^◌, ◌≤◌, ◌<◌, ◌≡◌, sym, ap, ◌∙◌, arith, ltb, true, false, some,
  Bool-cases, inl, inr,
}
use native.Mathlib.Nat
use auto_test_tools.Commands.Timing.{excess_bits, round_to, to_float, scaled, get_rand_value}
use auto_test_tools.World.Monad.{Returns}
use auto_test_tools.World.State.{World, Os}
use auto_test_tools.Base.Int.{pos, pos_part}

excess_bits_le : (fuel n b : ℕ) → n < 16777216 * 2 ^ b → excess_bits fuel n ≤ b
unfolding excess_bits
excess_bits_le zero n b h = omega arith
excess_bits_le (suc fuel) n zero h = ground arith
excess_bits_le (suc fuel) n (suc b) h =
    let half : n / 2 < 16777216 * 2 ^ b = omega arith in
    ground (arith, excess_bits_le fuel (n / 2) b half)

round_to_le : (unit n c : ℕ) → 0 < unit → n ≤ c * unit → round_to unit n ≤ c * unit
unfolding round_to
round_to_le unit n c h l = elim (Bool-cases (ltb (n / unit) c)) [
  | inl below ↦ ground (arith, Nat.mul-le-mul_right unit (lt_below below))
  | inr above ↦ ground (arith, Nat.mul-le-mul_right unit (le_above above), Nat.div-add-mod' n unit)
]
  where
    lt_below : ltb (n / unit) c ≡ true → n / unit + 1 ≤ c
    lt_below below = ground arith

    le_above : ltb (n / unit) c ≡ false → c ≤ n / unit
    le_above above = ground arith

pow_split : (j k : ℕ) → 2 ^ (j + k) ≡ 2 ^ j * 2 ^ k
pow_split zero k = let sum : 0 + k ≡ k = omega arith in rw sum (omega arith)
pow_split (suc j) k =
    let sum : suc j + k ≡ suc (j + k) = omega arith in
    rw sum (
      Nat.pow-succ' 2 (j + k)
      ∙ ap (λ x. 2 * x) (pow_split j k)
      ∙ sym (Nat.mul_assoc 2 (2 ^ j) (2 ^ k))
      ∙ ap (λ x. x * 2 ^ k) (sym (Nat.pow-succ' 2 j)))

scale_split : (m b k : ℕ) → k ≤ b → m * 2 ^ b ≡ m * 2 ^ (b - k) * 2 ^ k
scale_split m b k h =
    let sum : b ≡ b - k + k = omega arith in
    ap (λ x. m * 2 ^ x) sum
    ∙ ap (λ x. m * x) (pow_split (b - k) k)
    ∙ sym (Nat.mul_assoc m (2 ^ (b - k)) (2 ^ k))

-- Rounding does not pass a number that is a `float` itself.
to_float_le : (n m b : ℕ) → m < 16777216 → n ≤ m * 2 ^ b → to_float n ≤ m * 2 ^ b
unfolding to_float
to_float_le n m b f h =
    let k = excess_bits 64 n in
    let unit : 0 < 2 ^ b = omega (arith, Nat.one-le-pow b 2 (omega arith)) in
    let below : n < 16777216 * 2 ^ b = omega (arith, Nat.mul-lt-mul_of_pos_right f unit) in
    let parts = scale_split m b k (excess_bits_le 64 n b below) in
    rw parts (
      round_to_le (2 ^ k) n (m * 2 ^ (b - k)) (omega (arith, Nat.one-le-pow k 2 (omega arith)))
        (rw parts at h))

pub scaled_le :
    (m rand : ℕ) → m < 16777216 → rand < 2147483648 → (v : ℕ) × (scaled m rand ≡ some v) × (v ≤ m)
unfolding scaled
scaled_le m rand f h =
    let small : to_float m ≤ m * 2 ^ 0 = to_float_le m m 0 f (omega arith) in
    let part : to_float rand ≤ 1 * 2 ^ 31 = to_float_le rand 1 31 (omega arith) (omega arith) in
    let factor : to_float m ≤ m = omega (arith, small) in
    let product : to_float m * to_float rand ≤ m * 2 ^ 31 =
      Nat.mul-le-mul factor (omega (arith, part)) in
    let whole = to_float_le (to_float m * to_float rand) m 31 f product in
    let v = to_float (to_float m * to_float rand) / 2147483648 in
    let bound : v ≤ m = omega (arith, whole) in (v, ground (arith, bound), bound)

-- For a range that is not empty and a largest value below 2 ^ 24, `getRandValue` is defined, and its
-- result lies between the least value and the sum of the two, not the greater of the two; it asks for
-- one random number, which is an `int32_t`, and changes nothing else.
pub get_rand_value-bounds :
    (os : Os) (w : World) (lo hi : ℕ)
    → lo ≤ hi
    → 0 < hi
    → hi < 16777216
    → os.rand w.calls < 2147483648
    → Returns (get_rand_value os (pos lo) (pos hi) w) (λ r w'.
      (lo ≤ pos_part r) × (pos_part r ≤ lo + hi) × (w' ≡ record w { calls = w.calls + 1 }))
unfolding get_rand_value
get_rand_value-bounds os w lo hi l p f h =
    let (v, e, bound) = scaled_le hi (os.rand w.calls) f h in ground (arith, e, bound)
