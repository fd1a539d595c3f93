-- ===== src/Commands/Timing.antt =====
-- core/src/at_cmdProc.c: `getRandValue` and `randomTime`.
pub mod Bounds
use auto_test_tools.Base.{
  ℕ, zero, suc, ◌+◌, ◌-◌, ◌*◌, ◌/◌, ◌%◌, ◌^◌, Bool, true, false, not, ◌&&◌, ◌||◌, List, [], ◌∷◌,
  Option, none, some, ltb, leb, ◌==◌, if◌then◌else◌,
}
use auto_test_tools.Base.Int.{ℤ, pos, negsuc, pos_part, ltb_ℤ, eqb_ℤ}
use auto_test_tools.Commands.Usage.{wrong_parameter}
use auto_test_tools.Network.{failed}
use auto_test_tools.Params.{param_num, param_number}
use auto_test_tools.World.Monad.{M, Void, ◌>>=◌, ◌>>◌, defined, skip, emit, ask, pure}
use auto_test_tools.World.State.{World, Os, slept}

-- The number of times that `n` must be halved to have 24 bits, the precision of a `float`.
unfoldable pub excess_bits : ℕ → ℕ → ℕ
excess_bits zero n = 0
excess_bits (suc fuel) n =
    let more = excess_bits fuel (n / 2) in if ltb n 16777216 then 0 else more + 1

-- The multiple of `unit` nearest to `n`, at a tie the even one.
unfoldable pub round_to : ℕ → ℕ → ℕ
round_to unit n =
    let up = (n / unit + 1) * unit in
    let down = n / unit * unit in
    if ltb unit (2 * (n % unit)) || (2 * (n % unit) == unit) && ((n / unit) % 2 == 1)
    then up
    else down

-- A natural number below 2 ^ 88 as a `float`, which is again a natural number.
unfoldable pub to_float : ℕ → ℕ
to_float n = round_to (2 ^ excess_bits 64 n) n

-- `(int32_t)((float) max_rand * rand() / (RAND_MAX + 1.0))`: the product is a `float`, the division by
-- 2 ^ 31 is exact, and a result past `int32_t` is undefined.
unfoldable pub scaled : ℕ → ℕ → Option ℕ
scaled max_rand rand =
    let value = to_float (to_float max_rand * to_float rand) / 2147483648 in
    if ltb value 2147483648 then some value else none

-- `getRandValue`
unfoldable pub get_rand_value : Os → ℤ → ℤ → M ℤ
get_rand_value os min_rand max_rand =
    if ltb_ℤ max_rand (pos 1) || ltb_ℤ min_rand (pos 0) || ltb_ℤ max_rand min_rand
    then pure failed
    else do
      rand ← ask os.rand
      part ← defined (scaled (pos_part max_rand) rand)
      defined (
          if ltb (pos_part min_rand + part) 2147483648
          then some (pos (pos_part min_rand + part))
          else none)

-- `randomTime`
unfoldable pub random_time : Os → ℕ → M Void
random_time os cmd_num = do
  n ← param_num
  if not (eqb_ℤ n (pos 2)) then wrong_parameter cmd_num else do
    min_time ← param_number 1
    max_time ← param_number 2
    if not (ltb_ℤ min_time max_time) then wrong_parameter cmd_num else do
      delay_time ← get_rand_value os min_time max_time
      if ltb_ℤ (pos 0) delay_time then emit (slept delay_time) else skip
