-- ===== src/Commands/Dispatch/Random.antt =====
-- core/src/at_cmdProc.c: `randomKey` over the random numbers that it draws.
use auto_test_tools.Base.{
  ℕ, zero, suc, ◌+◌, ◌≡◌, ◌<◌, refl, ◌∙◌, not, Bool, true, false, ◌++◌, none, some, arith, length,
  ltb,
}
use auto_test_tools.Base.Int.{pos, eqb_ℤ}
use auto_test_tools.CString.Compare.{Bytes, codes}
use auto_test_tools.Commands.Dispatch.{roll_key, random_key}
use auto_test_tools.Commands.Timing.{scaled, get_rand_value}
use auto_test_tools.Commands.Timing.Bounds.{scaled_le}
use auto_test_tools.KeyMap.{key_lib, max_key_num}
use auto_test_tools.Network.{failed}
use auto_test_tools.Params.{param}
use auto_test_tools.World.Monad.{M, Void, ◌>>=◌, ◌>>◌, emit}
use auto_test_tools.World.State.{World, Os, paused}

-- `getRandValue(0, 255)` for the random number that is had after so many calls.
unfoldable pub drawn : Os → ℕ → ℕ
drawn os n = elim (scaled 255 (os.rand n)) [ none ↦ 255 | some value ↦ value ]

-- The draw is of a key of the phone.
abbrev pub is_key : ℕ → Bool
is_key i = ltb 0 (length (key_lib i).key_code)

-- The first key is the draw number `n` behind the draw at `k`.
abbrev pub FirstKey : Os → ℕ → ℕ → Type 0
FirstKey os k n =
    ((j : ℕ) → j < n → (is_key (drawn os (k + j)) ≡ false) × (drawn os (k + j) < max_key_num))
    × (is_key (drawn os (k + n)) ≡ true)
    × (drawn os (k + n) < max_key_num)

-- `rand` gives an `int32_t` that is not negative.
pub record RandLaws (os : Os) : Type 0 where
  pub range : (n : ℕ) → os.rand n < 2147483648

module _ (os : Os) (laws : RandLaws os) where
  get_rand_value-drawn :
      (w : World)
      → get_rand_value os (pos 0) (pos 255) w
        ≡ some (pos (drawn os w.calls), record w { calls = w.calls + 1 })
  unfolding get_rand_value drawn
  get_rand_value-drawn w =
      let (v, e, bound) = scaled_le 255 (os.rand w.calls) (omega arith) (laws.range w.calls) in
      ground (arith, e)

  FirstKey-next : (k n : ℕ) → FirstKey os k (suc n) → FirstKey os (k + 1) n
  FirstKey-next k n (misses, hit, inside) =
      let same : (j : ℕ) → k + suc j ≡ k + 1 + j = λ j. omega arith in
      (
        λ j l. let miss = misses (suc j) (omega arith) in rw (same j) at miss,
        rw (same n) at hit,
        rw (same n) at inside,
      )

  roll_key-hit :
      (fuel i : ℕ) (w : World)
      → is_key i ≡ true
      → i < max_key_num
      → roll_key os (suc fuel) i w ≡ some (i, w)
  unfolding roll_key
  roll_key-hit fuel i w hit inside = ground (arith, hit)

  roll_key-miss :
      (fuel i : ℕ) (w : World)
      → is_key i ≡ false
      → i < max_key_num
      → roll_key os (suc fuel) i w
        ≡ roll_key os fuel (drawn os w.calls) (record w { calls = w.calls + 1 })
  unfolding roll_key
  roll_key-miss fuel i w miss inside =
      let more : (not (ltb i max_key_num)) ≡ false = ground arith in
      rw (more, roll_key) (rw miss (rw (get_rand_value-drawn w, ◌>>=◌) refl))

  -- The rounds of the search end at the first draw of a key.
  roll_key-drawn :
      (n fuel k : ℕ) (w : World)
      → n < fuel
      → FirstKey os k n
      → roll_key os fuel (drawn os k) (record w { calls = k + 1 })
        ≡ some (drawn os (k + n), record w { calls = k + n + 1 })
  roll_key-drawn n zero k w l f = absurd (omega arith)
  roll_key-drawn zero (suc fuel) k w l (misses, hit, inside) =
      let same : k + 0 ≡ k = omega arith in
      rw same (
        roll_key-hit fuel (drawn os k) (record w { calls = k + 1 }) (rw same at hit)
          (rw same at inside))
  roll_key-drawn (suc n) (suc fuel) k w l f =
      let same : k + suc n ≡ k + 1 + n = omega arith in
      let start : k + 0 ≡ k = omega arith in
      let miss = f.0 0 (omega arith) in
      let miss₀ = rw start at miss in
      rw same (
        roll_key-miss fuel (drawn os k) (record w { calls = k + 1 }) miss₀.0 miss₀.1
        ∙ roll_key-drawn n fuel (k + 1) w (omega arith) (FirstKey-next k n f))

-- The line that `randomKey` runs for a key.
abbrev pub press_line : Bytes → ℕ → Bytes
press_line client i = codes "ioevt " ++ client ++ codes " " ++ (key_lib i).key_name ++ codes " p"

module _ (os : Os) (laws : RandLaws os) (exec : Bytes → M Void) where
  param-later :
      (i c : ℕ) {x : Bytes} (w : World)
      → param i w ≡ some (x, w)
      → param i (record w { calls = c }) ≡ some (x, record w { calls = c })
  unfolding param
  param-later i c w e = ground (arith, e)

  -- `randomKey` with a client runs one command, the press of the first key that it draws; it is defined
  -- if that draw comes within the fuel and none before is 255, the index behind the table.
  pub random_key-presses :
      (n fuel k : ℕ) (client : Bytes) (w : World)
      → eqb_ℤ w.params.param_num (pos 1) ≡ true
      → param 1 w ≡ some (client, w)
      → FirstKey os w.calls n
      → n < fuel
      → length (press_line client (drawn os (w.calls + n))) < 256
      → random_key os exec fuel k w
        ≡ (exec (press_line client (drawn os (w.calls + n))) >> emit (paused 50000))
            (record w { calls = w.calls + n + 1 })
  unfolding random_key
  random_key-presses n fuel k client w one p first enough short =
      let fits : ltb (length (press_line client (drawn os (w.calls + n)))) 256 ≡ true =
        ground arith in
      let valid : eqb_ℤ (pos (drawn os w.calls)) failed ≡ false = ground arith in
      rw one (
        rw (get_rand_value-drawn os laws w, ◌>>=◌)
          (rw valid (
            rw (roll_key-drawn os laws n fuel w.calls w enough first, ◌>>=◌)
              (rw (param-later 1 (w.calls + n + 1) w p, ◌>>=◌) (rw fits refl)))))
