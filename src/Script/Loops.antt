-- ===== src/Script/Loops.antt =====
-- What a loop of a script runs.
use mathlib.Core.Path.{fun_ext}
use auto_test_tools.Base.{
  ℕ, zero, suc, ◌+◌, ◌-◌, ◌≡◌, ◌<◌, refl, ◌∙◌, true, false, List, [], ◌∷◌, Option, some, arith,
  length, leb, ◌==◌, All, Option-cases, inl, inr,
}
use auto_test_tools.Base.Int.{ℤ, pos}
use auto_test_tools.CString.Compare.{Bytes, codes}
use auto_test_tools.Script.Run.{
  row_at, begins_with, find_end, exec_rows, rounds, run_loop, run_rows, loop_count, count_round,
}
use auto_test_tools.World.Monad.{M, Void, ◌>>=◌, ◌>>◌, skip, pure}
use auto_test_tools.World.State.{World}

-- The rows from `i` on begin with these.
abbrev pub Holds : List Bytes → ℕ → List Bytes → Type 0
Holds rows i [] = Unit
Holds rows i (x ∷ block) = (row_at rows i ≡ some x) × Holds rows (i + 1) block

-- A row that is neither `start` nor `end`.
abbrev pub IsBody : Bytes → Type 0
IsBody row = (begins_with (codes "start") row ≡ false) × (begins_with (codes "end") row ≡ false)

-- The commands of a list, one after the other.
unfoldable pub exec_all : (Bytes → M Void) → List Bytes → M Void
exec_all exec [] = skip
exec_all exec (row ∷ block) = do exec row; exec_all exec block

-- The body `n` times, and a round counted behind each.
unfoldable pub repeat : (Bytes → M Void) → ℤ → List Bytes → ℕ → M Void
repeat exec script_num body zero = skip
repeat exec script_num body (suc n) = do
  exec_all exec body
  count_round script_num
  repeat exec script_num body n

module _ (rows : List Bytes) where
  -- The search for `end` from a body on stops behind it, and leaves `loopStart`.
  find_end-body :
      (fuel i : ℕ) (body : List Bytes) (last : Bytes) (start : Option ℕ)
      → Holds rows i body
      → row_at rows (i + length body) ≡ some last
      → length body < fuel
      → All IsBody body
      → begins_with (codes "start") last ≡ false
      → begins_with (codes "end") last ≡ true
      → find_end rows fuel i start ≡ some (start, i + length body)
  unfolding find_end
  find_end-body zero i body last start h l f b s e = absurd (omega arith)
  find_end-body (suc fuel) i [] last start h l f b s e =
      let same : i + 0 ≡ i = omega arith in
      let here : row_at rows i ≡ some last = rw same at l in ground (arith, here)
  find_end-body (suc fuel) i (x ∷ body) last start h l f b s e =
      let same : i + suc (length body) ≡ i + 1 + length body = omega arith in
      ground (
        arith,
        find_end-body fuel (i + 1) body last start h.1 (rw same at l) (omega arith) b.1 s e,
        h.0,
        b.0.0,
        b.0.1,
      )

  exec_rows-exec_all :
      (exec : Bytes → M Void) (i : ℕ) (body : List Bytes) (w : World)
      → Holds rows i body
      → exec_rows exec rows (length body) i w ≡ exec_all exec body w
  unfolding exec_rows exec_all
  exec_rows-exec_all exec i [] w h = refl
  exec_rows-exec_all exec i (x ∷ body) w h =
      rw h.0 (rw (fun_ext (λ (v : World). exec_rows-exec_all exec (i + 1) body v h.1)))

  rounds-repeat :
      (exec : Bytes → M Void) (script_num : ℤ) (n i : ℕ) (body : List Bytes) (w : World)
      → Holds rows i body
      → 0 < length body
      → rounds exec rows script_num n i (i + length body) w ≡ repeat exec script_num body n w
  unfolding rounds repeat
  rounds-repeat exec script_num zero i body w h some_row = refl
  rounds-repeat exec script_num (suc n) i body w h some_row =
      let runs : leb (i + length body) i ≡ false = ground arith in
      let size : i + length body - i ≡ length body = omega arith in
      rw runs (
        rw size (
          rw (
            fun_ext (λ (v : World). exec_rows-exec_all exec i body v h),
            fun_ext (λ (v : World). rounds-repeat exec script_num n i body v h some_row),
          )))

  row_at_lt : (j : ℕ) {x : Bytes} → row_at rows j ≡ some x → j < 500
  unfolding row_at
  row_at_lt j h = ground arith

  -- The search passes over the row `start`, and notes it.
  find_end-start :
      (fuel j : ℕ) (first : Bytes) (old : Option ℕ)
      → row_at rows j ≡ some first
      → begins_with (codes "start") first ≡ true
      → begins_with (codes "end") first ≡ false
      → find_end rows (suc fuel) j old ≡ find_end rows fuel (j + 1) (some (j + 1))
  unfolding find_end
  find_end-start fuel j first old h s e = ground arith

  -- The rows of a loop: `loop <n>`, `start`, a body that is not empty and in which no row begins with
  -- `start` or `end`, and `end`.
  pub record IsLoop (i n : ℕ) (loop first last : Bytes) (body : List Bytes) : Type 0 where
    pub holds : Holds rows i (loop ∷ first ∷ body)
    pub ends : row_at rows (i + 1 + 1 + length body) ≡ some last
    pub is_loop : begins_with (codes "loop") loop ≡ true
    pub count : loop_count loop ≡ some (pos (suc n))
    pub is_start : begins_with (codes "start") first ≡ true
    pub not_end : begins_with (codes "end") first ≡ false
    pub some_row : 0 < length body
    pub plain : All IsBody body
    pub not_start : begins_with (codes "start") last ≡ false
    pub is_end : begins_with (codes "end") last ≡ true

  module _ (exec : Bytes → M Void) (script_num : ℤ) (i n : ℕ) (old : Option ℕ)
      (loop first last : Bytes) (body : List Bytes) (w : World)
      (l : IsLoop i n loop first last body) where
    loop_end : find_end rows 500 (i + 1) old ≡ some (some (i + 1 + 1), i + 1 + 1 + length body)
    loop_end =
        find_end-start 499 (i + 1) first old l.holds.1.0 l.is_start l.not_end
        ∙ find_end-body 499 (i + 1 + 1) body last (some (i + 1 + 1)) l.holds.1.1 l.ends
            (omega (arith, row_at_lt (i + 1 + 1 + length body) l.ends)) l.plain l.not_start l.is_end

    run_loop-repeat :
        run_loop exec rows script_num i old loop w
        ≡ (repeat exec script_num body (suc n) >>= λ _.
              pure (some (some (i + 1 + 1), i + 1 + 1 + length body + 1)))
            w
    unfolding run_loop
    run_loop-repeat =
        rw (l.count, ◌>>=◌)
          (rw (loop_end, ◌>>=◌)
            (let positive : (suc n == 0) ≡ false = ground arith in
              rw positive (
                rw (
                  fun_ext (λ (v : World).
                    rounds-repeat exec script_num (suc n) (i + 1 + 1) body v l.holds.1.1
                      l.some_row)))))

    -- A loop of a script runs its body exactly as often as its first row says, counts each round, and
    -- the script goes on behind `end`; an undefined command makes both sides undefined.
    pub run_rows-repeat :
        (fuel : ℕ)
        → i < length rows
        → run_rows exec rows script_num (suc fuel) i old w
          ≡ (repeat exec script_num body (suc n) >>= λ _.
                run_rows exec rows script_num fuel (i + 1 + 1 + length body + 1) (some (i + 1 + 1)))
              w
    unfolding run_rows
    run_rows-repeat fuel inside =
        let going : leb (length rows) i ≡ false = ground arith in
        elim (Option-cases (repeat exec script_num body (suc n) w)) [
          | inl e ↦ ground (arith, going, l.holds.0, l.is_loop, run_loop-repeat, e)
          | inr (r, e) ↦ ground (arith, going, l.holds.0, l.is_loop, run_loop-repeat, e)
        ]
