-- ===== src/Script/Search.antt =====
-- core/src/at_cmdProc.c: the search of `scriptCmdProcess` for the row `end` of a loop.
use auto_test_tools.Base.{
  ℕ, zero, suc, ◌+◌, ◌≡◌, ◌≤◌, ◌<◌, refl, true, false, List, Option, none, some, arith, ltb,
  get_elem?, if◌then◌else◌, ◌==◌, Bool-cases, Option-cases, inl, inr,
}
use mathlib.Core.Path.{subst⁻¹}
use auto_test_tools.CString.Compare.{Bytes, codes}
use auto_test_tools.Script.Load.{max_sc_line}
use auto_test_tools.Script.Run.{row_at, begins_with, find_end}

-- The row at this place of the array begins with `end`, or it is there and does not.
abbrev pub IsEnd : List Bytes → ℕ → Type 0
IsEnd rows i = (row : Bytes) × (row_at rows i ≡ some row) × (begins_with (codes "end") row ≡ true)

abbrev pub IsOther : List Bytes → ℕ → Type 0
IsOther rows i =
    (row : Bytes) × (row_at rows i ≡ some row) × (begins_with (codes "end") row ≡ false)

-- What the search from `index` on comes to: the first row `end`, or none where the array has none.
abbrev pub Finds : List Bytes → ℕ → Option (Option ℕ × ℕ) → Type 0
Finds rows index none = (i : ℕ) → index ≤ i → i < max_sc_line → IsOther rows i
Finds rows index (some (start, stop)) =
    (index ≤ stop) × IsEnd rows stop × ((i : ℕ) → index ≤ i → i < stop → IsOther rows i)

-- `loopStart` behind a row.
abbrev started : Bytes → ℕ → Option ℕ → Option ℕ
started row index start = if begins_with (codes "start") row then some (index + 1) else start

module _ (rows : List Bytes) where
  -- The row at `index` is passed over.
  Finds-suc :
      (index : ℕ) (o : Option (Option ℕ × ℕ))
      → IsOther rows index
      → Finds rows (index + 1) o
      → Finds rows index o
  Finds-suc index none other h = λ i l u. elim (Bool-cases (index == i)) [
    | inl e ↦ let same : index ≡ i = ground arith in rw (← same) other
    | inr n ↦ h i (ground arith) u
  ]
  Finds-suc index (some (start, stop)) other (l, is_end, before) = (
    omega arith,
    is_end,
    λ i k u. elim (Bool-cases (index == i)) [
      | inl e ↦ let same : index ≡ i = ground arith in rw (← same) other
      | inr n ↦ before i (ground arith) u
    ],
  )

  row_at-none : (i : ℕ) → row_at rows i ≡ none → max_sc_line ≤ i
  unfolding row_at
  row_at-none i e = elim (Bool-cases (ltb i max_sc_line)) [
    | inr out ↦ ground arith
    | inl inside ↦ elim (Option-cases (get_elem? rows i)) [
      | inl n ↦ cc (rw (inside, n) at e)
      | inr (row, n) ↦ cc (rw (inside, n) at e)
    ]
  ]

  find_end-from :
      (fuel index : ℕ) (start : Option ℕ)
      → max_sc_line ≤ index + fuel
      → Finds rows index (find_end rows fuel index start)
  unfolding find_end
  find_end-from zero index start h = λ i l u. absurd (omega arith)
  find_end-from (suc fuel) index start h = elim (Option-cases (row_at rows index)) [
    | inl e ↦
        let behind : max_sc_line ≤ index = row_at-none index e in
        let leads : find_end rows (suc fuel) index start ≡ none = rw (e, find_end) refl in
        subst⁻¹ (Finds rows index) leads (λ i l u. absurd (omega (arith, behind, l, u)))
    | inr (row, e) ↦ elim (Bool-cases (begins_with (codes "end") row)) [
      | inl is_end ↦
          let leads : find_end rows (suc fuel) index start ≡ some (started row index start, index) =
            rw (e, find_end) (rw is_end refl) in
          subst⁻¹ (Finds rows index) leads
            (omega arith, (row, e, is_end), λ i l u. absurd (omega (arith, l, u)))
      | inr other ↦
          let leads : find_end rows (suc fuel) index start
              ≡ find_end rows fuel (index + 1) (started row index start) =
            rw (e, find_end) (rw other refl) in
          subst⁻¹ (Finds rows index) leads (
            Finds-suc index _ (row, e, other)
              (find_end-from fuel (index + 1) (started row index start) (omega arith)))
    ]
  ]

  -- The inner `while (1)` over the rows of a script, from any row on, comes to its end within the 500 rounds
  -- that it is given here: at the first row that begins with `end`, whatever rows are before it. It reads
  -- behind the array, which is undefined, only where none of the rows from there on begins with `end`.
  pub find_end-Finds :
      (index : ℕ) (start : Option ℕ) → Finds rows index (find_end rows max_sc_line index start)
  find_end-Finds index start = find_end-from max_sc_line index start (omega arith)
