-- ===== src/KeyMap/Lookup.antt =====
-- What the search in the key table finds: the first match, and for each key of the phone itself.
use auto_test_tools.Base.{
  ℕ, zero, suc, ◌+◌, ◌≡◌, ◌≤◌, ◌<◌, refl, Bool, true, false, ◌&&◌, List, [], ◌∷◌, Option, none,
  some, arith, ◌==◌, ltb, Bool-cases, inl, inr, All, length,
}
use auto_test_tools.CString.Compare.{Bytes}
use auto_test_tools.KeyMap.{
  Key, key_entries, entry_at, key_lib, key_matches, find_key, get_key_code, max_key_num,
}

-- What a result of the search in entries `from` up to `to` says.
abbrev pub FirstMatch : (ℕ → Key) → Bytes → ℕ → ℕ → Option ℕ → Type 0
FirstMatch lib str from to none = (j : ℕ) → from ≤ j → j < to → key_matches str (lib j) ≡ false
FirstMatch lib str from to (some i) =
    (from ≤ i)
    × (i < to)
    × (key_matches str (lib i) ≡ true)
    × ((j : ℕ) → from ≤ j → j < i → key_matches str (lib j) ≡ false)

module _ (lib : ℕ → Key) (str : Bytes) where
  skip :
      (from to : ℕ)
      → key_matches str (lib from) ≡ false
      → (r : Option ℕ) → FirstMatch lib str (from + 1) to r
      → FirstMatch lib str from to r
  skip from to e none h = λ j l u. elim (Bool-cases (from == j)) [
    | inl q ↦ let q' : from ≡ j = ground arith in rw (← q') e
    | inr q ↦ h j (ground arith) u
  ]
  skip from to e (some i) h = (
    omega arith,
    h.1,
    h.2,
    λ j l u. elim (Bool-cases (from == j)) [
      | inl q ↦ let q' : from ≡ j = ground arith in rw (← q') e
      | inr q ↦ h.3 j (ground arith) u
    ],
  )

  find_key-FirstMatch :
      (rounds index to : ℕ)
      → index + rounds ≡ to
      → FirstMatch lib str index to (find_key lib str rounds index)
  unfolding find_key
  find_key-FirstMatch zero index to e = λ j l u. absurd (omega arith)
  find_key-FirstMatch (suc n) index to e = elim (Bool-cases (key_matches str (lib index))) [
    | inl m ↦ rw m (omega arith, omega arith, m, λ j l u. absurd (omega arith))
    | inr m ↦ rw m (skip index to m _ (find_key-FirstMatch n (index + 1) to (omega arith)))
  ]

-- `getKeyCode` returns the first of the 255 entries whose name or code is the text, and FAILED
-- exactly when no entry has it.
pub get_key_code-FirstMatch :
    (lib : ℕ → Key) (str : Bytes) → FirstMatch lib str 0 max_key_num (get_key_code lib str)
unfolding get_key_code
get_key_code-FirstMatch lib str =
    find_key-FirstMatch lib str max_key_num 0 max_key_num (omega arith)

abbrev pub IsFound : ℕ × Key → Type 0
IsFound (i, k) =
    (get_key_code key_lib k.key_name ≡ some i) × (get_key_code key_lib k.key_code ≡ some i)

finds : Bytes → ℕ → Bool
finds str i = elim (get_key_code key_lib str) [ none ↦ false | some j ↦ j == i ]

finds_sound : (str : Bytes) (i : ℕ) → finds str i ≡ true → get_key_code key_lib str ≡ some i
unfolding finds
finds_sound str i h = ground arith

self_found : List (ℕ × Key) → Bool
self_found [] = true
self_found ((i, k) ∷ ks) = finds k.key_name i && finds k.key_code i && self_found ks

self_found_sound : (ks : List (ℕ × Key)) → self_found ks ≡ true → All IsFound ks
unfolding self_found
self_found_sound [] h = tt
self_found_sound ((i, k) ∷ ks) h = (
  (finds_sound k.key_name i (ground arith), finds_sound k.key_code i (ground arith)),
  self_found_sound ks (ground arith),
)

table_found : self_found key_entries ≡ true
unfolding self_found finds get_key_code find_key key_lib key_matches
table_found = refl

-- Every key of the table is found under its name and under its code: the search returns the key's
-- own index, so no entry before it has either text.
pub key_entries-IsFound : All IsFound key_entries
key_entries-IsFound = self_found_sound key_entries table_found

fits : List (ℕ × Key) → Bool
fits [] = true
fits ((i, k) ∷ ks) = ltb (length k.key_code) 5 && fits ks

entry_at-fits : (ks : List (ℕ × Key)) (i : ℕ) → fits ks ≡ true → length (entry_at ks i).key_code < 5
unfolding fits entry_at
entry_at-fits [] i h = omega arith
entry_at-fits ((j, k) ∷ ks) i h = ground (arith, entry_at-fits ks i)

table_fits : fits key_entries ≡ true
unfolding fits key_entries
table_fits = refl

-- A key's code and its NUL fit the five bytes that a message has for it.
pub key_code_fits : (i : ℕ) → length (key_lib i).key_code < 5
unfolding key_lib
key_code_fits i = entry_at-fits key_entries i table_fits
