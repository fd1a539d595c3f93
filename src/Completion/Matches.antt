-- ===== src/Completion/Matches.antt =====
-- What the completion offers.
use auto_test_tools.Base.{
  ℕ, zero, suc, ◌+◌, ◌≡◌, refl, List, [], ◌∷◌, Option, none, some, length, drop, arith,
  if◌then◌else◌, Bool-cases, inl, inr,
}
use mathlib.Core.Option
use auto_test_tools.CString.Compare.{Bytes}
use auto_test_tools.Completion.{Generator, same_prefix, next_name, command_generator, generate}

-- The names that begin with the text, in the order of the table.
unfoldable pub matching : Bytes → List Bytes → List Bytes
matching text [] = []
matching text (name ∷ table) =
    let later = matching text table in
    if same_prefix (length text) name text then name ∷ later else later

-- The result of a search: the first of the names that match, and the table behind it.
abbrev IsNext : List Bytes → Bytes → ℕ → List Bytes → Option (Bytes × ℕ) → Type 0
IsNext rest text index [] o = o ≡ none
IsNext rest text index (m ∷ ms) o =
    (k : ℕ) × (o ≡ some (m, index + k)) × (matching text (drop k rest) ≡ ms)

IsNext-later :
    (name : Bytes) (rest : List Bytes) (text : Bytes) (index : ℕ) (ms : List Bytes)
    (o : Option (Bytes × ℕ))
    → IsNext rest text (index + 1) ms o
    → IsNext (name ∷ rest) text index ms o
IsNext-later name rest text index [] o h = h
IsNext-later name rest text index (m ∷ ms) o (k, e, r) =
    let same_index : index + 1 + k ≡ index + suc k = omega arith in (suc k, rw same_index at e, r)

next_name-IsNext :
    (rest : List Bytes) (text : Bytes) (index : ℕ)
    → IsNext rest text index (matching text rest) (next_name rest (length text) text index)
unfolding matching next_name
next_name-IsNext [] text index = refl
next_name-IsNext (name ∷ rest) text index =
    elim (Bool-cases (same_prefix (length text) name text)) [
      | inl e ↦ rw e (1, refl, refl)
      | inr e ↦ rw e (
          IsNext-later name rest text index (matching text rest)
            (next_name rest (length text) text (index + 1))
            (next_name-IsNext rest text (index + 1)))
    ]

next_name-∷ :
    (rest : List Bytes) (text : Bytes) (index : ℕ) (m : Bytes) (ms : List Bytes)
    → matching text rest ≡ m ∷ ms
    → (k : ℕ) × (next_name rest (length text) text index ≡ some (m, index + k))
      × (matching text (drop k rest) ≡ ms)
next_name-∷ rest text index m ms e = rw e at (next_name-IsNext rest text index)

next_name-[] :
    (rest : List Bytes) (text : Bytes) (index : ℕ)
    → matching text rest ≡ []
    → next_name rest (length text) text index ≡ none
next_name-[] rest text index e = rw e at (next_name-IsNext rest text index)

drop-drop : (i k : ℕ) (xs : List Bytes) → drop k (drop i xs) ≡ drop (i + k) xs
drop-drop zero k xs = let sum : 0 + k ≡ k = omega arith in rw sum refl
drop-drop (suc i) zero [] = let sum : suc i + 0 ≡ suc i = omega arith in rw sum refl
drop-drop (suc i) (suc k) [] =
    let sum : suc i + suc k ≡ suc (i + suc k) = omega arith in rw sum refl
drop-drop (suc i) k (x ∷ xs) =
    let sum : suc i + k ≡ suc (i + k) = omega arith in rw sum (drop-drop i k xs)

-- The generator once a text has been given.
abbrev started : Bytes → ℕ → Generator
started text i = record { list_index = i; len = length text }

module _ (table : List Bytes) (text : Bytes) where
  -- A call that goes on from index `i`.
  generator-next :
      (i : ℕ) (ms : List Bytes) (m : Bytes)
      → matching text (drop i table) ≡ m ∷ ms
      → (j : ℕ) × (matching text (drop j table) ≡ ms)
        × ((state : ℕ)
            → command_generator table text (suc state) (started text i) ≡ some (m, started text j))
  unfolding command_generator
  generator-next i ms m e =
      let (k, f, r) = next_name-∷ (drop i table) text i m ms e in
      (i + k, rw (drop-drop i k table) at r, λ state. ground (arith, f))

  generator-end :
      (i : ℕ) (state : ℕ)
      → matching text (drop i table) ≡ []
      → command_generator table text (suc state) (started text i) ≡ none
  unfolding command_generator
  generator-end i state e = ground (arith, next_name-[] (drop i table) text i e)

  generate-∷ :
      (n state : ℕ) (g g' : Generator) (m : Bytes) (o : Option (List Bytes))
      → command_generator table text state g ≡ some (m, g')
      → generate table text n (state + 1) g' ≡ o
      → generate table text (suc n) state g ≡ Option.map (◌∷◌ m) o
  unfolding generate
  generate-∷ n state g g' m none e r = rw (e, generate) (rw r refl)
  generate-∷ n state g g' m (some ms) e r = rw (e, generate) (rw r refl)

  -- The calls from index `i` on.
  generate-rest :
      (ms : List Bytes) (i state : ℕ)
      → matching text (drop i table) ≡ ms
      → (generate table text (length ms) (suc state) (started text i) ≡ some ms)
        × (generate table text (suc (length ms)) (suc state) (started text i) ≡ none)
  unfolding generate
  generate-rest [] i state e = (refl, ground (arith, generator-end i state e))
  generate-rest (m ∷ ms) i state e =
      let (j, r, f) = generator-next i ms m e in
      let shift : suc (state + 1) ≡ suc state + 1 = omega arith in
      let (all, past) = generate-rest ms j (state + 1) r in
      let step = λ (n : ℕ) (o : Option (List Bytes)).
        generate-∷ n (suc state) (started text i) (started text j) m o (f state) in
      (step (length ms) (some ms) (rw shift at all), step (suc (length ms)) none (rw shift at past))

  -- The first call takes the text and begins at the first name.
  generator-first :
      (g : Generator)
      → command_generator table text 0 g ≡ command_generator table text 1 (started text 0)
  unfolding command_generator
  generator-first g = ground arith

  -- The completion offers the names of the table that begin with the text, in the order of the table, and
  -- nothing else; the call behind the last of them, which should tell that there are no more, reads past
  -- the table and is undefined.
  pub generate-matching :
      (g : Generator) (ms : List Bytes)
      → matching text table ≡ ms
      → (generate table text (length ms) 0 g ≡ some ms)
        × (generate table text (suc (length ms)) 0 g ≡ none)
  unfolding generate
  generate-matching g [] e =
      (refl, rw (generator-first g, generate) (rw (generator-end 0 0 e) refl))
  generate-matching g (m ∷ ms) e =
      let (j, r, f) = generator-next 0 ms m e in
      let (all, past) = generate-rest ms j 0 r in
      rw (generator-first g, generate) (rw (f 0) (rw all refl, rw past refl))
