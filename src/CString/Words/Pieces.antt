-- ===== src/CString/Words/Pieces.antt =====
-- How the pieces of a text between delimiters follow from its leading gap and its first token.
use auto_test_tools.Base.{
  ◌+◌, ◌*◌, ◌≤◌, length, ℕ, ◌≡◌, ◌≢◌, refl, [], ◌∷◌, ◌++◌, arith, ◌==◌, Bool-cases, inl, inr,
}
use auto_test_tools.CString.Compare.{Bytes}
use auto_test_tools.CString.Format.{IsText}
use auto_test_tools.CString.Tokens.{gap, after_gap, token, after_token, pieces, nonempty, words}

module _ (d : ℕ) where
  pub gap-append : (s : Bytes) → gap d s ++ after_gap d s ≡ s
  unfolding gap after_gap
  gap-append [] = refl
  gap-append (c ∷ s) = ground (arith, gap-append s)

  pub token-append : (s : Bytes) → token d s ++ after_token d s ≡ s
  unfolding token after_token
  token-append [] = refl
  token-append (c ∷ s) = ground (arith, token-append s)

  pub after_gap-head : (s : Bytes) {c : ℕ} {r : Bytes} → after_gap d s ≡ c ∷ r → c ≢ d
  unfolding after_gap
  after_gap-head [] {c} {r} e = cc
  after_gap-head (x ∷ s) {c} {r} e = ground (arith, after_gap-head s {c = c} {r = r})

  pub after_gap-IsText : (s : Bytes) → IsText s → IsText (after_gap d s)
  unfolding after_gap
  after_gap-IsText [] h = tt
  after_gap-IsText (c ∷ s) h = elim (Bool-cases (c == d)) [
    | inl e ↦ rw e (after_gap-IsText s h.1)
    | inr e ↦ rw e h
  ]

  pub token-IsText : (s : Bytes) → IsText s → IsText (token d s)
  unfolding token
  token-IsText [] h = tt
  token-IsText (c ∷ s) h = elim (Bool-cases (c == d)) [
    | inl e ↦ rw e tt
    | inr e ↦ rw e (h.0, token-IsText s h.1)
  ]

  pub after_token-IsText : (s : Bytes) → IsText s → IsText (after_token d s)
  unfolding after_token
  after_token-IsText [] h = tt
  after_token-IsText (c ∷ s) h = elim (Bool-cases (c == d)) [
    | inl e ↦ rw e h
    | inr e ↦ rw e (after_token-IsText s h.1)
  ]

  pub words-after_gap : (s : Bytes) → words d s ≡ words d (after_gap d s)
  unfolding words after_gap
  words-after_gap [] = refl
  words-after_gap (c ∷ s) = ground (arith, words-after_gap s)

  pub pieces-end : (s : Bytes) → after_token d s ≡ [] → pieces d s ≡ (token d s, [])
  unfolding pieces token after_token
  pieces-end [] e = refl
  pieces-end (c ∷ s) e = ground (arith, pieces-end s)

  pub pieces-more :
      (s : Bytes) {x : ℕ} {r : Bytes}
      → after_token d s ≡ x ∷ r
      → pieces d s ≡ (token d s, (pieces d r).0 ∷ (pieces d r).1)
  unfolding pieces token after_token
  pieces-more [] {x} {r} e = cc
  pieces-more (c ∷ s) {x} {r} e = ground (arith, pieces-more s {x = x} {r = r})

-- The words of a text that begins with a word.
pub words-end :
    (d c : ℕ) (cs : Bytes)
    → c ≢ d
    → after_token d (c ∷ cs) ≡ []
    → words d (c ∷ cs) ≡ token d (c ∷ cs) ∷ words d []
unfolding words token
words-end d c cs ne e = ground (arith, pieces-end d (c ∷ cs) e)

pub words-more :
    (d c : ℕ) (cs : Bytes) {x : ℕ} {r : Bytes}
    → c ≢ d
    → after_token d (c ∷ cs) ≡ x ∷ r
    → words d (c ∷ cs) ≡ token d (c ∷ cs) ∷ words d r
unfolding words token
words-more d c cs {x} {r} ne e = ground (arith, pieces-more d (c ∷ cs) {x = x} {r = r} e)

-- Each word but the last is followed by a delimiter, so half the bytes bound the number of words.
module _ (d : ℕ) where
  pieces_count :
      (s : Bytes)
      → let (first, more) = pieces d s in
        (2 * length (nonempty (first ∷ more)) ≤ length s + 1)
        × (2 * length (nonempty more) ≤ length s)
  unfolding pieces nonempty
  pieces_count [] = (omega arith, omega arith)
  pieces_count (c ∷ s) = ground (arith, pieces_count s)

  pub length-words : (s : Bytes) → 2 * length (words d s) ≤ length s + 1
  unfolding words
  length-words s = (pieces_count s).0
