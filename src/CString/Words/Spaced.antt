-- ===== src/CString/Words/Spaced.antt =====
-- The words of a text that is written as words with delimiters between them.
use auto_test_tools.Base.{ℕ, ◌≡◌, ◌<◌, refl, true, [], ◌∷◌, ◌++◌, arith, length}
use auto_test_tools.CString.Compare.{Bytes}
use auto_test_tools.CString.Find.{lacks}
use auto_test_tools.CString.Tokens.{pieces, nonempty, words}

module _ (d : ℕ) where
  pieces-word : (x : Bytes) → lacks d x ≡ true → pieces d x ≡ (x, [])
  unfolding pieces
  pieces-word [] h = refl
  pieces-word (c ∷ x) h = ground (arith, pieces-word x)

  pieces-spaced :
      (x rest : Bytes)
      → lacks d x ≡ true
      → pieces d (x ++ d ∷ rest) ≡ (x, (pieces d rest).0 ∷ (pieces d rest).1)
  unfolding pieces
  pieces-spaced [] rest h = ground arith
  pieces-spaced (c ∷ x) rest h = ground (arith, pieces-spaced x rest)

  pub words-word : (x : Bytes) → 0 < length x → lacks d x ≡ true → words d x ≡ x ∷ []
  unfolding words nonempty
  words-word [] l h = absurd (omega arith)
  words-word (c ∷ x) l h = rw (pieces-word (c ∷ x) h, words, nonempty) refl

  pub words-spaced :
      (x rest : Bytes)
      → 0 < length x
      → lacks d x ≡ true
      → words d (x ++ d ∷ rest) ≡ x ∷ words d rest
  unfolding words nonempty
  words-spaced [] rest l h = absurd (omega arith)
  words-spaced (c ∷ x) rest l h = rw (pieces-spaced (c ∷ x) rest h, words, nonempty) refl
