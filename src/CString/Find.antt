-- ===== src/CString/Find.antt =====
-- How `strstr` finds a word in a text behind a separator that the word does not hold.
use auto_test_tools.Base.{
  ℕ, ◌≡◌, refl, Bool, not, true, ap, ◌&&◌, [], ◌∷◌, ◌++◌, none, arith, ◌==◌, Bool-cases, inl, inr,
}
use auto_test_tools.CString.Compare.{Bytes, starts_with, strstr}

-- The word does not hold the byte.
abbrev pub lacks : ℕ → Bytes → Bool
lacks b [] = true
lacks b (c ∷ needle) = not (c == b) && lacks b needle

starts_with-separated :
    (needle p text : Bytes) (b : ℕ)
    → lacks b needle ≡ true
    → starts_with needle (p ++ b ∷ text) ≡ starts_with needle p
unfolding starts_with
starts_with-separated [] p text b h = refl
starts_with-separated (n ∷ needle) [] text b h = ground arith
starts_with-separated (n ∷ needle) (c ∷ p) text b h =
    ap (λ r. n == c && r) (starts_with-separated needle p text b (ground arith))

-- What the separator ends is passed over if the word is not in it.
pub strstr-separated :
    (needle p text : Bytes) (b : ℕ)
    → lacks b needle ≡ true
    → strstr needle p ≡ none
    → strstr needle (p ++ b ∷ text) ≡ strstr needle text
unfolding strstr
strstr-separated needle [] text b h e = elim (Bool-cases (starts_with needle [])) [
  | inl s ↦ cc (rw s at e)
  | inr n ↦ rw (starts_with-separated needle [] text b h) (rw n refl)
]
strstr-separated needle (c ∷ p) text b h e = elim (Bool-cases (starts_with needle (c ∷ p))) [
  | inl s ↦ cc (rw s at e)
  | inr n ↦
      rw (starts_with-separated needle (c ∷ p) text b h)
        (rw n (strstr-separated needle p text b h (rw n at e)))
]
