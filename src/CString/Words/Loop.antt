-- ===== src/CString/Words/Loop.antt =====
-- The token loop: its pointers read the words of the text, in order, inside the buffer.
use mathlib.Core.List.{append_assoc}
use mathlib.Core.Path.{ap₂}
use auto_test_tools.Base.{
  ℕ, zero, suc, ◌+◌, ◌≡◌, ◌≢◌, refl, ◌∙◌, [], ◌∷◌, ◌++◌, map, some, arith, length, ◌<◌, take, inl,
  inr, length-append, Option-cases, All,
}
use auto_test_tools.CString.Compare.{Bytes}
use auto_test_tools.CString.Format.{IsText}
use auto_test_tools.CString.Tokens.{string_at, after_gap, Cut, cut_at, strtok, token_loop, words}
use auto_test_tools.CString.Words.Cut.{strtok-Taken, strtok-none, Taken}

-- The buffer that the loop leaves begins with the cells before it, and keeps its length.
record Extends (before s buffer : Bytes) : Type 0 where
  more : Bytes
  split : buffer ≡ before ++ more
  ends : s ≡ [] → more ≡ []
  size : length buffer ≡ length before + length s

module _ (d : ℕ) where
  Extends-strtok :
      {before s buffer : Bytes} {k : Cut}
      → Taken d before s k
      → s ≢ []
      → Extends k.before k.rest buffer
      → Extends before s buffer
  Extends-strtok {before} t ne x = record {
    more = t.added ++ x.more;
    split = x.split ∙ rw t.keeps (append_assoc before t.added x.more);
    ends = λ e. absurd (ne e);
    size = omega (arith, x.size, t.size);
  }

  Extends-refl : (before s : Bytes) → Extends before s (before ++ s)
  Extends-refl before s = record {
    more = s;
    split = refl;
    ends = λ e. e;
    size = length-append before s;
  }

  strtok-ne-nil : (before s : Bytes) {k : Cut} → strtok d before s ≡ some k → s ≢ []
  unfolding strtok cut_at after_gap
  strtok-ne-nil before s e f = cc (rw f at e)

  token_loop-Extends :
      (limit : ℕ) (before s : Bytes) → IsText s → Extends before s (token_loop limit d before s).1
  unfolding token_loop
  token_loop-Extends zero before s text = elim (Option-cases (strtok d before s)) [
    | inl e ↦ rw (e, token_loop) (Extends-refl before s)
    | inr (k, e) ↦
        rw (e, token_loop)
          (Extends-strtok (strtok-Taken d before s text e) (strtok-ne-nil before s e)
            (Extends-refl k.before k.rest))
  ]
  token_loop-Extends (suc n) before s text = elim (Option-cases (strtok d before s)) [
    | inl e ↦ rw (e, token_loop) (Extends-refl before s)
    | inr (k, e) ↦
        let t = strtok-Taken d before s text e in
        rw (e, token_loop)
          (Extends-strtok t (strtok-ne-nil before s e)
            (token_loop-Extends n k.before k.rest t.rest_text))
  ]

  -- The loop stores pointers to the first `limit` words of the text, in order.
  pub token_loop-words :
      (limit : ℕ) (before s : Bytes)
      → IsText s
      → let (ts, buffer) = token_loop limit d before s in
        map (string_at buffer) ts ≡ take limit (words d s)
  unfolding token_loop
  token_loop-words zero before s text = elim (Option-cases (strtok d before s)) [
    | inl e ↦ rw (e, token_loop)
    | inr (k, e) ↦ rw (e, token_loop)
  ]
  token_loop-words (suc n) before s text = elim (Option-cases (strtok d before s)) [
    | inl e ↦ rw (e, token_loop) (rw (strtok-none d before s text e))
    | inr (k, e) ↦
        let t = strtok-Taken d before s text e in
        let x = token_loop-Extends n k.before k.rest t.rest_text in
        rw (e, token_loop)
          (rw t.found (
            ap₂ ◌∷◌ (rw x.split (t.reads x.more x.ends))
              (token_loop-words n k.before k.rest t.rest_text)))
  ]

  -- Every pointer that the loop stores is inside the buffer.
  pub token_loop-inside :
      (limit : ℕ) (before s : Bytes)
      → IsText s
      → let (ts, buffer) = token_loop limit d before s in All (λ o. o < length buffer) ts
  unfolding token_loop
  token_loop-inside zero before s text = elim (Option-cases (strtok d before s)) [
    | inl e ↦ rw (e, token_loop) tt
    | inr (k, e) ↦ rw (e, token_loop) tt
  ]
  token_loop-inside (suc n) before s text = elim (Option-cases (strtok d before s)) [
    | inl e ↦ rw (e, token_loop) tt
    | inr (k, e) ↦
        let t = strtok-Taken d before s text e in
        let x = token_loop-Extends n k.before k.rest t.rest_text in
        rw (e, token_loop)
          (omega (arith, x.size, t.inside), token_loop-inside n k.before k.rest t.rest_text)
  ]

  -- The loop changes no length.
  pub length-token_loop :
      (limit : ℕ) (before s : Bytes)
      → IsText s
      → length (token_loop limit d before s).1 ≡ length before + length s
  length-token_loop limit before s text = (token_loop-Extends limit before s text).size
