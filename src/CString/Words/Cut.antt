-- ===== src/CString/Words/Cut.antt =====
-- One call of `strtok`: it stores a word where a pointer to its start reads it.
use mathlib.Core.List.{append_assoc}
use mathlib.Core.Path.{subst}
use auto_test_tools.Base.{
  ℕ, suc, ◌+◌, ◌≡◌, ◌≢◌, refl, ap, ◌∙◌, [], ◌∷◌, ◌++◌, none, some, arith, length, ◌<◌,
  length-append, drop-append,
}
use auto_test_tools.CString.Compare.{Bytes}
use auto_test_tools.CString.Format.{IsText}
use auto_test_tools.CString.Tokens.{
  c_string, string_at, gap, after_gap, token, after_token, Cut, end_token, cut_at, strtok, words,
}
use auto_test_tools.CString.Words.Pieces.{
  gap-append, token-append, after_gap-head, after_gap-IsText, token-IsText, after_token-IsText,
  words-after_gap, words-end, words-more,
}

-- What a pointer at the end of `before` reads, if a word with no NUL stands there.
pub c_string-end : (w : Bytes) → IsText w → c_string (w ++ []) ≡ w
unfolding c_string
c_string-end [] h = refl
c_string-end (c ∷ w) h = ground (arith, c_string-end w h.1, h.0)

pub c_string-nul : (w x : Bytes) → IsText w → c_string (w ++ 0 ∷ x) ≡ w
unfolding c_string
c_string-nul [] x h = refl
c_string-nul (c ∷ w) x h = ground (arith, c_string-nul w x h.1, h.0)

-- What one call of `strtok` gives: a word, stored where the pointer reads it whatever is stored behind.
pub record Taken (d : ℕ) (before s : Bytes) (k : Cut) : Type 0 where
  pub word : Bytes
  pub found : words d s ≡ word ∷ words d k.rest
  pub rest_text : IsText k.rest
  pub reads : (x : Bytes) → (k.rest ≡ [] → x ≡ []) → string_at (k.before ++ x) k.offset ≡ word
  pub inside : k.offset < length k.before
  pub added : Bytes
  pub keeps : k.before ≡ before ++ added
  pub size : length k.before + length k.rest ≡ length before + length s

pub string_at-token :
    (before w : Bytes) → IsText w → string_at ((before ++ w) ++ []) (length before) ≡ w
unfolding string_at
string_at-token before w h = rw (append_assoc, drop-append) (c_string-end w h)

pub length-token : (d c : ℕ) (cs b : Bytes) → c ≢ d → length b < length (b ++ token d (c ∷ cs))
unfolding token
length-token d c cs b ne = ground (arith, length-append b (token d (c ∷ cs)))

pub length-token_and_rest :
    (d c : ℕ) (cs b : Bytes)
    → length (b ++ token d (c ∷ cs)) + length (after_token d (c ∷ cs)) ≡ length b + suc (length cs)
length-token_and_rest d c cs b = omega (
  arith,
  length-append {0} b (token d (c ∷ cs)),
  length-append {0} (token d (c ∷ cs)) (after_token d (c ∷ cs)),
  ap length (token-append d (c ∷ cs)),
)

pub end_token-Taken :
    (d c : ℕ) (cs b : Bytes)
    → c ≢ d
    → IsText (c ∷ cs)
    → (a : Bytes) → after_token d (c ∷ cs) ≡ a
    → Taken d b (c ∷ cs) (end_token (b ++ token d (c ∷ cs)) a (length b))
unfolding end_token string_at
end_token-Taken d c cs b ne text [] e = record {
  word = token d (c ∷ cs);
  found = words-end d c cs ne e;
  rest_text = tt;
  reads = λ x none_left. rw (none_left refl) (string_at-token b _ (token-IsText d (c ∷ cs) text));
  inside = length-token d c cs b ne;
  added = token d (c ∷ cs);
  keeps = refl;
  size = omega (arith, length-token_and_rest d c cs b, ap length e);
}
end_token-Taken d c cs b ne text (x ∷ r) e = record {
  word = token d (c ∷ cs);
  found = words-more d c cs ne e;
  rest_text = (subst IsText e (after_token-IsText d (c ∷ cs) text)).1;
  reads = λ y _.
      rw (append_assoc, append_assoc, drop-append)
        (c_string-nul _ y (token-IsText d (c ∷ cs) text));
  inside =
      omega (arith, length-token d c cs b ne, length-append {0} (b ++ token d (c ∷ cs)) (0 ∷ []));
  added = token d (c ∷ cs) ++ 0 ∷ [];
  keeps = append_assoc b _ _;
  size = omega (
    arith,
    length-token_and_rest d c cs b,
    length-append {0} (b ++ token d (c ∷ cs)) (0 ∷ []),
    ap length e,
  );
}

module _ (d : ℕ) (before s : Bytes) (text : IsText s) where
  pub cut_at-Taken :
      (r : Bytes)
      → after_gap d s ≡ r
      → {k : Cut} → cut_at d (before ++ gap d s) r ≡ some k
      → Taken d before s k
  unfolding cut_at
  cut_at-Taken [] f e = cc
  cut_at-Taken (c ∷ cs) f {k} e =
      let text' : IsText (c ∷ cs) = subst IsText f (after_gap-IsText d s text) in
      let t =
        end_token-Taken d c cs (before ++ gap d s) (after_gap-head d s f) text'
          (after_token d (c ∷ cs)) refl in
      let e' : end_token ((before ++ gap d s) ++ token d (c ∷ cs)) (after_token d (c ∷ cs))
            (length (before ++ gap d s))
          ≡ k =
        cc in
      subst (Taken d before s) e' (record {
        word = t.word;
        found = words-after_gap d s ∙ rw f t.found;
        rest_text = t.rest_text;
        reads = t.reads;
        inside = t.inside;
        added = gap d s ++ t.added;
        keeps = t.keeps ∙ append_assoc before (gap d s) t.added;
        size = omega (
          arith,
          t.size,
          length-append {0} before (gap d s),
          length-append {0} (gap d s) (after_gap d s),
          ap length (gap-append d s),
          ap length f,
        );
      })

  pub strtok-Taken : {k : Cut} → strtok d before s ≡ some k → Taken d before s k
  unfolding strtok
  strtok-Taken e = cut_at-Taken (after_gap d s) refl e

  pub cut_at-none :
      (r : Bytes) → after_gap d s ≡ r → cut_at d (before ++ gap d s) r ≡ none → words d s ≡ []
  unfolding cut_at words
  cut_at-none [] f e = words-after_gap d s ∙ rw f
  cut_at-none (c ∷ cs) f e = cc

  pub strtok-none : strtok d before s ≡ none → words d s ≡ []
  unfolding strtok
  strtok-none e = cut_at-none (after_gap d s) refl e
