-- ===== src/KeyMap/Names.antt =====
-- core/src/keyMap.c: the names of the keys as words of a command line.
use auto_test_tools.Base.{
  ℕ, ◌≡◌, ◌<◌, refl, ap, ◌∙◌, Bool, true, not, ◌&&◌, List, [], ◌∷◌, some, All, arith, length, ltb,
  ◌==◌, Bool-cases, inl, inr,
}
use auto_test_tools.CString.Compare.{Bytes}
use auto_test_tools.CString.Find.{lacks}
use auto_test_tools.CString.Format.{IsPlain, IsText}
use auto_test_tools.KeyMap.{Key, key_entries, entry_at, key_lib, get_key_code}
use auto_test_tools.KeyMap.Lookup.{key_entries-IsFound, IsFound}

-- The entry is of a key of the phone, and not an empty one.
abbrev pub has_code : Key → Bool
has_code k = ltb 0 (length k.key_code)

entry_at-found :
    (ks : List (ℕ × Key)) (i : ℕ)
    → All IsFound ks
    → has_code (entry_at ks i) ≡ true
    → get_key_code key_lib (entry_at ks i).key_name ≡ some i
unfolding entry_at
entry_at-found [] i h e = ground arith
entry_at-found ((j, k) ∷ ks) i h e = elim (Bool-cases (j == i)) [
  | inl s ↦ let same : j ≡ i = ground arith in rw s (h.0.0 ∙ ap some same)
  | inr d ↦ rw d (entry_at-found ks i h.1 (rw d at e))
]

-- A key of the phone is found by its name.
pub key_lib-found :
    (i : ℕ) → has_code (key_lib i) ≡ true → get_key_code key_lib (key_lib i).key_name ≡ some i
unfolding key_lib
key_lib-found i e = entry_at-found key_entries i key_entries-IsFound e

-- A text of plain bytes, none of which ends a word or a key.
are_plain : Bytes → Bool
are_plain [] = true
are_plain (c ∷ s) = ltb 0 c && not (c == b'%') && not (c == b' ') && not (c == b',') && are_plain s

-- A name that is a word of its own: 1 to 7 plain bytes.
is_word : Bytes → Bool
unfolding are_plain
is_word name = ltb 0 (length name) && ltb (length name) 8 && are_plain name

all_words : List (ℕ × Key) → Bool
unfolding is_word
all_words [] = true
all_words ((_, k) ∷ ks) = is_word k.key_name && all_words ks

entry_at-is_word :
    (ks : List (ℕ × Key)) (i : ℕ)
    → all_words ks ≡ true
    → has_code (entry_at ks i) ≡ true
    → is_word (entry_at ks i).key_name ≡ true
unfolding entry_at all_words
entry_at-is_word [] i h e = ground arith
entry_at-is_word ((j, k) ∷ ks) i h e = elim (Bool-cases (j == i)) [
  | inl s ↦ rw s (ground (arith, h))
  | inr d ↦ rw d (entry_at-is_word ks i (ground (arith, h)) (rw d at e))
]

are_plain-IsPlain :
    (s : Bytes)
    → are_plain s ≡ true
    → IsPlain s × IsText s × (lacks b' ' s ≡ true) × (lacks b',' s ≡ true)
unfolding are_plain
are_plain-IsPlain [] h = (tt, tt, refl, refl)
are_plain-IsPlain (c ∷ s) h =
    let (plain, text, space, comma) = are_plain-IsPlain s (ground arith) in
    ((ground arith, plain), (ground arith, text), ground arith, ground arith)

table_words : all_words key_entries ≡ true
unfolding all_words is_word are_plain key_entries
table_words = refl

-- What the name of a key is as a word.
pub record IsKeyWord (name : Bytes) : Type 0 where
  pub some_byte : 0 < length name
  pub short : length name < 8
  pub plain : IsPlain name
  pub text : IsText name
  pub no_space : lacks b' ' name ≡ true
  pub no_comma : lacks b',' name ≡ true

is_word-IsKeyWord : (name : Bytes) → is_word name ≡ true → IsKeyWord name
unfolding is_word
is_word-IsKeyWord name h =
    let (plain, text, space, comma) = are_plain-IsPlain name (ground arith) in
    record {
      some_byte = ground arith;
      short = ground arith;
      plain = plain;
      text = text;
      no_space = space;
      no_comma = comma;
    }

-- The name of a key of the phone is a word of a command line and a key of `ioevt`.
pub key_lib-IsKeyWord : (i : ℕ) → has_code (key_lib i) ≡ true → IsKeyWord (key_lib i).key_name
unfolding key_lib
key_lib-IsKeyWord i e =
    is_word-IsKeyWord (entry_at key_entries i).key_name
      (entry_at-is_word key_entries i table_words e)
