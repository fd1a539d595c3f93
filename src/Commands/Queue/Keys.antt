-- ===== src/Commands/Queue/Keys.antt =====
-- The keys that `ioevt` reads: every word of the text, looked up in the key table.
use mathlib.Core.Option
use auto_test_tools.Base.{
  ℕ, suc, ◌+◌, ◌≡◌, ◌≢◌, ◌≤◌, ◌<◌, refl, ap, ◌∙◌, List, [], ◌∷◌, Option, none, some, arith, length,
  get_elem?, map, Option-cases, inl, inr, length-take_le, length-map, take_all, All-take,
}
use auto_test_tools.CString.Compare.{Bytes}
use auto_test_tools.CString.Format.{bounded, IsPlain, IsText, snprintf_format_plain}
use auto_test_tools.CString.Tokens.{string_at, token_loop, words}
use auto_test_tools.CString.Words.{token_loop-words, length-words}
use auto_test_tools.Commands.Queue.{key_loop, read_keys, pointed, max_key_length, max_ioevt}
use auto_test_tools.KeyMap.{key_lib, get_key_code}
use auto_test_tools.KeyMap.Lookup.{key_code_fits}
use auto_test_tools.Params.Words.{stored, stored_at, store_tokens-stored, get_tokens_plain}
use auto_test_tools.World.Monad.{Returns, Returns-some}
use auto_test_tools.World.State.{World, max_token}

-- The codes of a list of key names; `none` if one of them is no key.
unfoldable pub key_codes_of : List Bytes → Option (List Bytes)
key_codes_of [] = some []
key_codes_of (s ∷ ss) =
    let rest = key_codes_of ss in
    elim (get_key_code key_lib s) [
      | none ↦ none
      | some k ↦ Option.map (◌∷◌ (key_lib k).key_code) rest
    ]

code_bounded : (k : ℕ) → bounded max_key_length (key_lib k).key_code ≡ (key_lib k).key_code
code_bounded k = take_all 4 (key_lib k).key_code (omega (arith, key_code_fits k))

-- The loop over pointers whose strings are `ss`.
key_loop-key_codes_of :
    (ptrs : ℕ → Option ℕ) (us : List ℕ) (index : ℕ) (w : World)
    → ((k o : ℕ) → get_elem? us k ≡ some o → ptrs (index + k) ≡ some o)
    → Returns (key_loop ptrs (length us) index w) (λ r w'.
      (r ≡ key_codes_of (map (string_at w.params.buffer) us))
      × (w' ≡ record w { events = w'.events }))
unfolding key_loop pointed key_codes_of
key_loop-key_codes_of ptrs [] index w h = (refl, refl)
key_loop-key_codes_of ptrs (u ∷ us) index w h =
    let shifted : index + 0 ≡ index = omega arith in
    let here : ptrs index ≡ some u = rw shifted at (h 0 u refl) in
    let (r, w', f, q) =
      Returns-some
        (λ r w'.
          (r ≡ key_codes_of (map (string_at w.params.buffer) us))
          × (w' ≡ record w { events = w'.events }))
        (key_loop ptrs (length us) (index + 1) w)
        (key_loop-key_codes_of ptrs us (index + 1) w (λ k o e.
          let next : index + suc k ≡ index + 1 + k = omega arith in rw next at (h (suc k) o e))) in
    elim (Option-cases (get_key_code key_lib (string_at w.params.buffer u))) [
      | inl e ↦ ground (arith, here, e)
      | inr (k, e) ↦ ground (arith, here, e, f, q.0, q.1, code_bounded k)
    ]

-- The tokens of a text of at most 19 bytes are all its words, ten at most.
key_texts :
    (cut : Bytes)
    → IsText cut
    → length cut ≤ 19
    → let (ts, buffer) = token_loop max_token b',' [] cut in
      (map (string_at buffer) ts ≡ words b',' cut) × (0 + length ts ≤ 10)
key_texts cut text h =
    let (ts, buffer) = token_loop max_token b',' [] cut in
    let few : length (words b',' cut) ≤ 15 = omega (arith, length-words b',' cut) in
    let reads : map (string_at buffer) ts ≡ words b',' cut =
      token_loop-words b',' max_token [] cut text ∙ take_all 15 (words b',' cut) few in
    (reads, omega (arith, length-words b',' cut, length-map (string_at buffer) ts, ap length reads))

-- `ioevt` cuts the text of its keys to 19 bytes, and looks up every word of what is left: the result
-- is the list of their codes, uncut and in order, or nothing if a word is no key. Nineteen bytes
-- hold at most ten words, so the ten pointers and the ten codes are never overrun, and no key of the
-- cut text is dropped. Only the buffer of `getTokens` and the log change.
pub read_keys-key_codes_of :
    (arg : Bytes) (w : World)
    → IsPlain arg
    → IsText arg
    → Returns (read_keys arg w) (λ r w'.
      (r ≡ key_codes_of (words b',' (bounded 20 arg)))
      × (w' ≡ record w {
        params = record w.params { buffer = w'.params.buffer };
        events = w'.events;
      }))
unfolding read_keys
read_keys-key_codes_of arg w plain text =
    let cut : Bytes = bounded 20 arg in
    let cut_plain : IsPlain cut = All-take (λ c. c ≢ b'%') 19 arg plain in
    let cut_text : IsText cut = All-take (λ c. 0 < c) 19 arg text in
    let short : length cut ≤ 255 = omega (arith, length-take_le 19 arg) in
    let ts : List ℕ = (token_loop max_token b',' [] cut).0 in
    let w₁ : World = record w {
      params = record w.params { buffer = (token_loop max_token b',' [] cut).1 };
    } in
    let found = key_texts cut cut_text (length-take_le 19 arg) in
    let (r, w₂, f, q) =
      Returns-some
        (λ r w'.
          (r ≡ key_codes_of (map (string_at w₁.params.buffer) ts))
          × (w' ≡ record w₁ { events = w'.events }))
        (key_loop (stored 0 ts (λ _. none)) (length ts) 0 w₁)
        (key_loop-key_codes_of (stored 0 ts (λ _. none)) ts 0 w₁
          (λ k o e. stored_at 0 k ts (λ _. none) e)) in
    ground (
      arith,
      snprintf_format_plain 20 arg plain,
      get_tokens_plain cut b',' w cut_plain short,
      store_tokens-stored max_ioevt 0 ts (λ _. none) found.1,
      f,
      q.0,
      q.1,
      found.0,
      found.1,
    )
