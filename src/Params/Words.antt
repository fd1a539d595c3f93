-- ===== src/Params/Words.antt =====
-- What a command line leaves for its handler: the parameters are the words of the line.
use auto_test_tools.Base.{
  ℕ, zero, suc, ◌+◌, ◌≡◌, ◌≤◌, ◌<◌, refl, sym, ap, ◌∙◌, List, [], ◌∷◌, Option, some, arith, length,
  get_elem?, take, map, lt→ltb, All-take, take_all, length-map, get_elem?-map, length-take_le,
}
use auto_test_tools.Base.Int.{sub_ℕ}
use auto_test_tools.CString.Compare.{Bytes}
use auto_test_tools.CString.Format.{IsPlain, IsText, bounded, snprintf_format_plain}
use auto_test_tools.CString.Tokens.{string_at, token_loop, words}
use auto_test_tools.CString.Words.{token_loop-words}
use auto_test_tools.Params.{get_tokens, token_num, store_tokens, parse_line, param}
use auto_test_tools.World.Array.{update}
use auto_test_tools.World.Monad.{◌>>=◌}
use auto_test_tools.World.State.{World, max_token, max_sc_content}

-- The array after the stores.
abbrev pub stored : ℕ → List ℕ → (ℕ → Option ℕ) → ℕ → Option ℕ
stored i [] argv = argv
stored i (t ∷ ts) argv = stored (i + 1) ts (update argv i (some t))

pub store_tokens-stored :
    (size i : ℕ) (ts : List ℕ) (argv : ℕ → Option ℕ)
    → i + length ts ≤ size
    → store_tokens size i ts argv ≡ some (stored i ts argv)
unfolding store_tokens
store_tokens-stored size i [] argv h = refl
store_tokens-stored size i (t ∷ ts) argv h =
    rw (lt→ltb i size (omega arith)) (store_tokens-stored size (i + 1) ts _ (omega arith))

stored_before : (i j : ℕ) (ts : List ℕ) (argv : ℕ → Option ℕ) → j < i → stored i ts argv j ≡ argv j
stored_before i j [] argv h = refl
stored_before i j (t ∷ ts) argv h =
    stored_before (i + 1) j ts (update argv i (some t)) (omega arith) ∙ ground arith

pub stored_at :
    (i k : ℕ) (ts : List ℕ) (argv : ℕ → Option ℕ) {t : ℕ}
    → get_elem? ts k ≡ some t
    → stored i ts argv (i + k) ≡ some t
stored_at i k [] argv e = cc
stored_at i zero (x ∷ ts) argv {t} e =
    stored_before (i + 1) (i + 0) ts (update argv i (some x)) (omega arith) ∙ ground arith
stored_at i (suc k) (x ∷ ts) argv {t} e =
    let same : i + suc k ≡ i + 1 + k = omega arith in
    rw same (stored_at (i + 1) k ts (update argv i (some x)) e)

pub param_at :
    (w : World) (i : ℕ) {o : ℕ}
    → w.params.argv i ≡ some o
    → param i w ≡ some (string_at w.params.buffer o, w)
unfolding param
param_at w i e = rw (e, param)

-- A text with no `%` that fits the buffer is cut into tokens as it stands.
pub get_tokens_plain :
    (str : Bytes) (d : ℕ) (w : World)
    → IsPlain str
    → length str ≤ 255
    → let (ts, buffer) = token_loop max_token d [] str in
      get_tokens str d w ≡ some (ts, record w { params = record w.params { buffer = buffer } })
unfolding get_tokens
get_tokens_plain str d w plain h =
    rw (snprintf_format_plain max_sc_content str plain ∙ ap some (take_all 255 str h))

-- The state behind a command line.
module _ (line : Bytes) (plain : IsPlain line) (text : IsText line) (w : World) where
  abbrev tokens : List ℕ × Bytes
  tokens = token_loop max_token b' ' [] (bounded max_sc_content line)

  abbrev line_words : List Bytes
  line_words = take max_token (words b' ' (bounded max_sc_content line))

  abbrev parsed : World
  parsed = record w {
    params = record {
      buffer = tokens.1;
      argv = stored 0 tokens.0 w.params.argv;
      param_num = token_num tokens.0;
    };
  }

  tokens-line_words : map (string_at tokens.1) tokens.0 ≡ line_words
  tokens-line_words =
      token_loop-words b' ' max_token [] (bounded max_sc_content line)
        (All-take (λ c. 0 < c) 255 line text)

  length-tokens : length tokens.0 ≡ length line_words
  length-tokens = sym (length-map (string_at tokens.1) tokens.0) ∙ ap length tokens-line_words

  few : 0 + length tokens.0 ≤ max_token
  few =
      omega
        (arith, length-tokens, length-take_le max_token (words b' ' (bounded max_sc_content line)))

  parse_line-parsed : parse_line line w ≡ some (tt, parsed)
  unfolding parse_line
  parse_line-parsed =
      rw (snprintf_format_plain max_sc_content line plain)
        (rw (store_tokens-stored max_token 0 tokens.0 w.params.argv few, ◌>>=◌))

  param-parsed :
      (i : ℕ) {x : Bytes} → get_elem? line_words i ≡ some x → param i parsed ≡ some (x, parsed)
  param-parsed i {x} e =
      let (o, at_i, reads) =
        get_elem?-map (string_at tokens.1) tokens.0 i
          (ap (λ (l : List Bytes). get_elem? l i) tokens-line_words ∙ e) in
      let stored_o : stored 0 tokens.0 w.params.argv (0 + i) ≡ some o =
        stored_at 0 i tokens.0 w.params.argv at_i in
      let same : 0 + i ≡ i = omega arith in
      param_at parsed i {o = o} (rw same at stored_o) ∙ rw reads

-- After a line with no `%`, cut to 255 bytes, `gParamNum` is one less than the number of its words
-- (15 at most count), each word is read through its pointer, and nothing but the parameters changed.
pub parse_line-words :
    (line : Bytes) (w : World)
    → IsPlain line
    → IsText line
    → let ws = take max_token (words b' ' (bounded max_sc_content line)) in
      (w' : World) × (parse_line line w ≡ some (tt, w'))
      × (w' ≡ record w { params = w'.params })
      × (w'.params.param_num ≡ sub_ℕ (length ws) 1)
      × ((i : ℕ) (x : Bytes) → get_elem? ws i ≡ some x → param i w' ≡ some (x, w'))
parse_line-words line w plain text = (
  parsed line plain text w,
  parse_line-parsed line plain text w,
  refl,
  ap (λ (n : ℕ). sub_ℕ n 1) (length-tokens line plain text w),
  λ i x e. param-parsed line plain text w i e,
)
