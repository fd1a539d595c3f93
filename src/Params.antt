-- ===== src/Params.antt =====
-- core/src/at_cmdProc.c: `getTokens`, whose static buffer `gCmdParam` points into, and the reading of
-- a parameter. A pointer of an earlier command stays in `gCmdParam` and reads the present buffer.
pub mod Words
use auto_test_tools.Base.{
  ℕ, zero, suc, ◌+◌, List, [], ◌∷◌, Option, none, some, length, ltb, if◌then◌else◌,
}
use auto_test_tools.Base.Int.{ℤ, pos, sub_ℕ}
use auto_test_tools.CString.Compare.{Bytes}
use auto_test_tools.CString.Format.{snprintf_format}
use auto_test_tools.CString.Number.{atoi}
use auto_test_tools.CString.Tokens.{string_at, token_loop}
use auto_test_tools.World.Array.{update}
use auto_test_tools.World.Monad.{M, Void, ◌>>=◌, ◌>>◌, pure, defined, gets, modify}
use auto_test_tools.World.State.{World, Params, max_token, max_sc_content}

-- `getTokens(inStr, delim, …)` with a delimiter of one byte: the offsets that it stores. It returns
-- one less than their number.
unfoldable pub get_tokens : Bytes → ℕ → M (List ℕ)
get_tokens str d = do
  tmp ← defined (snprintf_format max_sc_content str)
  let cut = token_loop max_token d [] tmp
  modify (λ w. record w { params = record w.params { buffer = cut.1 } })
  pure cut.0

abbrev pub token_num : List ℕ → ℤ
token_num ts = sub_ℕ (length ts) 1

-- `pArgv[numOfToken] = t` for each token, from index `i` on, in an array of `size` pointers.
unfoldable pub store_tokens : ℕ → ℕ → List ℕ → (ℕ → Option ℕ) → Option (ℕ → Option ℕ)
store_tokens size i [] argv = some argv
store_tokens size i (t ∷ ts) argv =
    let rest = store_tokens size (i + 1) ts (update argv i (some t)) in
    if ltb i size then rest else none

-- `gParamNum = getTokens(cmdLine, C_SPACE, gCmdParam)`
unfoldable pub parse_line : Bytes → M Void
unfolding get_tokens store_tokens
parse_line line = do
  modify (λ w. record w { params = record w.params { param_num = pos 0 } })
  ts ← get_tokens line b' '
  old ← gets (λ w. w.params.argv)
  argv ← defined (store_tokens max_token 0 ts old)
  modify (λ w. record w { params = record w.params { argv = argv; param_num = token_num ts } })

-- The text that `gCmdParam[i]` points to; undefined for NULL.
unfoldable pub param : ℕ → M Bytes
param i w = elim (w.params.argv i) [ none ↦ none | some o ↦ some (string_at w.params.buffer o, w) ]

-- `atoi(gCmdParam[i])`
unfoldable pub param_number : ℕ → M ℤ
unfolding param
param_number i = do text ← param i; defined (atoi text)

-- `gCmdParam[i]` as a pointer that is passed on: `none` for NULL.
unfoldable pub param_pointer : ℕ → M (Option Bytes)
param_pointer i w =
    some (elim (w.params.argv i) [ none ↦ none | some o ↦ some (string_at w.params.buffer o) ], w)

abbrev pub param_num : M ℤ
param_num = gets (λ w. w.params.param_num)
