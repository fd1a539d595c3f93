-- ===== src/Script/Load.antt =====
-- core/src/at_cmdProc.c: `fgets` as the program calls it, `cpScriptContentToArray`, and the same loop
-- over the lines of a configuration file in `autoConfig`.
use auto_test_tools.Base.{
  ℕ, zero, suc, ◌+◌, Bool, true, false, ◌||◌, List, [], ◌∷◌, Option, none, some, length, ltb, ◌==◌,
  if◌then◌else◌,
}
use auto_test_tools.Base.Int.{ℤ, pos, eqb_ℤ}
use auto_test_tools.CString.Compare.{Bytes}
use auto_test_tools.CString.Tokens.{c_string}
use auto_test_tools.Network.{failed, error}
use auto_test_tools.Params.{get_tokens, token_num, store_tokens}
use auto_test_tools.World.Monad.{M, ◌>>=◌, ◌>>◌, pure, defined, say}

abbrev pub max_sc_line : ℕ
max_sc_line = 500

-- `fgets` with room for `room` bytes besides the NUL: the bytes up to a newline, it included, and
-- what is left of the file.
unfoldable pub take_line : ℕ → Bytes → Bytes × Bytes
take_line zero text = ([], text)
take_line (suc room) [] = ([], [])
take_line (suc room) (c ∷ text) =
    let (line, rest) = take_line room text in
    if c == b'\n' then (c ∷ [], text) else (c ∷ line, rest)

-- An open file: its text, and the place where it is read.
pub record File : Type 0 where
  pub text : Bytes
  pub place : ℕ

-- `getFileLength`, which leaves the file at its beginning.
unfoldable pub get_file_length : File → ℕ × File
get_file_length file = (length file.text, record file { place = 0 })

-- What `getCmdContent` returns and stores: the number and the pointers are `none` where nothing is stored.
pub record Content : Type 0 where
  pub ret : ℤ
  pub script_line_num : Option ℤ
  pub script_cmd : Option (ℕ → Option ℕ)

-- `getCmdContent`, for an array of `size` pointers; `none` stands for a NULL.
unfoldable pub get_cmd_content : ℕ → Option Bytes → Option (ℕ → Option ℕ) → M Content
get_cmd_content size none cmd = do
  say "invalid parameter!\n" []
  pure (record { ret = failed; script_line_num = none; script_cmd = none })
get_cmd_content size (some text) none = do
  say "invalid parameter!\n" []
  pure (record { ret = failed; script_line_num = none; script_cmd = none })
get_cmd_content size (some text) (some cmd) = do
  ts ← get_tokens text b';'
  stored ← defined (store_tokens size 0 ts cmd)
  let num = token_num ts
  if eqb_ℤ num error
      then (do
        say "getCmdContent ERROR\n" []
        pure (record { ret = failed; script_line_num = some num; script_cmd = some stored }))
      else pure (record { ret = pos 1; script_line_num = some num; script_cmd = some stored })

-- The lines that the loop over `fgets(…, 256, …)` sees, with fuel for their number.
unfoldable pub lines_on : ℕ → Bytes → List Bytes
lines_on zero text = []
lines_on (suc fuel) [] = []
lines_on (suc fuel) (c ∷ text) =
    let (line, rest) = take_line 255 (c ∷ text) in line ∷ lines_on fuel rest

-- Each line takes at least one byte.
unfoldable pub file_lines : Bytes → List Bytes
file_lines text = lines_on (length text) text

-- `temp[0] == C_POUND || temp[0] == NEWLINE`, on the string that `fgets` left.
unfoldable pub skipped : Bytes → Bool
skipped [] = false
skipped (c ∷ line) = c == b'#' || c == b'\n'

-- The text before the first semicolon, if there is one.
unfoldable pub before_semicolon : Bytes → Option Bytes
before_semicolon [] = none
before_semicolon (c ∷ line) =
    let rest = before_semicolon line in
    if c == b';' then some [] else elim rest [ none ↦ none | some command ↦ some (c ∷ command) ]

-- One line of the loop: the command that it holds, or `none` for a comment and a parse error.
unfoldable pub line_command : Bytes → Option Bytes
unfolding c_string skipped before_semicolon
line_command line = let text = c_string line in if skipped text then none else before_semicolon text

-- The commands of the lines, in order.
unfoldable pub commands : List Bytes → List Bytes
commands [] = []
commands (line ∷ lines) =
    let rest = commands lines in
    elim (line_command line) [ none ↦ rest | some command ↦ command ∷ rest ]

-- The loop of `cpScriptContentToArray`, with `index` rows filled: the rows that it fills. A row behind
-- the last one of the array is undefined.
unfoldable pub cp_lines : List Bytes → ℕ → M (List Bytes)
unfolding c_string skipped before_semicolon
cp_lines [] index = pure []
cp_lines (line ∷ lines) index =
    let text = c_string line in
    elim (skipped text) [
      | true ↦ cp_lines lines index
      | false ↦ elim (before_semicolon text) [
        | none ↦ do say "parse error!\n" []; cp_lines lines index
        | some command ↦ do
          row ← defined (if ltb index max_sc_line then some command else none)
          rows ← cp_lines lines (index + 1)
          pure (row ∷ rows)
      ]
    ]

-- `cpScriptContentToArray`, which returns one less than the number of the rows.
unfoldable pub cp_script_content : Bytes → M (List Bytes)
unfolding cp_lines file_lines
cp_script_content text = cp_lines (file_lines text) 0
