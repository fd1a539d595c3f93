-- ===== src/CString/Tokens.antt =====
-- `strtok` over a buffer, the loop that collects its tokens, and the texts that pointers into the
-- buffer stand for.
use auto_test_tools.Base.{
  ℕ, zero, suc, List, [], ◌∷◌, ◌++◌, Option, none, some, ◌==◌, if◌then◌else◌, drop, length,
}
use auto_test_tools.CString.Compare.{Bytes}

-- The string that a pointer to these cells reads: up to the first NUL. The cells behind the end of
-- the list are zero.
unfoldable pub c_string : Bytes → Bytes
c_string [] = []
c_string (c ∷ cs) = if c == 0 then [] else c ∷ c_string cs

-- The string at an offset of a buffer.
unfoldable pub string_at : Bytes → ℕ → Bytes
unfolding c_string
string_at buffer offset = c_string (drop offset buffer)

-- The leading delimiters, and what stands behind them.
unfoldable pub gap : ℕ → Bytes → Bytes
gap d [] = []
gap d (c ∷ cs) = if c == d then c ∷ gap d cs else []

unfoldable pub after_gap : ℕ → Bytes → Bytes
after_gap d [] = []
after_gap d (c ∷ cs) = if c == d then after_gap d cs else c ∷ cs

-- The bytes up to the next delimiter, and that delimiter with what follows.
unfoldable pub token : ℕ → Bytes → Bytes
token d [] = []
token d (c ∷ cs) = if c == d then [] else c ∷ token d cs

unfoldable pub after_token : ℕ → Bytes → Bytes
after_token d [] = []
after_token d (c ∷ cs) = if c == d then c ∷ cs else after_token d cs

-- What a call of `strtok` leaves: the token's offset, the cells before the pointer that it keeps
-- for the next call, and the cells from there on.
pub record Cut : Type 0 where
  pub offset : ℕ
  pub before : Bytes
  pub rest : Bytes

-- The delimiter that ends the token is overwritten by NUL.
unfoldable pub end_token : Bytes → Bytes → ℕ → Cut
end_token before [] o = record { offset = o; before = before; rest = [] }
end_token before (_ ∷ cs) o = record { offset = o; before = before ++ 0 ∷ []; rest = cs }

unfoldable pub cut_at : ℕ → Bytes → Bytes → Option Cut
cut_at d before [] = none
cut_at d before (c ∷ cs) =
    some (end_token (before ++ token d (c ∷ cs)) (after_token d (c ∷ cs)) (length before))

-- One call of `strtok` with a delimiter of one byte.
unfoldable pub strtok : ℕ → Bytes → Bytes → Option Cut
unfolding cut_at end_token
strtok d before rest = cut_at d (before ++ gap d rest) (after_gap d rest)

-- `while (t && numOfToken < limit) { pArgv[numOfToken++] = t; t = strtok(NULL, delim); }`: the
-- offsets stored, and the buffer at the end. The last call of `strtok` is made also when the limit
-- is reached.
unfoldable pub token_loop : ℕ → ℕ → Bytes → Bytes → List ℕ × Bytes
token_loop zero d before rest = elim (strtok d before rest) [
  | none ↦ ([], before ++ rest)
  | some c ↦ ([], c.before ++ c.rest)
]
token_loop (suc limit) d before rest = elim (strtok d before rest) [
  | none ↦ ([], before ++ rest)
  | some c ↦ let (ts, buffer) = token_loop limit d c.before c.rest in (c.offset ∷ ts, buffer)
]

-- The words of a text, described without a buffer: the pieces between delimiters that are not empty.
unfoldable pub pieces : ℕ → Bytes → Bytes × List Bytes
pieces d [] = ([], [])
pieces d (c ∷ cs) =
    let (first, more) = pieces d cs in if c == d then ([], first ∷ more) else (c ∷ first, more)

unfoldable pub nonempty : List Bytes → List Bytes
nonempty [] = []
nonempty ([] ∷ ps) = nonempty ps
nonempty ((c ∷ p) ∷ ps) = (c ∷ p) ∷ nonempty ps

unfoldable pub words : ℕ → Bytes → List Bytes
unfolding pieces nonempty
words d s = let (first, more) = pieces d s in nonempty (first ∷ more)
