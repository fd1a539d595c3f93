-- ===== src/Script/Cut.antt =====
-- core/src/at_cmdProc.c: the loops over `fgets` see the whole file, cut into its lines, and what
-- `cpScriptContentToArray` does with it.
use auto_test_tools.Base.{
  ℕ, zero, suc, ◌≡◌, ◌≤◌, ◌<◌, ◌⊎◌, refl, ap, ◌∙◌, length-append, false, List, [], ◌∷◌, ◌++◌, arith,
  length, leb, some, none, if◌then◌else◌, ◌==◌, ==_iff, Bool-cases, inl, inr,
}
use auto_test_tools.CString.Compare.{Bytes}
use auto_test_tools.Script.Load.{
  take_line, lines_on, file_lines, commands, cp_script_content, max_sc_line,
}
use auto_test_tools.Script.Rows.{complaints, cp_script_content-commands}
use auto_test_tools.World.State.{World}

-- No newline but at the end.
abbrev pub Unbroken : Bytes → Type 0
Unbroken [] = Unit
Unbroken (c ∷ []) = Unit
Unbroken (c ∷ d ∷ line) = ((c == b'\n') ≡ false) × Unbroken (d ∷ line)

-- What one call of `fgets` can read.
abbrev pub IsLine : Bytes → Type 0
IsLine line = (0 < length line) × (length line ≤ 255) × Unbroken line

-- The call has stopped before the end of the file.
abbrev pub IsFull : ℕ → Bytes → Type 0
IsFull room line = (length line ≡ room) ⊎ ((begin : Bytes) × (line ≡ begin ++ b'\n' ∷ []))

-- Every line but the last is full.
abbrev pub Cut : List Bytes → Type 0
Cut [] = Unit
Cut (line ∷ []) = IsLine line
Cut (line ∷ next ∷ lines) = IsLine line × IsFull 255 line × Cut (next ∷ lines)

abbrev pub concat : List Bytes → Bytes
concat [] = []
concat (line ∷ lines) = line ++ concat lines

Unbroken-∷ : (c : ℕ) (line : Bytes) → (c == b'\n') ≡ false → Unbroken line → Unbroken (c ∷ line)
Unbroken-∷ c [] n u = tt
Unbroken-∷ c (d ∷ line) n u = (n, u)

take_line-concat :
    (room : ℕ) (text : Bytes) → (take_line room text).0 ++ (take_line room text).1 ≡ text
unfolding take_line
take_line-concat zero text = refl
take_line-concat (suc room) [] = refl
take_line-concat (suc room) (c ∷ text) = elim (Bool-cases (c == b'\n')) [
  | inl e ↦ rw e refl
  | inr n ↦ rw n (ap (◌∷◌ c) (take_line-concat room text))
]

take_line-Unbroken : (room : ℕ) (text : Bytes) → Unbroken (take_line room text).0
unfolding take_line
take_line-Unbroken zero text = tt
take_line-Unbroken (suc room) [] = tt
take_line-Unbroken (suc room) (c ∷ text) = elim (Bool-cases (c == b'\n')) [
  | inl e ↦ rw e tt
  | inr n ↦ rw n (Unbroken-∷ c (take_line room text).0 n (take_line-Unbroken room text))
]

length-take_line : (room : ℕ) (text : Bytes) → length (take_line room text).0 ≤ room
unfolding take_line
length-take_line zero text = omega arith
length-take_line (suc room) [] = omega arith
length-take_line (suc room) (c ∷ text) = elim (Bool-cases (c == b'\n')) [
  | inl e ↦ rw e (omega arith)
  | inr n ↦ rw n (omega (arith, length-take_line room text))
]

-- The call takes a byte if there is one.
take_line-takes : (room c : ℕ) (text : Bytes) → 0 < length (take_line (suc room) (c ∷ text)).0
unfolding take_line
take_line-takes room c text = elim (Bool-cases (c == b'\n')) [
  | inl e ↦ rw e (omega arith)
  | inr n ↦ rw n (omega arith)
]

take_line-stops :
    (room : ℕ) (text : Bytes) → ((take_line room text).1 ≡ []) ⊎ IsFull room (take_line room text).0
unfolding take_line
take_line-stops zero text = inr (inl refl)
take_line-stops (suc room) [] = inl refl
take_line-stops (suc room) (c ∷ text) = elim (Bool-cases (c == b'\n')) [
  | inl e ↦ rw e (inr (inr ([], ap (λ x. x ∷ []) ((==_iff c b'\n').0 e))))
  | inr n ↦ rw n (elim (take_line-stops room text) [
    | inl e ↦ inl e
    | inr (inl e) ↦ inr (inl (ap suc e))
    | inr (inr (k, e)) ↦ inr (inr (c ∷ k, ap (◌∷◌ c) e))
  ])
]

-- A line is put before what was read behind it.
Cut-∷ :
    (line : Bytes) (lines : List Bytes)
    → IsLine line
    → (lines ≡ []) ⊎ IsFull 255 line
    → Cut lines
    → Cut (line ∷ lines)
Cut-∷ line [] ok full cut = ok
Cut-∷ line (next ∷ lines) ok (inl e) cut = cc
Cut-∷ line (next ∷ lines) ok (inr full) cut = (ok, full, cut)

lines_on-empty : (fuel : ℕ) (text : Bytes) → text ≡ [] → lines_on fuel text ≡ []
unfolding lines_on
lines_on-empty zero text e = refl
lines_on-empty (suc fuel) text e = rw e refl

-- The rest of a file is shorter.
rest-shorter :
    (c : ℕ) (text : Bytes) (fuel : ℕ)
    → suc (length text) ≤ suc fuel
    → length (take_line 255 (c ∷ text)).1 ≤ fuel
rest-shorter c text fuel h = omega (
  arith,
  take_line-takes 254 c text,
  length-append (take_line 255 (c ∷ text)).0 (take_line 255 (c ∷ text)).1,
  ap length (take_line-concat 255 (c ∷ text)),
)

lines_on-Cut :
    (fuel : ℕ) (text : Bytes)
    → length text ≤ fuel
    → (concat (lines_on fuel text) ≡ text) × Cut (lines_on fuel text)
unfolding lines_on
lines_on-Cut zero [] h = (refl, tt)
lines_on-Cut zero (c ∷ text) h = absurd (omega arith)
lines_on-Cut (suc fuel) [] h = (refl, tt)
lines_on-Cut (suc fuel) (c ∷ text) h =
    let (line, rest) = take_line 255 (c ∷ text) in
    let (whole, cut) = lines_on-Cut fuel rest (rest-shorter c text fuel h) in
    (
      ap (λ t. line ++ t) whole ∙ take_line-concat 255 (c ∷ text),
      Cut-∷ line (lines_on fuel rest)
          (
            take_line-takes 254 c text,
            length-take_line 255 (c ∷ text),
            take_line-Unbroken 255 (c ∷ text),
          )
          (elim (take_line-stops 255 (c ∷ text)) [
            | inl e ↦ inl (lines_on-empty fuel rest e)
            | inr full ↦ inr full
          ])
          cut,
    )

-- The lines that the loops over `fgets` see are the whole text of the file, in order and nothing lost:
-- each line has from 1 to 255 bytes and no newline but at its end, and each but the last ends with a
-- newline or has 255 bytes. So the loops come to the end of every file.
file_lines-Cut : (text : Bytes) → (concat (file_lines text) ≡ text) × Cut (file_lines text)
unfolding file_lines
file_lines-Cut text = lines_on-Cut (length text) text (omega arith)

-- `cpScriptContentToArray` goes through the whole text of the file: there are lines that, put together in
-- order, are the text, each of 1 to 255 bytes with no newline but at its end, and each but the last
-- ended by a newline or 255 bytes long, so that it stores the command of every one of these lines that
-- holds one, in order, prints a message for every one that is bad, and changes nothing else; with
-- more than 500 commands it is undefined.
pub cp_script_content-Cut :
    (text : Bytes) (w : World)
    → (lines : List Bytes) × (concat lines ≡ text)
      × Cut lines
      × (cp_script_content text w ≡ (
          if leb (length (commands lines)) max_sc_line
          then some (commands lines, record w { events = complaints lines w.events })
          else none))
cp_script_content-Cut text w =
    let (whole, cut) = file_lines-Cut text in
    (file_lines text, whole, cut, cp_script_content-commands text w)
