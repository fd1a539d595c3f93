-- ===== src/Script/Rows.antt =====
-- core/src/at_cmdProc.c: what `cpScriptContentToArray` stores and prints.
use auto_test_tools.Base.{
  ℕ, suc, ◌+◌, ◌≡◌, ◌≤◌, ◌<◌, refl, Bool, true, false, List, [], ◌∷◌, none, some, arith, length,
  ltb, leb, if◌then◌else◌, Bool-cases, Option-cases, inl, inr,
}
use auto_test_tools.CString.Compare.{Bytes}
use auto_test_tools.CString.Tokens.{c_string}
use auto_test_tools.Script.Load.{
  max_sc_line, cp_lines, cp_script_content, commands, file_lines, line_command, skipped,
  before_semicolon,
}
use auto_test_tools.World.Monad.{◌>>=◌}
use auto_test_tools.World.State.{World, Event, printed}

-- A line that is neither skipped nor holds a command.
abbrev pub is_bad : Bytes → Bool
is_bad line = elim (skipped (c_string line)) [
  | true ↦ false
  | false ↦ elim (before_semicolon (c_string line)) [ none ↦ true | some _ ↦ false ]
]

-- The messages for the lines that are bad, newest first.
abbrev pub complaints : List Bytes → List Event → List Event
complaints [] events = events
complaints (line ∷ lines) events =
    complaints lines (if is_bad line then printed "parse error!\n" [] ∷ events else events)

cp_lines-commands :
    (lines : List Bytes) (index : ℕ) (w : World)
    → index + length (commands lines) ≤ max_sc_line
    → cp_lines lines index w
      ≡ some (commands lines, record w { events = complaints lines w.events })
unfolding cp_lines commands line_command
cp_lines-commands [] index w h = refl
cp_lines-commands (line ∷ lines) index w h = elim (Bool-cases (skipped (c_string line))) [
  | inl s ↦
      let good : is_bad line ≡ false = rw (s, is_bad) refl in
      rw (s, cp_lines, commands, line_command)
        (rw good (cp_lines-commands lines index w (rw (s, commands, line_command) at h)))
  | inr n ↦ elim (Option-cases (before_semicolon (c_string line))) [
    | inl e ↦
        let bad : is_bad line ≡ true = rw (n, is_bad) (rw e refl) in
        rw (n, cp_lines, commands, line_command)
          (rw e (
            rw bad (
              cp_lines-commands lines index
                (record w { events = printed "parse error!\n" [] ∷ w.events })
                (rw (n, e, commands, line_command) at h))))
    | inr (command, e) ↦
        let room : index + suc (length (commands lines)) ≤ max_sc_line =
          rw (n, e, commands, line_command) at h in
        let inside : ltb index max_sc_line ≡ true = ground arith in
        let good : is_bad line ≡ false = rw (n, is_bad) (rw e refl) in
        rw (n, cp_lines, commands, line_command)
          (rw e (
            rw good
              (rw inside (rw (cp_lines-commands lines (index + 1) w (omega arith), ◌>>=◌) refl))))
  ]
]

-- One row too many is written behind the array.
cp_lines-overflow :
    (lines : List Bytes) (index : ℕ) (w : World)
    → index ≤ max_sc_line
    → max_sc_line < index + length (commands lines)
    → cp_lines lines index w ≡ none
unfolding cp_lines commands line_command
cp_lines-overflow [] index w l h = absurd (omega arith)
cp_lines-overflow (line ∷ lines) index w l h = elim (Bool-cases (skipped (c_string line))) [
  | inl s ↦
      rw (s, cp_lines, commands, line_command)
        (cp_lines-overflow lines index w l (rw (s, commands, line_command) at h))
  | inr n ↦ elim (Option-cases (before_semicolon (c_string line))) [
    | inl e ↦
        rw (n, cp_lines, commands, line_command)
          (rw e (
            cp_lines-overflow lines index
              (record w { events = printed "parse error!\n" [] ∷ w.events }) l
              (rw (n, e, commands, line_command) at h)))
    | inr (command, e) ↦ elim (Bool-cases (ltb index max_sc_line)) [
      | inl inside ↦
          let more : max_sc_line < index + suc (length (commands lines)) =
            rw (n, e, commands, line_command) at h in
          rw (n, cp_lines, commands, line_command)
            (rw e (
              rw inside (
                rw (cp_lines-overflow lines (index + 1) w (ground arith) (omega arith), ◌>>=◌)
                  refl)))
      | inr full ↦ rw (n, cp_lines, commands, line_command) (rw e (rw full refl))
    ]
  ]
]

-- `cpScriptContentToArray` fills one row, in the order of the file, for each line that holds a command, and
-- prints one message for each line that is bad, if there are at most 500 commands; with more it writes
-- behind the array. Nothing else changes.
pub cp_script_content-commands :
    (text : Bytes) (w : World)
    → cp_script_content text w ≡ (
        if leb (length (commands (file_lines text))) max_sc_line
        then some (
          commands (file_lines text),
          record w { events = complaints (file_lines text) w.events },
        )
        else none)
unfolding cp_script_content
cp_script_content-commands text w =
    elim (Bool-cases (leb (length (commands (file_lines text))) max_sc_line)) [
      | inl fits ↦ rw fits (cp_lines-commands (file_lines text) 0 w (ground arith))
      | inr over ↦ rw over (cp_lines-overflow (file_lines text) 0 w (omega arith) (ground arith))
    ]
