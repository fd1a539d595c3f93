-- ===== src/Script/Plain.antt =====
-- core/src/at_cmdProc.c: what a script without loops runs.
use auto_test_tools.Base.{
  ℕ, zero, suc, ◌+◌, ◌≡◌, ◌≤◌, ◌<◌, refl, ap, ◌∙◌, Bool, true, false, List, [], ◌∷◌, Option, none,
  some, All, arith, length, leb, ltb, ◌==◌, get_elem?, Option-cases, inl, inr,
}
use auto_test_tools.Base.Int.{ℤ}
use auto_test_tools.CString.Compare.{Bytes, codes}
use auto_test_tools.Commands.Threads.{set_script_thread_id}
use auto_test_tools.Script.Load.{max_sc_line, cp_script_content, commands, file_lines}
use auto_test_tools.Script.Loops.{Holds, exec_all}
use auto_test_tools.Script.Rows.{complaints, cp_script_content-commands}
use auto_test_tools.Script.Run.{row_at, begins_with, run_rows, run_file}
use auto_test_tools.World.Monad.{M, Void, ◌>>=◌, ◌>>◌}
use auto_test_tools.World.State.{World, Os}

abbrev pub IsPlainRow : Bytes → Type 0
IsPlainRow row = begins_with (codes "loop") row ≡ false

Holds-get_elem? :
    (rows block : List Bytes) (i : ℕ)
    → ((j : ℕ) → get_elem? rows (i + j) ≡ get_elem? block j)
    → i + length block ≤ max_sc_line
    → Holds rows i block
unfolding row_at
Holds-get_elem? rows [] i same h = tt
Holds-get_elem? rows (x ∷ block) i same h =
    let inside : ltb i max_sc_line ≡ true = ground arith in
    let here : get_elem? rows i ≡ some x = ap (get_elem? rows) (omega arith) ∙ same 0 in
    (
      rw inside (rw here refl),
      Holds-get_elem? rows block (i + 1) (λ j. ap (get_elem? rows) (omega arith) ∙ same (suc j))
          (omega arith),
    )

-- To run some commands and then the rest.
returns : Option (Void × World) → Option (Bool × World)
returns none = none
returns (some (_, w)) = some (true, w)

module _ (exec : Bytes → M Void) (rows : List Bytes) (script_num : ℤ) where
  run_rows-plain :
      (fuel i : ℕ) (block : List Bytes) (start : Option ℕ) (w : World)
      → Holds rows i block
      → i + length block ≡ length rows
      → All IsPlainRow block
      → length block < fuel
      → run_rows exec rows script_num fuel i start w ≡ returns (exec_all exec block w)
  unfolding run_rows exec_all returns
  run_rows-plain zero i block start w h e p l = absurd (omega arith)
  run_rows-plain (suc fuel) i [] start w h e p l =
      let over : leb (length rows) i ≡ true = ground arith in rw (over, run_rows) refl
  run_rows-plain (suc fuel) i (x ∷ block) start w h e p l =
      let more : leb (length rows) i ≡ false = ground arith in
      rw (more, run_rows)
        (rw (h.0, ◌>>=◌)
          (rw p.0 (elim (Option-cases (exec x w)) [
            | inl f ↦ rw (f, ◌>>=◌) refl
            | inr (r, f) ↦
                rw (f, ◌>>=◌)
                  (run_rows-plain fuel (i + 1) block start r.1 h.1 (omega (arith, e)) p.1
                    (omega arith))
          ])))

-- A script whose file holds from 1 to 500 commands and no row `loop` prints a message for each line of the
-- file that is bad, then runs each of its commands once, in the order of the file, and then clears the
-- id of its thread; where a command is undefined, so is the script.
pub run_file-plain :
    (os : Os) (exec : Bytes → M Void) (script_num : ℤ) (text : Bytes) (rows : List Bytes)
    (w : World)
    → commands (file_lines text) ≡ rows
    → 0 < length rows
    → length rows ≤ max_sc_line
    → All IsPlainRow rows
    → run_file os exec script_num text w
      ≡ (exec_all exec rows >> set_script_thread_id script_num 0)
          (record w { events = complaints (file_lines text) w.events })
unfolding run_file returns
run_file-plain os exec script_num text rows w e filled fits plain =
    let v : World = record w { events = complaints (file_lines text) w.events } in
    let some_row : (length rows == 0) ≡ false = ground arith in
    let few : leb (length rows) max_sc_line ≡ true = ground arith in
    let loaded : cp_script_content text w ≡ some (rows, v) =
      cp_script_content-commands text w ∙ rw e (rw few refl) in
    let holds : Holds rows 0 rows =
      Holds-get_elem? rows rows 0 (λ j. ap (get_elem? rows) (omega arith)) (omega arith) in
    let runs =
      run_rows-plain exec rows script_num (length rows + 1) 0 rows none v holds (omega arith) plain
        (omega arith) in
    rw (loaded, ◌>>=◌)
      (rw some_row (
        rw (runs, ◌>>=◌)
          (elim (Option-cases (exec_all exec rows v)) [
            | inl f ↦ rw (f, ◌>>◌, ◌>>=◌) refl
            | inr (r, f) ↦ rw (f, ◌>>◌, ◌>>=◌) refl
          ])))
