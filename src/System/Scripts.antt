-- ===== src/System/Scripts.antt =====
-- `scriptCmdProcess` keeps every invariant that the rows of its file keep and that the counts of the
-- rounds do not break.
use auto_test_tools.Base.{
  ℕ, zero, suc, ◌+◌, ◌-◌, Bool, true, false, List, [], ◌∷◌, Option, none, some, length, leb, ◌==◌,
  if◌then◌else◌,
}
use auto_test_tools.Base.Int.{ℤ, pos}
use auto_test_tools.CString.Compare.{Bytes, codes}
use auto_test_tools.Commands.Framed.{Keeps-param_number}
use auto_test_tools.Commands.Framed.Threads.{Keeps-set_script_thread_id}
use auto_test_tools.Script.Load.{
  max_sc_line, cp_lines, cp_script_content, file_lines, skipped, before_semicolon,
}
use auto_test_tools.CString.Tokens.{c_string}
use auto_test_tools.Script.Run.{
  row_at, begins_with, loop_count, find_end, exec_rows, rounds, run_loop, run_rows, run_file,
  script_cmd_process, count_round, set_count_of_script_run,
}
use auto_test_tools.World.Array.{fetch}
use auto_test_tools.World.Keeps.{
  Leaves-elim-Bool, Keeps, Frame, Keeps-emit, Keeps-bind, Keeps-elim, Keeps-elim-ℤ, Keeps-elim-Bool,
  Keeps-if, Keeps-pure, Keeps-gets, Keeps-defined, keeps_rules,
}
use auto_test_tools.World.Monad.{M, Void, ◌>>=◌, ◌>>◌, defined, pure, say}
use auto_test_tools.World.State.{World, Os, printed, max_script_thread}

module _ {P : World → Type 0} (frame : Frame P) (exec : Bytes → M Void)
    (kept : (line : Bytes) → Keeps P (exec line))
    (counted : (n : ℤ) → Keeps P (count_round n)) where
  Keeps-exec_rows : (rows : List Bytes) (n index : ℕ) → Keeps P (exec_rows exec rows n index)
  unfolding exec_rows
  Keeps-exec_rows rows zero index = Keeps-pure tt
  Keeps-exec_rows rows (suc n) index = Keeps-bind _ _ (Keeps-defined (row_at rows index)) (λ row.
      Keeps-bind _ (λ _. exec_rows exec rows n (index + 1)) (kept row)
        (λ _. Keeps-exec_rows rows n (index + 1)))

  module _ (rows : List Bytes) (script_num : ℤ) where
    Keeps-rounds : (n first stop : ℕ) → Keeps P (rounds exec rows script_num n first stop)
    unfolding rounds
    Keeps-rounds zero first stop = Keeps-pure tt
    Keeps-rounds (suc n) first stop = Keeps-if (leb stop first) _ _ (Keeps-pure tt) (
        Keeps-bind _ (λ _. count_round script_num >> rounds exec rows script_num n first stop)
          (Keeps-exec_rows rows (stop - first) first)
          (λ _.
            Keeps-bind _ (λ _. rounds exec rows script_num n first stop) (counted script_num)
              (λ _. Keeps-rounds n first stop)))

    abbrev no_times : M (Option (Option ℕ × ℕ))
    no_times = do say "please spacify loop times!\n" []; pure none

    Keeps-no_times : Keeps P no_times
    Keeps-no_times =
        Keeps-bind _ (λ _. pure none) (Keeps-emit frame (printed "please spacify loop times!\n" []))
          (λ _. Keeps-pure none)

    Keeps-loop_times :
        (index : ℕ) (start : Option ℕ) (k : ℕ)
        → Keeps P (
            if k == 0 then no_times else do
              found ← defined (find_end rows max_sc_line (index + 1) start)
              first ← defined found.0
              rounds exec rows script_num k first found.1
              pure (some (found.0, found.1 + 1)))
    Keeps-loop_times index start k = Keeps-if (k == 0) _ _ Keeps-no_times (
        Keeps-bind _ _ (Keeps-defined (find_end rows max_sc_line (index + 1) start)) (λ found.
          Keeps-bind _ _ (Keeps-defined found.0) (λ first.
            Keeps-bind _ (λ _. pure (some (found.0, found.1 + 1))) (Keeps-rounds k first found.1)
              (λ _. Keeps-pure _))))

    Keeps-run_loop :
        (index : ℕ) (start : Option ℕ) (row : Bytes)
        → Keeps P (run_loop exec rows script_num index start row)
    unfolding run_loop
    Keeps-run_loop index start row =
        Keeps-bind _ _ (Keeps-defined (loop_count row))
          (λ times. Keeps-elim-ℤ times _ _ (Keeps-loop_times index start) (λ _. Keeps-no_times))

    -- Behind a row `loop`.
    Keeps-goes_on :
        (fuel : ℕ)
        → ((index : ℕ) (start : Option ℕ)
            → Keeps P (run_rows exec rows script_num fuel index start))
        → (next : Option (Option ℕ × ℕ))
        → Keeps P (elim next as (λ _. M Bool) [
          | none ↦ pure false
          | some (start', i) ↦ run_rows exec rows script_num fuel i start'
        ])
    Keeps-goes_on fuel k none = Keeps-pure false
    Keeps-goes_on fuel k (some (start', i)) = k i start'

    Keeps-run_rows :
        (fuel index : ℕ) (start : Option ℕ)
        → Keeps P (run_rows exec rows script_num fuel index start)
    unfolding run_rows
    Keeps-run_rows zero index start = record { at = λ w h. tt }
    Keeps-run_rows (suc fuel) index start = record {
      at = λ w h. Leaves-elim-Bool P (leb (length rows) index) (some (true, w)) _ h (
          (Keeps-bind _ _ (Keeps-defined (row_at rows index)) (λ row.
              Keeps-elim-Bool (begins_with (codes "loop") row) _ _
                (Keeps-bind _ _ (Keeps-run_loop index start row)
                  (Keeps-goes_on fuel (Keeps-run_rows fuel)))
                (Keeps-bind _ (λ _. run_rows exec rows script_num fuel (index + 1) start) (kept row)
                  (λ _. Keeps-run_rows fuel (index + 1) start)))).at
            w h);
    }

  Keeps-cp_lines : (lines : List Bytes) (index : ℕ) → Keeps P (cp_lines lines index)
  unfolding cp_lines
  Keeps-cp_lines [] index = Keeps-pure []
  Keeps-cp_lines (line ∷ lines) index =
      Keeps-elim-Bool (skipped (c_string line)) _ _ (Keeps-cp_lines lines index) (
        Keeps-elim (before_semicolon (c_string line)) _ _
          (Keeps-bind _ (λ _. cp_lines lines index) (Keeps-emit frame (printed "parse error!\n" []))
            (λ _. Keeps-cp_lines lines index))
          (λ command. Keeps-bind _ _ (Keeps-defined _) (λ row.
            Keeps-bind _ _ (Keeps-cp_lines lines (index + 1)) (λ rows. Keeps-pure (row ∷ rows)))))

  Keeps-cp_script_content : (text : Bytes) → Keeps P (cp_script_content text)
  unfolding cp_script_content
  Keeps-cp_script_content text = Keeps-cp_lines (file_lines text) 0

  Keeps-run_file :
      (os : Os) (script_num : ℤ) (text : Bytes) → Keeps P (run_file os exec script_num text)
  unfolding run_file
  Keeps-run_file os script_num text =
      search
        (
          keeps_rules,
          Keeps-cp_script_content,
          Keeps-emit frame,
          Keeps-run_rows,
          Keeps-set_script_thread_id frame,
        )
        depth 10

  pub Keeps-script_cmd_process :
      (os : Os)
      → ((n value : ℤ) → Keeps P (set_count_of_script_run n value))
      → Keeps P (script_cmd_process os exec)
  unfolding script_cmd_process
  Keeps-script_cmd_process os set = Keeps-bind _ _ (Keeps-param_number frame 1) (λ n.
      Keeps-bind _ _ (set n (pos 0)) (λ _.
        Keeps-bind _ _ (Keeps-gets (λ w. w.scripts.names)) (λ names.
          Keeps-bind _ _ (Keeps-defined (fetch max_script_thread names n)) (λ name.
            Keeps-elim (os.file name) _ _
              (search (keeps_rules, Keeps-emit frame, Keeps-set_script_thread_id frame))
              (Keeps-run_file os n)))))
