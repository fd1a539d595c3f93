-- ===== src/Script/Run.antt =====
-- core/src/at_cmdProc.c: `scriptCmdProcess`, over the array of commands and the command processor
-- `exec`, which stands for `cmd_proc`.
use auto_test_tools.Base.{
  ℕ, zero, suc, ◌+◌, ◌-◌, Bool, true, false, ◌&&◌, List, [], ◌∷◌, Option, none, some, length, ltb,
  leb, ◌==◌, if◌then◌else◌, get_elem?,
}
use auto_test_tools.Base.Int.{ℤ, pos, negsuc, ltb_ℤ, next_int}
use auto_test_tools.CString.Compare.{Bytes, codes, starts_with}
use auto_test_tools.CString.Number.{atoi}
use auto_test_tools.Commands.Threads.{set_script_thread_id}
use auto_test_tools.Params.{param_number}
use auto_test_tools.Script.Load.{max_sc_line, cp_script_content}
use auto_test_tools.World.Array.{fetch, store}
use auto_test_tools.World.Monad.{M, Void, ◌>>=◌, ◌>>◌, pure, defined, gets, modify, skip, say}
use auto_test_tools.World.State.{Os, max_script_thread}

-- `tolower`
abbrev lower : ℕ → ℕ
lower c = if leb b'A' c && leb c b'Z' then c + 32 else c

lower_all : Bytes → Bytes
lower_all [] = []
lower_all (c ∷ cs) = lower c ∷ lower_all cs

-- `strncasecmp(row, word, strlen(word)) == 0` for a word in lower case.
unfoldable pub begins_with : Bytes → Bytes → Bool
unfolding lower_all starts_with
begins_with word row = starts_with word (lower_all row)

-- `gScriptParam[scriptNum]->scriptCmd[index]`: rows that were not filled are empty, and there are 500.
unfoldable pub row_at : List Bytes → ℕ → Option Bytes
row_at rows index =
    if ltb index max_sc_line
    then elim (get_elem? rows index) [ none ↦ some [] | some row ↦ some row ]
    else none

-- The text behind the first space; none without a space, where the C code goes on from NULL.
unfoldable pub after_space : Bytes → Option Bytes
after_space [] = none
after_space (c ∷ cs) = let rest = after_space cs in if c == b' ' then some cs else rest

-- The number of rounds of a row `loop <n>`: its text is copied into ten bytes.
unfoldable pub loop_count : Bytes → Option ℤ
unfolding after_space
loop_count row = elim (after_space row) [
  | none ↦ none
  | some text ↦ if ltb (length text) 10 then atoi text else none
]

-- The inner `while (1)`: from `index` on, the row behind the last `start` (kept in `start` as the
-- variable `loopStart`, at first not set), and the index of the row `end`.
unfoldable pub find_end : List Bytes → ℕ → ℕ → Option ℕ → Option (Option ℕ × ℕ)
find_end rows zero index start = none
find_end rows (suc fuel) index start = elim (row_at rows index) [
  | none ↦ none
  | some row ↦
      let start' = if begins_with (codes "start") row then some (index + 1) else start in
      elim (begins_with (codes "end") row) [
        | true ↦ some (start', index)
        | false ↦ find_end rows fuel (index + 1) start'
      ]
]

module _ (exec : Bytes → M Void) where
  -- `cmd_proc` on the rows from `index` on.
  unfoldable pub exec_rows : List Bytes → ℕ → ℕ → M Void
  exec_rows rows zero index = skip
  exec_rows rows (suc n) index = do
    row ← defined (row_at rows index)
    exec row
    exec_rows rows n (index + 1)

-- `setCountOfScriptRun(scriptNum, value)`
unfoldable pub set_count_of_script_run : ℤ → ℤ → M Void
set_count_of_script_run n value w =
    if ltb_ℤ value (pos 0)
    then skip w
    else (do
      counts ← defined (store max_script_thread w.scripts.counts n value)
      modify (λ w. record w { scripts = record w.scripts { counts = counts } }))
        w

-- `getCountOfScriptRun`
unfoldable pub get_count_of_script_run : ℤ → M ℤ
get_count_of_script_run n w = defined (fetch max_script_thread w.scripts.counts n) w

-- `setCountOfScriptRun(scriptNum, getCountOfScriptRun(scriptNum) + 1)`
unfoldable pub count_round : ℤ → M Void
count_round n = do
  value ← get_count_of_script_run n
  next ← defined (next_int value)
  set_count_of_script_run n next

module _ (exec : Bytes → M Void) (rows : List Bytes) (script_num : ℤ) where
  -- `for (loopTime; loopTime > 0; loopTime--)`: the rows from `first` up to the one before `stop`
  -- (`loopEnd + 1`), and one more round counted. The cases of one row and of several run the same
  -- rows; with none the loop is left.
  unfoldable pub rounds : ℕ → ℕ → ℕ → M Void
  rounds zero first stop = skip
  rounds (suc n) first stop =
      if leb stop first
      then skip
      else do exec_rows exec rows (stop - first) first; count_round script_num; rounds n first stop

  -- A row `loop <n>` at `index`, with `loopStart` as the last loop left it: the new `loopStart` and the
  -- index of the row behind the row `end`; `none` inside where the script is given up.
  unfoldable pub run_loop : ℕ → Option ℕ → Bytes → M (Option (Option ℕ × ℕ))
  run_loop index start row = do
    times ← defined (loop_count row)
    elim times [
      | negsuc k ↦ do say "please spacify loop times!\n" []; pure none
      | pos k ↦ if k == 0 then (do say "please spacify loop times!\n" []; pure none) else do
        found ← defined (find_end rows max_sc_line (index + 1) start)
        first ← defined found.0
        rounds k first found.1
        pure (some (found.0, found.1 + 1))
    ]

  -- The outer `while (1)`: whether it came to the end of the script. Every round goes at least one row
  -- on, so one more than the number of rows is enough fuel.
  unfoldable pub run_rows : ℕ → ℕ → Option ℕ → M Bool
  run_rows zero index start w = none
  run_rows (suc fuel) index start w = elim (leb (length rows) index) [
    | true ↦ some (true, w)
    | false ↦
        (do
          row ← defined (row_at rows index)
          elim (begins_with (codes "loop") row) [
            | true ↦ do
              next ← run_loop index start row
              elim next [ none ↦ pure false | some (start', i) ↦ run_rows fuel i start' ]
            | false ↦ do exec row; run_rows fuel (index + 1) start
          ])
          w
  ]

module _ (os : Os) (exec : Bytes → M Void) where
  -- `scriptCmdProcess` behind the opening of the file; memory is always had.
  unfoldable pub run_file : ℤ → Bytes → M Void
  run_file script_num text = do
    rows ← cp_script_content text
    if length rows == 0
        then say "cp error\n" []
        else run_rows exec rows script_num (length rows + 1) 0 none >> skip
    set_script_thread_id script_num 0

  -- `scriptCmdProcess`: its number is read from `gCmdParam` when the thread begins to run.
  unfoldable pub script_cmd_process : M Void
  script_cmd_process = do
    script_num ← param_number 1
    set_count_of_script_run script_num (pos 0)
    names ← gets (λ w. w.scripts.names)
    name ← defined (fetch max_script_thread names script_num)
    elim (os.file name) [
      | none ↦ do say "\nscript file open failed!\n" []; set_script_thread_id script_num 0
      | some text ↦ run_file script_num text
    ]
