-- ===== src/Commands/Quit/Report.antt =====
-- core/src/at_cmdProc.c: what the report of `quit` holds.
use auto_test_tools.Base.{
  ℕ, zero, suc, ◌+◌, ◌≡◌, ◌≤◌, ◌<◌, ◌^◌, refl, Bool, true, false, List, [], ◌∷◌, ◌++◌, some, arith,
  length, length-append, ltb, lt→ltb, ◌==◌, if◌then◌else◌, Bool-cases, inl, inr,
}
use auto_test_tools.Base.Int.{ℤ, pos, ltb_ℤ}
use auto_test_tools.CString.Compare.{Bytes, codes}
use auto_test_tools.CString.Number.{decimal, decimal_ℤ}
use auto_test_tools.CString.Number.Length.{length-decimal_ℤ_le, length-digit_le}
use auto_test_tools.Commands.Quit.{
  tmp_text, write_note, times_word, client_line, script_line, note_clients, note_kind, note_scripts,
}
use auto_test_tools.Commands.Threads.{get_script_thread_id}
use auto_test_tools.Logs.Counts.{get_count_of_success_call}
use auto_test_tools.Script.Run.{get_count_of_script_run}
use auto_test_tools.World.Monad.{◌>>=◌, Returns}
use auto_test_tools.World.State.{World, Os, Event, wrote}

-- The log behind some lines that were written.
abbrev pub noted : List Bytes → List Event → List Event
noted [] events = events
noted (line ∷ lines) events = noted lines (wrote line ∷ events)

-- The lines of the clients from `index` on.
abbrev pub client_lines : (ℕ → ℤ) → ℕ → ℕ → List Bytes
client_lines counts zero index = []
client_lines counts (suc rounds) index =
    client_line index (counts index) ∷ client_lines counts rounds (index + 1)

-- A count that `int32_t` holds.
abbrev pub IsCounted : ℤ → Type 0
IsCounted z = (n : ℕ) × (z ≡ pos n) × (n < 2 ^ 31)

append-short :
    {A : Type 0} (xs ys : List A) (m n : ℕ)
    → length xs ≤ m
    → length ys ≤ n
    → length (xs ++ ys) ≤ m + n
append-short xs ys m n hx hy = omega (arith, length-append xs ys)

one_word-short : (b : Bool) → length (if b then codes "times\n" else codes "time\n") ≤ 6
one_word-short true = omega arith
one_word-short false = omega arith

client_line-short :
    (index : ℕ) (z : ℤ) → index < 10 → IsCounted z → length (client_line index z) < 60
unfolding client_line
client_line-short index z h (n, e, small) =
    let word = one_word-short (ltb_ℤ (pos 1) (pos n)) in
    let number = length-decimal_ℤ_le n (omega arith) in
    let p1 : Bytes = codes "client" ++ decimal index in
    let p2 : Bytes = p1 ++ codes ": " in
    let p3 : Bytes = p2 ++ decimal_ℤ (pos n) in
    let name =
      append-short (codes "client") (decimal index) 6 1 (omega arith) (length-digit_le index h) in
    let colon = append-short p1 (codes ": ") 7 2 name (omega arith) in
    let value = append-short p2 (decimal_ℤ (pos n)) 9 10 colon number in
    let space = append-short p3 (codes " ") 19 1 value (omega arith) in
    rw e (omega (arith, append-short (p3 ++ codes " ") (times_word (pos n)) 20 6 space word))

module _ (os : Os) (writes : (n : ℕ) → ltb_ℤ (pos 0) (os.fwrite n) ≡ true) where
  pub write_note-short :
      (line : Bytes) (w : World)
      → length line < 60
      → write_note os line w
        ≡ some (os.fwrite w.calls, record w { calls = w.calls + 1; events = wrote line ∷ w.events })
  unfolding write_note tmp_text
  write_note-short line w h = rw (lt→ltb (length line) 60 h) refl

  get_count-in :
      (kind i : ℕ) (w : World)
      → kind < 2
      → i < 10
      → get_count_of_success_call kind (pos i) w ≡ some (w.success_call kind i, w)
  unfolding get_count_of_success_call
  get_count-in kind i w hk hi = ground arith

  -- The lines of the clients from `index` on are written, and the last result is not zero.
  note_clients-lines :
      (kind rounds index : ℕ) (ret : ℤ) (w : World)
      → kind < 2
      → index + rounds ≤ 10
      → ((i : ℕ) → IsCounted (w.success_call kind i))
      → ltb_ℤ (pos 0) ret ≡ true
      → Returns (note_clients os kind rounds index ret w) (λ r w'.
        (ltb_ℤ (pos 0) r ≡ true)
        × (w' ≡ record w {
          calls = w'.calls;
          events = noted (client_lines (w.success_call kind) rounds index) w.events;
        }))
  unfolding note_clients
  note_clients-lines kind zero index ret w hk hi counted good = (good, refl)
  note_clients-lines kind (suc rounds) index ret w hk hi counted good =
      let line = client_line index (w.success_call kind index) in
      let next = record w { calls = w.calls + 1; events = wrote line ∷ w.events } in
      rw (get_count-in kind index w hk (omega arith), ◌>>=◌)
        (rw
          (write_note-short line w (client_line-short index _ (omega arith) (counted index)), ◌>>=◌)
          (rw (writes w.calls, ◌>>=◌)
            (note_clients-lines kind rounds (index + 1) (os.fwrite w.calls) next hk (omega arith)
              counted (writes w.calls))))

abbrev heading : ℕ → Bytes
heading kind = if kind == 0 then codes "doubleTalk:\n" else codes "trebleTalk:\n"

-- What the report says of one type of call.
abbrev pub kind_lines : World → ℕ → List Bytes
kind_lines w kind = heading kind ∷ client_lines (w.success_call kind) 10 0

-- What it says of the scripts that run, from `index` on.
abbrev pub script_lines : World → ℕ → ℕ → List Bytes
script_lines w zero index = []
script_lines w (suc rounds) index =
    let rest = script_lines w rounds (index + 1) in
    if w.threads.script_ids index == 0
    then rest
    else script_line (w.scripts.names index) (w.scripts.counts index) ∷ rest

-- The lines behind the time.
abbrev pub report_lines : World → List Bytes
report_lines w = kind_lines w 0 ++ kind_lines w 1 ++ script_lines w 10 0

-- The line of each script that runs fits the array.
abbrev pub ScriptsFit : World → Type 0
ScriptsFit w =
    (i : ℕ)
    → (w.threads.script_ids i == 0) ≡ false
    → length (script_line (w.scripts.names i) (w.scripts.counts i)) < 60

-- Behind the writing of some lines: the last result is not zero.
abbrev pub Writes : World → List Bytes → ℤ → World → Type 0
Writes w lines r w' =
    (ltb_ℤ (pos 0) r ≡ true) × (w' ≡ record w { calls = w'.calls; events = noted lines w.events })

module _ (os : Os) (writes : (n : ℕ) → ltb_ℤ (pos 0) (os.fwrite n) ≡ true) where
  heading-short : (kind : ℕ) → length (heading kind) < 60
  heading-short kind = elim (Bool-cases (kind == 0)) [
    | inl e ↦ rw e (omega arith)
    | inr e ↦ rw e (omega arith)
  ]

  pub note_kind-lines :
      (kind : ℕ) (w : World)
      → kind < 2
      → ((i : ℕ) → IsCounted (w.success_call kind i))
      → Returns (note_kind os kind w) (Writes w (kind_lines w kind))
  unfolding note_kind
  note_kind-lines kind w hk counted =
      rw (write_note-short os writes (heading kind) w (heading-short kind), ◌>>=◌)
        (note_clients-lines os writes kind 10 0 (os.fwrite w.calls)
          (record w { calls = w.calls + 1; events = wrote (heading kind) ∷ w.events }) hk
          (omega arith) counted (writes w.calls))

  get_id-in :
      (i : ℕ) (w : World)
      → i < 10
      → get_script_thread_id (pos i) w ≡ some (w.threads.script_ids i, w)
  unfolding get_script_thread_id
  get_id-in i w h = ground arith

  get_run-in :
      (i : ℕ) (w : World)
      → i < 10
      → get_count_of_script_run (pos i) w ≡ some (w.scripts.counts i, w)
  unfolding get_count_of_script_run
  get_run-in i w h = ground arith

  pub note_scripts-lines :
      (rounds index : ℕ) (ret : ℤ) (w : World)
      → index + rounds ≤ 10
      → ScriptsFit w
      → ltb_ℤ (pos 0) ret ≡ true
      → Returns (note_scripts os rounds index ret w) (Writes w (script_lines w rounds index))
  unfolding note_scripts
  note_scripts-lines zero index ret w hi fit good = (good, refl)
  note_scripts-lines (suc rounds) index ret w hi fit good =
      rw (get_id-in index w (omega arith), ◌>>=◌)
        (elim (Bool-cases (w.threads.script_ids index == 0)) [
          | inl idle ↦ rw idle (note_scripts-lines rounds (index + 1) ret w (omega arith) fit good)
          | inr runs ↦
              let line = script_line (w.scripts.names index) (w.scripts.counts index) in
              let next = record w { calls = w.calls + 1; events = wrote line ∷ w.events } in
              let inside : ltb index 10 ≡ true = ground arith in
              rw runs (
                rw (get_run-in index w (omega arith), ◌>>=◌)
                  (rw inside (
                    rw (write_note-short os writes line w (fit index runs), ◌>>=◌)
                      (note_scripts-lines rounds (index + 1) (os.fwrite w.calls) next (omega arith)
                        fit (writes w.calls)))))
        ])
