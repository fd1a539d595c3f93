-- ===== src/Commands/Quit/Written.antt =====
-- core/src/at_cmdProc.c: `quit` writes its report in full.
use auto_test_tools.Base.{
  ℕ, ◌+◌, ◌≡◌, ◌<◌, refl, ap, sym, ◌∙◌, true, List, [], ◌∷◌, ◌++◌, some, arith, length, ◌==◌,
  if◌then◌else◌, Bool-cases, inl, inr,
}
use Prim.Native.String.{String}
use auto_test_tools.Base.Int.{ℤ, pos, ltb_ℤ}
use auto_test_tools.CString.Compare.{Bytes}
use auto_test_tools.Commands.Quit.{note_kind, note_scripts, write_report, quit}
use auto_test_tools.Commands.Quit.Report.{
  noted, IsCounted, ScriptsFit, report_lines, kind_lines, script_lines, Writes, write_note-short,
  note_kind-lines, note_scripts-lines,
}
use auto_test_tools.Commands.Threads.{end_thread}
use auto_test_tools.World.Monad.{M, ◌>>=◌, ◌>>◌, Returns, Returns-some, Ends, skip, say}
use auto_test_tools.World.State.{World, Os, Event, wrote, printed, killed, joined}

noted-append :
    (a b : List Bytes) (events : List Event) → noted (a ++ b) events ≡ noted b (noted a events)
noted-append [] b events = refl
noted-append (line ∷ a) b events = noted-append a b (wrote line ∷ events)

noted_three :
    (a b c : List Bytes) (events : List Event)
    → noted c (noted b (noted a events)) ≡ noted (a ++ b ++ c) events
noted_three a b c events =
    sym (noted-append (a ++ b) c events ∙ ap (noted c) (noted-append a b events))

-- The log behind the end of a thread, if it runs.
abbrev pub ended : ℕ → String → List Event → List Event
ended id complaint events =
    if id == 0 then events else printed complaint [] ∷ joined id ∷ killed id ∷ events

end_running :
    (id : ℕ) (complaint : String) (w : World)
    → (if id == 0 then skip else do end_thread id; say complaint []) w
      ≡ some (tt, record w { events = ended id complaint w.events })
unfolding end_thread
end_running id complaint w = elim (Bool-cases (id == 0)) [ inl e ↦ rw e refl | inr e ↦ rw e refl ]

-- What the program relies on to write its report: the file opens, every write gives a number of bytes,
-- and the time fits its array.
pub record NoteLaws (os : Os) : Type 0 where
  pub opens : (n : ℕ) → os.note_opens n ≡ true
  pub writes : (n : ℕ) → ltb_ℤ (pos 0) (os.fwrite n) ≡ true
  pub time_fits : (n : ℕ) → length (os.ctime n) < 60

-- The run, with the number of system calls at its end.
Wrote : M ℤ → World → List Bytes → Type 0
Wrote m w lines =
    (r : ℤ) × (c : ℕ) × (m w ≡ some (r, record w { calls = c; events = noted lines w.events }))
    × (ltb_ℤ (pos 0) r ≡ true)

Writes-Wrote :
    (m : M ℤ) (w : World) (lines : List Bytes) → Returns (m w) (Writes w lines) → Wrote m w lines
unfolding Wrote
Writes-Wrote m w lines h =
    let (r, w', e, p) = Returns-some (Writes w lines) (m w) h in
    (r, w'.calls, e ∙ ap (λ (v : World). some (r, v)) p.1, p.0)

module _ (os : Os) (laws : NoteLaws os) where
  write_report-lines :
      (w : World)
      → ((k i : ℕ) → IsCounted (w.success_call k i))
      → ScriptsFit w
      → Ends (write_report os w) (λ w'. w' ≡ record w {
        calls = w'.calls;
        events =
            printed "all ok!exit!!\n" [] ∷ noted (os.ctime (w.calls + 1) ∷ report_lines w) w.events;
      })
  unfolding write_report Wrote
  write_report-lines w counted fit =
      let stamp = os.ctime (w.calls + 1) in
      let w₁ : World = record w { calls = w.calls + 1 + 1 } in
      let w₂ : World = record w { calls = w.calls + 1 + 1 + 1; events = wrote stamp ∷ w.events } in
      let (r₃, c₃, e₃, p₃) =
        Writes-Wrote (note_kind os 0) w₂ (kind_lines w 0)
          (note_kind-lines os laws.writes 0 w₂ (omega arith) (counted 0)) in
      let w₃ : World = record w { calls = c₃; events = noted (kind_lines w 0) w₂.events } in
      let (r₄, c₄, e₄, p₄) =
        Writes-Wrote (note_kind os 1) w₃ (kind_lines w 1)
          (note_kind-lines os laws.writes 1 w₃ (omega arith) (counted 1)) in
      let w₄ : World = record w { calls = c₄; events = noted (kind_lines w 1) w₃.events } in
      let (r₅, c₅, e₅, p₅) =
        Writes-Wrote (note_scripts os 10 0 r₄) w₄ (script_lines w 10 0)
          (note_scripts-lines os laws.writes 10 0 r₄ w₄ (omega arith) fit p₄) in
      rw (laws.opens w.calls, ◌>>=◌)
        (rw (write_note-short os laws.writes stamp w₁ (laws.time_fits (w.calls + 1)), ◌>>=◌)
          (rw (e₃, ◌>>=◌)
            (rw (e₄, ◌>>=◌)
              (rw (e₅, ◌>>=◌)
                (rw p₅ (
                  ap
                    (λ (ev : List Event). record w {
                      calls = c₅;
                      events = printed "all ok!exit!!\n" [] ∷ ev;
                    })
                    (noted_three (kind_lines w 0) (kind_lines w 1) (script_lines w 10 0)
                      (wrote stamp ∷ w.events))))))))

  -- `quit` ends the two threads that serve the phones, if they run, and writes its report in full: the
  -- time, for each type of call a heading and the count of each of the ten clients in order, and the
  -- count of rounds of each script that runs, under the name of its file; then it says that all went
  -- well. It changes nothing but the log. The conditions: the file opens and takes every write, the
  -- counts are numbers of an `int32_t` that are not negative, and the line of each script that runs
  -- fits its array of 60 bytes.
  pub quit-reports :
      (k : ℕ) (w : World)
      → ((kind i : ℕ) → IsCounted (w.success_call kind i))
      → ScriptsFit w
      → Ends (quit os k w) (λ w'. w' ≡ record w {
        calls = w'.calls;
        events =
            printed "all ok!exit!!\n" []
            ∷ noted (os.ctime (w.calls + 1) ∷ report_lines w) (
                ended w.threads.rec_id "rec mode stoped!"
                  (ended w.threads.send_id "test mode stoped!" w.events));
      })
  unfolding quit
  quit-reports k w counted fit =
      let w₁ = record w { events = ended w.threads.send_id "test mode stoped!" w.events } in
      let w₂ = record w₁ { events = ended w.threads.rec_id "rec mode stoped!" w₁.events } in
      rw (end_running w.threads.send_id "test mode stoped!" w, ◌>>=◌)
        (rw (end_running w.threads.rec_id "rec mode stoped!" w₁, ◌>>=◌)
          (write_report-lines w₂ counted fit))
