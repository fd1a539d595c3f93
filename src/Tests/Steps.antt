-- ===== src/Tests/Steps.antt =====
-- The theorems on the program as a whole, on sessions, files and reports, each at an input that meets its
-- hypotheses.
use auto_test_tools.Base.{
  leb, none, length, ◌≡◌, refl, true, false, List, [], ◌∷◌, ◌++◌, some, arith, ◌==◌, if◌then◌else◌,
}
use auto_test_tools.Base.Int.{pos}
use auto_test_tools.CString.Compare.{Bytes, codes, starts_with}
use auto_test_tools.CString.Number.{decimal, decimal_ℤ}
use auto_test_tools.CString.Tokens.{c_string}
use auto_test_tools.Network.{at_ok}
use auto_test_tools.System.Reach.{initial, Reach-Inv}
use auto_test_tools.System.Invariant.{Inv}
use auto_test_tools.Commands.Quit.{quit, script_line}
use auto_test_tools.Commands.Quit.Report.{noted, report_lines, ScriptsFit}
use auto_test_tools.Commands.Quit.Written.{ended, NoteLaws, quit-reports}
use auto_test_tools.Network.Stdin.{get_c_num_and_ip_addr}
use auto_test_tools.Network.Stdin.Typed.{get_c_num_and_ip_addr-typed}
use auto_test_tools.Prompt.{Terminal, is_quit, main}
use auto_test_tools.Prompt.Lines.{obeyed, leaves, main-obeys}
use auto_test_tools.Script.Cut.{concat, Cut, cp_script_content-Cut}
use auto_test_tools.Script.Search.{Finds, find_end-Finds}
use auto_test_tools.Script.Rows.{complaints}
use auto_test_tools.Script.Load.{
  cp_script_content, max_sc_line, commands, file_lines, lines_on, take_line, line_command, skipped,
  before_semicolon,
}
use auto_test_tools.Script.Loops.{exec_all}
use auto_test_tools.Script.Plain.{run_file-plain}
use auto_test_tools.Script.Run.{find_end, run_file, begins_with}
use auto_test_tools.Commands.Threads.{set_script_thread_id}
use auto_test_tools.Tests.Session.{waiting, waiting-Reach}
use auto_test_tools.Tests.Fixtures.{calm, calm-PtonLaws, serving}
use auto_test_tools.World.Monad.{M, Void, Ends, Returns, emit, pure, ◌>>◌}
use auto_test_tools.World.State.{World, wrote, printed}

Reach-Inv_example : Inv calm waiting
Reach-Inv_example = Reach-Inv calm-PtonLaws waiting-Reach

abbrev writes : Bytes → M Void
writes row = emit (wrote row)

abbrev typed_lines : List Bytes
typed_lines = codes "show" ∷ [] ∷ codes "quitter" ∷ codes "look" ∷ []

abbrev terminal : Terminal
terminal = record {
  user = some (codes "u");
  cwd = some (codes "/r");
  readline = λ prompt. typed_lines;
}

main-obeys_example :
    main writes terminal initial
    ≡ (exec_all writes (obeyed typed_lines)
          >> pure (record { exited = leaves typed_lines; history = obeyed typed_lines }))
        (record initial { events = printed "input h/help  for help\n" [] ∷ [] })
main-obeys_example = main-obeys writes terminal (codes "u") (codes "/r") initial refl refl

-- A word that only begins with `quit` ends the session, and the short name of `quit` does not.
session_ends :
    (obeyed typed_lines ≡ codes "show" ∷ codes "quitter" ∷ [])
    × (leaves typed_lines ≡ true)
    × (leaves (codes "q" ∷ []) ≡ false)
unfolding is_quit starts_with
session_ends = (refl, refl, refl)

get_c_num_and_ip_addr-typed_example :
    Returns
      (get_c_num_and_ip_addr
        (decimal 3 ++ (b'\n' ∷ (codes "1.2.3.4" ++ b'\n' ∷ codes "more")))
        []
        initial)
      (λ a w'.
        (a ≡ record {
          stat = at_ok;
          client_num = some (pos 3);
          ip_addr = codes "1.2.3.4";
          stdin = codes "more";
        })
        × (w' ≡ record initial { events = w'.events }))
get_c_num_and_ip_addr-typed_example =
    get_c_num_and_ip_addr-typed 3 (codes "1.2.3.4") (codes "more") [] initial (omega arith)
      (omega arith)
      (
        (refl, refl),
        (
          (refl, refl),
          ((refl, refl), ((refl, refl), ((refl, refl), ((refl, refl), ((refl, refl), tt))))),
        ),
      )

run_file-plain_example :
    run_file calm writes (pos 0) (codes "add 1 1.1.1.1;\n# no\nbad\nshow;\n") initial
    ≡ (exec_all writes (codes "add 1 1.1.1.1" ∷ codes "show" ∷ [])
          >> set_script_thread_id (pos 0) 0)
        (record initial { events = printed "parse error!\n" [] ∷ [] })
unfolding commands file_lines lines_on take_line line_command skipped before_semicolon c_string
    begins_with starts_with
run_file-plain_example =
    run_file-plain calm writes (pos 0) (codes "add 1 1.1.1.1;\n# no\nbad\nshow;\n")
      (codes "add 1 1.1.1.1" ∷ codes "show" ∷ []) initial refl (omega arith) (omega arith)
      (refl, (refl, tt))

calm-NoteLaws : NoteLaws calm
calm-NoteLaws = record { opens = λ n. refl; writes = λ n. refl; time_fits = λ n. omega arith }

-- A script runs, and a client has had two calls.
abbrev reporting : World
reporting = record serving {
  threads = record { send_id = 8; rec_id = 0; script_ids = λ i. if i == 2 then 9 else 0 };
  scripts = record { conf_file_name = []; names = λ i. codes "s.txt"; counts = λ i. pos 4 };
  success_call = λ kind i. pos 2;
}

reporting-ScriptsFit : ScriptsFit reporting
unfolding script_line decimal_ℤ
reporting-ScriptsFit i runs = omega arith

quit-reports_example : Ends (quit calm 10 reporting) (λ w'. w' ≡ record reporting {
  calls = w'.calls;
  events =
      printed "all ok!exit!!\n" []
      ∷ noted
          (codes "now\n" ∷ report_lines reporting)
          (ended 0 "rec mode stoped!" (ended 8 "test mode stoped!" []));
})
quit-reports_example =
    quit-reports calm calm-NoteLaws 10 reporting (λ kind i. (2, refl, omega arith))
      reporting-ScriptsFit

cp_script_content-Cut_example :
    (lines : List Bytes) × (concat lines ≡ codes "a;\n#b\nc;")
    × Cut lines
    × (cp_script_content (codes "a;\n#b\nc;") initial ≡ (
        if leb (length (commands lines)) max_sc_line
        then some (commands lines, record initial { events = complaints lines [] })
        else none))
cp_script_content-Cut_example = cp_script_content-Cut (codes "a;\n#b\nc;") initial

-- From the second row on, the search passes a command and stops at `end`.
find_end-Finds_example :
    Finds (codes "loop 2" ∷ codes "start" ∷ codes "show" ∷ codes "end" ∷ []) 1 (
      find_end
        (codes "loop 2" ∷ codes "start" ∷ codes "show" ∷ codes "end" ∷ [])
        max_sc_line
        1
        none)
find_end-Finds_example =
    find_end-Finds (codes "loop 2" ∷ codes "start" ∷ codes "show" ∷ codes "end" ∷ []) 1 none
