-- ===== src/Tests/Lines.antt =====
-- Typed lines from reachable states, and what they bring to the phones and to the screen.
use auto_test_tools.Base.{◌≡◌, refl, [], ◌∷◌, some, arith, length, suc}
use auto_test_tools.Base.Int.{pos}
use auto_test_tools.CString.Compare.{codes, same}
use auto_test_tools.CString.Number.{atoi}
use auto_test_tools.CString.Tokens.{c_string, words, pieces, nonempty}
use auto_test_tools.CmdLib.{cmd_lib, get_cmd_code, names}
use auto_test_tools.Commands.Dispatch.{cmd_proc}
use auto_test_tools.Commands.Dispatch.Random.{RandLaws, FirstKey, drawn}
use auto_test_tools.Commands.Queue.Send.{ioevt_msg}
use auto_test_tools.Commands.Queue.Texts.{text_msg}
use auto_test_tools.Commands.Timing.{scaled, to_float, round_to, excess_bits}
use auto_test_tools.KeyMap.{key_lib, key_entries}
use auto_test_tools.Logs.Serve.{cmd_send}
use auto_test_tools.Network.Tables.{registered}
use auto_test_tools.Script.Load.{
  cp_script_content, commands, file_lines, lines_on, take_line, line_command, skipped,
  before_semicolon,
}
use auto_test_tools.Script.Rows.{cp_script_content-commands}
use auto_test_tools.System.Delivery.{ComesTo}
use auto_test_tools.System.Entries.{ioevt_entry}
use auto_test_tools.System.RandomPress.{IsClientWord, random_key-arrives}
use auto_test_tools.System.Reach.{initial, start}
use auto_test_tools.System.Shown.{ShowsRegistry, add-shows}
use auto_test_tools.System.TextArrival.{says_call, text-arrives}
use auto_test_tools.Tests.Fixtures.{calm, calm-PtonLaws}
use auto_test_tools.Tests.Session.{waiting, waiting-Reach, waiting-serves}
use auto_test_tools.World.Array.{update}
use auto_test_tools.World.Monad.{Ends, for_each, ◌>>◌}
use auto_test_tools.World.State.{printed}

text-arrives_example :
    Ends
      ((cmd_proc calm 1 (codes "call 3 100")
          >> for_each (suc (length waiting.queue)) 0 (λ _. cmd_send))
        waiting)
      (ComesTo calm waiting (text_msg 3 (codes "call") (codes "100")) (codes "1.1.1.1"))
unfolding words pieces nonempty get_cmd_code names cmd_lib same atoi
text-arrives_example =
    text-arrives calm 0 3 (codes "call 3 100") (codes "3") (codes "1.1.1.1")
      (codes "call" ∷ codes "3" ∷ codes "100" ∷ []) (text_msg 3 (codes "call") (codes "100"))
      waiting calm-PtonLaws waiting-Reach (omega arith) (omega arith) refl
      (says_call (codes "call") (codes "100") refl (omega arith) (omega arith)) refl (omega arith)
      waiting-serves.1 (λ e. cc) waiting-serves.0

calm-RandLaws : RandLaws calm
calm-RandLaws = record { range = λ n. omega arith }

three-IsClientWord : IsClientWord (codes "3")
three-IsClientWord = record {
  some_byte = omega arith;
  short = omega arith;
  plain = omega arith;
  text = omega arith;
  no_space = refl;
}

-- The first draw is of the key 1.
first_draw : FirstKey calm waiting.calls 0
unfolding drawn scaled to_float round_to excess_bits key_lib key_entries
first_draw = (λ j l. absurd (omega arith), refl, omega arith)

random_key-arrives_example :
    Ends
      ((cmd_proc calm 2 (codes "rk 3") >> for_each (suc (length waiting.queue)) 0 (λ _. cmd_send))
        waiting)
      (ComesTo calm waiting
        (ioevt_msg 3 ioevt_entry (codes "49" ∷ []) (codes "p"))
        (codes "1.1.1.1"))
unfolding words pieces nonempty get_cmd_code names cmd_lib same atoi drawn scaled to_float round_to
    excess_bits key_lib key_entries
random_key-arrives_example =
    random_key-arrives calm 0 0 3 (codes "rk 3") (codes "rk") (codes "3") (codes "1.1.1.1") waiting
      calm-PtonLaws calm-RandLaws waiting-Reach (omega arith) (omega arith) refl refl refl
      (omega arith) three-IsClientWord first_draw (omega arith) waiting-serves.1 (λ e. cc)
      waiting-serves.0

add-shows_example :
    Ends
      ((cmd_proc calm 1 (codes "ad 3 1.1.1.1") >> cmd_proc calm 1 (codes "s")) initial)
      (ShowsRegistry (update (registered initial.net) 3 (some (codes "1.1.1.1"))))
unfolding words pieces nonempty get_cmd_code names cmd_lib same atoi
add-shows_example =
    add-shows calm 0 0 (pos 3) (codes "ad 3 1.1.1.1") (codes "ad") (codes "3") (codes "1.1.1.1")
      (codes "s") (codes "s") initial calm-PtonLaws (start [] tt) (omega arith) (omega arith) refl
      refl refl (omega arith) (omega arith) refl refl

cp_script_content-commands_example :
    cp_script_content (codes "#\nbad\na;\n") initial
    ≡ some (codes "a" ∷ [], record initial { events = printed "parse error!\n" [] ∷ [] })
unfolding commands file_lines lines_on take_line line_command skipped before_semicolon c_string
cp_script_content-commands_example = cp_script_content-commands (codes "#\nbad\na;\n") initial
