-- ===== src/Tests/Turns.antt =====
-- Threads that take turns within a command.
use auto_test_tools.Base.{◌≡◌, refl, [], ◌∷◌, none, some, arith}
use auto_test_tools.Base.Int.{pos}
use auto_test_tools.CString.Compare.{codes, same}
use auto_test_tools.CString.Number.{atoi}
use auto_test_tools.CString.Tokens.{words, pieces, nonempty}
use auto_test_tools.CmdLib.{cmd_lib, get_cmd_code, names}
use auto_test_tools.Commands.Clients.Race.{add_client_overtaken, add_client_overtaken-crosses}
use auto_test_tools.Commands.Dispatch.{cmd_proc, run_entry}
use auto_test_tools.Commands.Queue.Texts.{text_msg, syslog_body}
use auto_test_tools.Network.Config.{phone_addr}
use auto_test_tools.Network.Tables.{registered}
use auto_test_tools.Params.{parse_line}
use auto_test_tools.Script.Run.{script_cmd_process}
use auto_test_tools.System.LateScript.{run_script-late}
use auto_test_tools.System.Overtaken.{call-overtakes}
use auto_test_tools.System.Reach.{initial, command}
use auto_test_tools.System.Turns.{Run, stays, others, serves, Served, queued-Served}
use auto_test_tools.Tests.Session.{waiting, served, waiting-Reach, waiting-serves, lines-run}
use auto_test_tools.Tests.Fixtures.{calm, calm-PtonLaws, serving}
use auto_test_tools.World.Monad.{Ends, ◌>>◌}
use auto_test_tools.World.State.{printed, created, Body}

add_client_overtaken-crosses_example :
    Ends (add_client_overtaken calm 2 (pos 3) (codes "1.1.1.1") (codes "2.2.2.2") initial) (λ w'.
      (registered w'.net 3 ≡ some (codes "1.1.1.1"))
      × (w'.net.sock_addrs 3 ≡ phone_addr calm (codes "2.2.2.2"))
      × (w'.net.sockets 3 ≡ pos 5)
      × (w'.events ≡ printed "add client OK!\n" [] ∷ printed "add client OK!\n" [] ∷ []))
unfolding cmd_lib
add_client_overtaken-crosses_example =
    add_client_overtaken-crosses calm 2 3 (codes "1.1.1.1") (codes "2.2.2.2") initial calm-PtonLaws
      refl refl (omega arith) refl refl

call-overtakes_example :
    Ends
      ((parse_line (codes "dy 5")
          >> cmd_proc calm 1 (codes "call 3 100")
          >> run_entry calm (cmd_proc calm 0) 0)
        serving)
      (λ w'. w' ≡ record serving {
        params = w'.params;
        queue =
            text_msg 3 (codes "call") (codes "100") ∷ text_msg 3 (codes "call") (codes "100") ∷ [];
        calls = 2;
      })
unfolding words pieces nonempty get_cmd_code names cmd_lib same atoi
call-overtakes_example =
    call-overtakes calm 3 (codes "call") (codes "3") (codes "100") refl refl (omega arith)
      (omega arith) (omega arith) 0 0 (codes "dy 5") (codes "call 3 100") serving (omega arith)
      (omega arith) (omega arith) (omega arith) refl (omega arith) (λ e. cc) (λ e. cc)

-- Another message is queued, and then the send thread has a round.
waiting-fuller : Run calm waiting 1 served
waiting-fuller =
    let (_, _, _, queues, round) = lines-run in
    serves (others stays (command 1 (codes "sl 3 off") queues)) round

queued-Served_example :
    Served calm
      (text_msg 3 (codes "syslog") (syslog_body (codes "on") none 3 (pos 0)))
      0
      waiting
      served
queued-Served_example =
    queued-Served calm-PtonLaws
      (text_msg 3 (codes "syslog") (syslog_body (codes "on") none 3 (pos 0))) [] [] 1 waiting served
      waiting-Reach waiting-serves.2 waiting-fuller (omega arith)

run_script-late_example :
    Ends
      ((cmd_proc calm 1 (codes "rs 3 a.txt")
          >> parse_line (codes "dy 5")
          >> script_cmd_process calm (cmd_proc calm 0))
        serving)
      (λ w'.
        (w'.scripts.names 3 ≡ codes "a.txt")
        × (w'.threads.script_ids 3 ≡ 9)
        × (w'.events
            ≡ printed "\nscript file open failed!\n" [] ∷ created Body.script_cmd_process ∷ []))
unfolding words pieces nonempty get_cmd_code names cmd_lib same atoi
run_script-late_example =
    run_script-late calm (cmd_proc calm 0) 0 3 5 9 (codes "rs 3 a.txt") (codes "rs") (codes "3")
      (codes "a.txt") (codes "dy 5") (codes "5") serving (omega arith) (omega arith) refl refl refl
      (omega arith) (omega arith) (omega arith) (omega arith) refl refl (omega arith) (omega arith)
      (omega arith) refl refl refl
