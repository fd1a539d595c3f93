-- ===== src/Tests/Received.antt =====
-- A line that a phone sends on its suspension, from the socket to the file and the tables.
use auto_test_tools.Base.{◌≡◌, refl, ◌∷◌, ◌++◌, none, arith}
use auto_test_tools.Base.Int.{pos}
use auto_test_tools.CString.Compare.{Bytes, codes, strstr, starts_with}
use auto_test_tools.CString.Number.{atoi}
use auto_test_tools.Commands.Clients.Registry.{BecomesRegistry}
use auto_test_tools.Logs.Counts.{syslog_process}
use auto_test_tools.Logs.Lines.{
  get_log_msg_issue_id, find_issue, log_str_lib, get_log_client_num, client_field, up_to_space,
}
use auto_test_tools.Logs.Serve.{ret_receive}
use auto_test_tools.Logs.Stamp.{IsSilent, stamp, ret_receive-files}
use auto_test_tools.Network.Tables.{registered}
use auto_test_tools.System.Removal.{ret_receive-removes}
use auto_test_tools.Tests.Fixtures.{calm, calm-PtonLaws, serving}
use auto_test_tools.Tests.Session.{waiting, waiting-Reach}
use auto_test_tools.World.Array.{update}
use auto_test_tools.World.Monad.{Ends}
use auto_test_tools.World.State.{logged}

abbrev told : Bytes
told = codes "client 3 is suspended"

abbrev phone : Bytes
phone = codes "192.168.10.101"

now-IsSilent : IsSilent (stamp (codes "now\n"))
unfolding strstr starts_with
now-IsSilent = record { client = refl; suspended = refl; double_talk = refl; treble_talk = refl }

ret_receive-files_example :
    ret_receive calm phone told serving
    ≡ syslog_process (told ++ codes "\n") (record serving {
      events =
          logged (codes "./log/192.168.10.101") (codes "now: client 3 is suspended\n")
          ∷ serving.events;
      calls = 3;
    })
unfolding strstr starts_with
ret_receive-files_example =
    ret_receive-files calm phone told serving (omega arith) (omega arith) (omega arith) refl
      (omega arith) (omega arith) now-IsSilent refl refl

ret_receive-removes_example :
    Ends
      (ret_receive calm phone told waiting)
      (BecomesRegistry calm (update (registered waiting.net) 3 none))
unfolding get_log_msg_issue_id find_issue log_str_lib get_log_client_num client_field up_to_space
    strstr starts_with atoi
ret_receive-removes_example =
    ret_receive-removes calm phone told (pos 3) waiting calm-PtonLaws waiting-Reach (omega arith)
      (omega arith) (omega arith) refl (omega arith) (omega arith) now-IsSilent refl refl refl refl
      refl
