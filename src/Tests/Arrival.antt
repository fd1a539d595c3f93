-- ===== src/Tests/Arrival.antt =====
-- A key press that is typed at the prompt and comes to the phone.
use auto_test_tools.Base.{suc, List, ◌≡◌, refl, [], ◌∷◌, arith, length}
use auto_test_tools.CString.Compare.{Bytes, codes, same}
use auto_test_tools.CString.Number.{atoi}
use auto_test_tools.CString.Tokens.{words}
use auto_test_tools.CmdLib.{cmd_lib, get_cmd_code, names}
use auto_test_tools.Commands.Dispatch.{cmd_proc}
use auto_test_tools.Commands.Queue.Keys.{key_codes_of}
use auto_test_tools.Commands.Queue.Send.{ioevt_msg}
use auto_test_tools.KeyMap.{key_lib, get_key_code, find_key, key_matches, key_entries}
use auto_test_tools.Logs.Serve.{cmd_send}
use auto_test_tools.Network.Config.{phone_addr}
use auto_test_tools.System.Arrival.{cmd_proc-arrives}
use auto_test_tools.System.Entries.{ioevt_entry}
use auto_test_tools.System.Delivery.{Newest}
use auto_test_tools.Tests.Fixtures.{calm, calm-PtonLaws}
use auto_test_tools.Tests.Session.{waiting, waiting-Reach, waiting-serves}
use auto_test_tools.World.Monad.{Ends, for_each, ◌>>◌}
use auto_test_tools.World.State.{sent}

abbrev pub pressed : List Bytes
pressed = codes "61" ∷ codes "49" ∷ codes "11" ∷ []

cmd_proc-arrives_example :
    Ends
      ((cmd_proc calm 1 (codes "ie 3 he,1,# p")
          >> for_each (suc (length waiting.queue)) 0 (λ _. cmd_send))
        waiting)
      (λ w'.
        (w'.queue ≡ [])
        × Newest
            (sent
              (waiting.net.sockets 3)
              (phone_addr calm (codes "1.1.1.1"))
              (ioevt_msg 3 ioevt_entry pressed (codes "p")).cmd_obj)
            w'.events)
unfolding words get_cmd_code names cmd_lib same atoi key_codes_of get_key_code find_key key_matches
    key_lib key_entries
cmd_proc-arrives_example =
    cmd_proc-arrives calm 0 3 (codes "ie 3 he,1,# p") (codes "ie") (codes "3") (codes "he,1,#")
      (codes "p") (codes "1.1.1.1") pressed waiting calm-PtonLaws waiting-Reach (omega arith)
      (omega arith) refl refl refl (omega arith) refl (omega arith) (omega arith) refl
      waiting-serves.1 (λ e. cc) waiting-serves.0
