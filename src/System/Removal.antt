-- ===== src/System/Removal.antt =====
-- core/src/autoTest.c: a phone's line that tells of a suspension, from `ret_receive` to the tables.
use auto_test_tools.Base.{◌+◌, ◌≡◌, ◌<◌, true, ◌++◌, none, some, length, if◌then◌else◌}
use auto_test_tools.Base.Int.{ℤ, pos, pos_part}
use auto_test_tools.CString.Compare.{Bytes, codes, strstr}
use auto_test_tools.Commands.Clients.Registry.{BecomesRegistry}
use auto_test_tools.Logs.Effects.{is_served, syslog_process-removes}
use auto_test_tools.Logs.Lines.{log_suspend, get_log_msg_issue_id, get_log_client_num}
use auto_test_tools.Logs.Serve.{ret_receive}
use auto_test_tools.Logs.Stamp.{IsSilent, stamp, filed, ret_receive-files}
use auto_test_tools.Network.Config.{PtonLaws}
use auto_test_tools.Network.Tables.{registered}
use auto_test_tools.System.Invariant.{Inv}
use auto_test_tools.System.Reach.{Reach, Reach-Inv}
use auto_test_tools.World.Array.{update}
use auto_test_tools.World.Monad.{Ends}
use auto_test_tools.World.State.{World, Os}

-- From every reachable state a line of a suspension takes the client whose number `getLogClientNum` gives
-- for the line out of the registry, if that is from 1 to 9, and no other; for a line that names no client
-- the number is 2. The lock is free behind the round and the tables are consistent. The conditions: the byte
-- behind the array `log` is spare, without which the round is undefined; a line of 1 to 149 bytes that is
-- not a recording, an address of at most 15 bytes, a time of 1 to 49 bytes with no word that the
-- program looks for, a file that opens and takes the whole text, and an `inet_pton` that takes no
-- address of more than 15 characters.
pub ret_receive-removes :
    (os : Os) (source line : Bytes) (c : ℤ) (w : World)
    → PtonLaws os
    → Reach os w
    → 0 < length line
    → length line < 150
    → length source < 16
    → strstr (codes "record") line ≡ none
    → 0 < length (os.ctime w.calls)
    → length (os.ctime w.calls) < 50
    → IsSilent (stamp (os.ctime w.calls))
    → os.log_opens (w.calls + 1) ≡ true
    → os.fwrite (w.calls + 1 + 1) ≡ pos (length (filed (os.ctime w.calls) line))
    → os.spare ≡ true
    → get_log_msg_issue_id (line ++ codes "\n") ≡ some log_suspend
    → get_log_client_num (line ++ codes "\n") ≡ some c
    → Ends (ret_receive os source line w) (
        BecomesRegistry os
          (if is_served c then update (registered w.net) (pos_part c) none else registered w.net))
ret_receive-removes os source line c w laws r some_byte short near plain some_time brief silent
      opens full spare about num =
    let h : Inv os w = Reach-Inv laws r in
    rw
      (ret_receive-files os source line w some_byte short near plain some_time brief silent opens
        full)
      (rw spare (syslog_process-removes os _ (line ++ codes "\n") c h.free h.tables about num))
