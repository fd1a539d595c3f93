-- ===== src/Logs/Counts.antt =====
-- core/src/at_cmdProc.c: the counts of successful calls; core/src/autoTest.c: `syslogProcess`.
use auto_test_tools.Base.{ℕ, ◌&&◌, none, some, if◌then◌else◌}
use auto_test_tools.Base.Int.{ℤ, pos, ltb_ℤ, next_int}
use auto_test_tools.CString.Compare.{Bytes}
use auto_test_tools.Commands.Clients.{unregister}
use auto_test_tools.Logs.Lines.{
  LogStr, log_suspend, log_talk_build, log_talk_conference, get_log_msg_issue_id,
  get_log_client_num,
}
use auto_test_tools.World.Array.{fetch, store}
use auto_test_tools.World.Monad.{M, Void, ◌>>=◌, defined, modify, skip}
use auto_test_tools.World.State.{max_client, max_call_type}

-- `getCountOfSuccessCall`
unfoldable pub get_count_of_success_call : ℕ → ℤ → M ℤ
get_count_of_success_call kind c w =
    (do
      row ← defined (fetch max_call_type w.success_call (pos kind))
      defined (fetch max_client row c))
      w

-- `setCountOfSuccessCall`
unfoldable pub set_count_of_success_call : ℕ → ℤ → ℤ → M Void
set_count_of_success_call kind c value w =
    if ltb_ℤ value (pos 0)
    then skip w
    else (do
      row ← defined (fetch max_call_type w.success_call (pos kind))
      row' ← defined (store max_client row c value)
      table ← defined (store max_call_type w.success_call (pos kind) row')
      modify (λ v. record v { success_call = table }))
        w

-- One more call of a type for a client.
unfoldable pub count_call : ℕ → ℤ → M Void
count_call kind c = do
  value ← get_count_of_success_call kind c
  next ← defined (next_int value)
  set_count_of_success_call kind c next

unfoldable pub log_action : LogStr → ℤ → M Void
log_action log_suspend c = unregister c
log_action log_talk_build c = count_call 0 c
log_action log_talk_conference c = count_call 1 c

-- `syslogProcess`; client 0 is passed over.
unfoldable pub syslog_process : Bytes → M Void
syslog_process log = elim (get_log_msg_issue_id log) [
  | none ↦ skip
  | some issue ↦ do
    c ← defined (get_log_client_num log)
    if ltb_ℤ (pos 0) c && ltb_ℤ c (pos 10) then log_action issue c else skip
]
