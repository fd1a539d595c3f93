-- ===== src/Logs/Effects.antt =====
-- core/src/autoTest.c: what `syslogProcess` does to the clients and the counts for each kind of line.
use auto_test_tools.Base.{
  ℕ, ◌+◌, ◌≡◌, ◌<◌, ◌&&◌, refl, Bool, true, false, Option, none, some, arith, if◌then◌else◌,
  Bool-cases, inl, inr,
}
use auto_test_tools.Base.Int.{ℤ, pos, negsuc, pos_part, ltb_ℤ, next_int}
use auto_test_tools.CString.Compare.{Bytes, codes, strstr}
use auto_test_tools.Commands.Clients.Registry.{IsConsistent, BecomesRegistry, unregister-removes}
use auto_test_tools.Logs.Counts.{
  syslog_process, log_action, count_call, get_count_of_success_call, set_count_of_success_call,
}
use auto_test_tools.Logs.Lines.{
  LogStr, log_suspend, log_talk_build, log_talk_conference, get_log_msg_issue_id,
  get_log_client_num, at_error,
}
use auto_test_tools.Network.Tables.{registered}
use auto_test_tools.World.Array.{update}
use auto_test_tools.World.Monad.{Ends, ◌>>=◌}
use auto_test_tools.World.State.{World, Os}

-- The numbers that `syslogProcess` acts on.
abbrev pub is_served : ℤ → Bool
is_served c = ltb_ℤ (pos 0) c && ltb_ℤ c (pos 10)

pub is_served-index : (c : ℤ) → is_served c ≡ true → (i : ℕ) × (c ≡ pos i) × (i < 10)
is_served-index (pos i) h = (i, refl, ground arith)
is_served-index (negsuc i) h = ground arith

module _ (w : World) (log : Bytes) (issue : LogStr) (c : ℤ)
    (about : get_log_msg_issue_id log ≡ some issue) (num : get_log_client_num log ≡ some c) where
  syslog_process-served : is_served c ≡ true → syslog_process log w ≡ log_action issue c w
  unfolding syslog_process
  syslog_process-served h = rw (about, syslog_process) (rw (num, ◌>>=◌) (rw h refl))

  syslog_process-other : is_served c ≡ false → syslog_process log w ≡ some (tt, w)
  unfolding syslog_process
  syslog_process-other h = rw (about, syslog_process) (rw (num, ◌>>=◌) (rw h refl))

-- The type of call that a line reports.
abbrev pub call_type : LogStr → Option ℕ
call_type log_suspend = none
call_type log_talk_build = some 0
call_type log_talk_conference = some 1

count_call-next :
    (w : World) (k i n : ℕ)
    → k < 2
    → i < 10
    → w.success_call k i ≡ pos n
    → n < 2147483647
    → count_call k (pos i) w
      ≡ some (
        tt,
        record w {
          success_call = update w.success_call k (update (w.success_call k) i (pos (n + 1)));
        },
      )
unfolding count_call get_count_of_success_call set_count_of_success_call next_int
count_call-next w k i n hk hi e l = ground (arith, e)

log_action-counts :
    (w : World) (issue : LogStr) (k i n : ℕ)
    → call_type issue ≡ some k
    → i < 10
    → w.success_call k i ≡ pos n
    → n < 2147483647
    → log_action issue (pos i) w
      ≡ some (
        tt,
        record w {
          success_call = update w.success_call k (update (w.success_call k) i (pos (n + 1)));
        },
      )
unfolding log_action
log_action-counts w log_suspend k i n kind h e l = cc
log_action-counts w log_talk_build k i n kind h e l =
    let same : k ≡ 0 = cc in rw same (count_call-next w 0 i n (omega arith) h (rw same at e) l)
log_action-counts w log_talk_conference k i n kind h e l =
    let same : k ≡ 1 = cc in rw same (count_call-next w 1 i n (omega arith) h (rw same at e) l)

-- With a free lock and consistent tables, a line that tells of a suspended phone removes its client from
-- the registry if its number is from 1 to 9, and for any other number the registry stays. The lock is
-- free behind it and the tables stay consistent.
pub syslog_process-removes :
    (os : Os) (w : World) (log : Bytes) (c : ℤ)
    → w.mutex ≡ false
    → IsConsistent os w.net
    → get_log_msg_issue_id log ≡ some log_suspend
    → get_log_client_num log ≡ some c
    → Ends (syslog_process log w) (
        BecomesRegistry os
          (if is_served c then update (registered w.net) (pos_part c) none else registered w.net))
unfolding log_action
syslog_process-removes os w log c free ok about num = elim (Bool-cases (is_served c)) [
  | inr r ↦ rw (syslog_process-other w log log_suspend c about num r) (rw r (free, ok, λ j. refl))
  | inl s ↦
      let (i, e, h) = is_served-index c s in
      rw (syslog_process-served w log log_suspend c about num s)
        (rw s (rw e (unregister-removes os w free ok i h)))
]

-- With a free lock and consistent tables, a line that tells of a suspended phone and names no client
-- makes the code remove client 2, the value of `AT_ERROR`, whichever phone sent the line.
syslog_process-removes_two :
    (os : Os) (w : World) (log : Bytes)
    → w.mutex ≡ false
    → IsConsistent os w.net
    → get_log_msg_issue_id log ≡ some log_suspend
    → strstr (codes "client") log ≡ none
    → Ends (syslog_process log w) (BecomesRegistry os (update (registered w.net) 2 none))
unfolding get_log_client_num
syslog_process-removes_two os w log free ok about no_client =
    syslog_process-removes os w log at_error free ok about (rw (no_client, get_log_client_num) refl)

-- A line that tells of a call counts one call of its type for a client from 1 to 9, and for another
-- number none; nothing else changes. The count before is below the largest `int32_t`.
pub syslog_process-counts :
    (w : World) (log : Bytes) (issue : LogStr) (k : ℕ) (c : ℤ) (n : ℕ)
    → call_type issue ≡ some k
    → get_log_msg_issue_id log ≡ some issue
    → get_log_client_num log ≡ some c
    → w.success_call k (pos_part c) ≡ pos n
    → n < 2147483647
    → syslog_process log w
      ≡ some (
        tt,
        record w {
          success_call =
              if is_served c
              then update w.success_call k (update (w.success_call k) (pos_part c) (pos (n + 1)))
              else w.success_call;
        },
      )
syslog_process-counts w log issue k c n kind about num e l = elim (Bool-cases (is_served c)) [
  | inr r ↦ rw (syslog_process-other w log issue c about num r) (rw r refl)
  | inl s ↦
      let (i, same, h) = is_served-index c s in
      rw (syslog_process-served w log issue c about num s)
        (rw s (rw same (log_action-counts w issue k i n kind h (rw same at e) l)))
]
