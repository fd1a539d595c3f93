-- ===== src/Logs/Stamp.antt =====
-- core/src/autoTest.c: one whole round of `ret_receive`, from the line to the file and the tables.
use auto_test_tools.Base.{
  ℕ, ◌+◌, ◌-◌, ◌≡◌, ◌∙◌, ◌<◌, refl, ap, true, false, not, ◌&&◌, List, [], ◌∷◌, ◌++◌, Option-cases,
  inl, inr, none, some, if◌then◌else◌, length-append, length-take_le, Bool-cases, arith, length,
  take, take_all, ◌==◌,
}
use mathlib.Core.List.{append_assoc}
use auto_test_tools.Base.Int.{pos, ltb_ℤ}
use auto_test_tools.CString.Compare.{Bytes, codes, strstr}
use auto_test_tools.CString.Find.{lacks, strstr-separated}
use auto_test_tools.Logs.Counts.{syslog_process}
use auto_test_tools.Logs.Lines.{
  LogStr, log_suspend, log_talk_build, log_talk_conference, get_log_msg_issue_id, find_issue,
  log_str_lib, get_log_client_num,
}
use auto_test_tools.Logs.Serve.{ret_receive, log_entry, end_line, stored, without_last}
use auto_test_tools.World.Monad.{◌>>=◌}
use auto_test_tools.World.State.{World, Os, logged}

-- The text of the time in front of a line, without the space behind it.
abbrev pub stamp : Bytes → Bytes
stamp time = take (length time - 1) time ++ codes ":"

-- No word that the program looks for in a line is in the time.
pub record IsSilent (front : Bytes) : Type 0 where
  pub client : strstr (codes "client") front ≡ none
  pub suspended : strstr (codes "suspended") front ≡ none
  pub double_talk : strstr (codes "doubleTalk") front ≡ none
  pub treble_talk : strstr (codes "trebleTalk") front ≡ none

module _ (front text : Bytes) (silent : IsSilent front) where
  found :
      (needle : Bytes)
      → lacks b' ' needle ≡ true
      → strstr needle front ≡ none
      → strstr needle (front ++ b' ' ∷ text) ≡ strstr needle text
  found needle h e = strstr-separated needle front text b' ' h e

  get_log_client_num-stamped : get_log_client_num (front ++ b' ' ∷ text) ≡ get_log_client_num text
  unfolding get_log_client_num
  get_log_client_num-stamped =
      rw (found (codes "client") refl silent.client, get_log_client_num) refl

  find_issue-stamped :
      (issue : LogStr) (word : Bytes) (lib : List (LogStr × Bytes))
      → lacks b' ' word ≡ true
      → strstr word front ≡ none
      → find_issue lib (front ++ b' ' ∷ text) ≡ find_issue lib text
      → find_issue ((issue, word) ∷ lib) (front ++ b' ' ∷ text)
        ≡ find_issue ((issue, word) ∷ lib) text
  unfolding find_issue
  find_issue-stamped issue word lib h e later = elim (Option-cases (strstr word text)) [
    | inl n ↦ rw (found word h e ∙ n, find_issue) (rw (n, find_issue) later)
    | inr (x, n) ↦ rw (found word h e ∙ n, find_issue) (rw (n, find_issue) refl)
  ]

  get_log_msg_issue_id-stamped :
      get_log_msg_issue_id (front ++ b' ' ∷ text) ≡ get_log_msg_issue_id text
  unfolding get_log_msg_issue_id log_str_lib find_issue
  get_log_msg_issue_id-stamped =
      find_issue-stamped log_suspend (codes "suspended")
        ((log_talk_build, codes "doubleTalk") ∷ (log_talk_conference, codes "trebleTalk") ∷ []) refl
        silent.suspended
        (find_issue-stamped log_talk_build (codes "doubleTalk")
          ((log_talk_conference, codes "trebleTalk") ∷ []) refl silent.double_talk
          (find_issue-stamped log_talk_conference (codes "trebleTalk") [] refl silent.treble_talk
            refl))

  syslog_process-stamped :
      (w : World) → syslog_process (front ++ b' ' ∷ text) w ≡ syslog_process text w
  unfolding syslog_process
  syslog_process-stamped w = elim (Option-cases (get_log_msg_issue_id text)) [
    | inl e ↦ rw (get_log_msg_issue_id-stamped ∙ e, syslog_process) (rw (e, syslog_process) refl)
    | inr (issue, e) ↦
        rw (get_log_msg_issue_id-stamped ∙ e, syslog_process)
          (rw (e, syslog_process) (rw (get_log_client_num-stamped, ◌>>=◌) refl))
  ]

-- The text that is appended to the file.
abbrev pub filed : Bytes → Bytes → Bytes
filed time line = take (length time - 1) time ++ codes ": " ++ line ++ codes "\n"

filed-stamp : (time line : Bytes) → filed time line ≡ stamp time ++ b' ' ∷ (line ++ codes "\n")
filed-stamp time line = simp (append_assoc) refl

syslog_process-filed :
    (time line : Bytes) (w : World)
    → IsSilent (stamp time)
    → syslog_process (filed time line) w ≡ syslog_process (line ++ codes "\n") w
syslog_process-filed time line w silent =
    ap (λ log. syslog_process log w) (filed-stamp time line)
    ∙ syslog_process-stamped (stamp time) (line ++ codes "\n") silent w

-- The test for a short write.
is_short-full : (n : ℕ) → (not (ltb_ℤ (pos n) (pos 0)) && ltb_ℤ (pos n) (pos n)) ≡ false
is_short-full n = ground arith

without_last-take : (s : Bytes) → 0 < length s → without_last s ≡ some (take (length s - 1) s)
without_last-take [] h = absurd (omega (arith, h))
without_last-take (c ∷ s) h = ap (λ n. some (take n (c ∷ s))) (omega arith)

stored-fits : (size : ℕ) (s : Bytes) → length s < size → stored size s ≡ some s
stored-fits size s h = ground arith

length-filed :
    (time line : Bytes) → length time < 50 → length line < 150 → length (filed time line) < 300
length-filed time line h l =
    let front = take (length time - 1) time in
    omega (
      arith,
      h,
      l,
      length-take_le (length time - 1) time,
      length-append front (codes ": "),
      length-append (front ++ codes ": ") line,
      length-append (front ++ codes ": " ++ line) (codes "\n"),
    )

-- The entry of a line that is not a recording.
log_entry-stamped :
    (os : Os) (source line : Bytes) (w : World)
    → length source < 16
    → length line < 150
    → strstr (codes "record") line ≡ none
    → 0 < length (os.ctime w.calls)
    → length (os.ctime w.calls) < 50
    → log_entry os source line w
      ≡ some (
        (
          codes "./log/" ++ source,
          take (length (os.ctime w.calls) - 1) (os.ctime w.calls) ++ codes ": " ++ line,
        ),
        record w { calls = w.calls + 1 },
      )
unfolding log_entry
log_entry-stamped os source line w near short plain some_time brief =
    let now = os.ctime w.calls in
    let path = stored-fits 50 (codes "./log/" ++ source) (omega arith) in
    let front = take (length now - 1) now in
    let room : length (front ++ codes ": " ++ line) < 300 = omega (
      arith,
      length-filed now line brief short,
      length-append (front ++ codes ": " ++ line) (codes "\n"),
    ) in
    rw (plain, log_entry)
      (rw (path, ◌>>=◌)
        (rw (stored-fits 50 now brief, ◌>>=◌)
          (rw (without_last-take now some_time, ◌>>=◌)
            (rw (stored-fits 300 (front ++ codes ": " ++ line) room, ◌>>=◌) refl))))

-- A round of `ret_receive` with a line of 1 to 149 bytes that is not a recording, if the file opens and
-- takes the whole text: where the byte behind the array `log` is spare, it appends the line, behind the
-- time, to the file of the phone, and then does to the clients and the counts what `syslogProcess` does
-- for the line as the phone sent it; where it is not, the round is undefined, since it writes a zero
-- there. The conditions: an address of at most 15 bytes, a time of 1 to 49 bytes, and no word
-- that the program looks for in the time.
pub ret_receive-files :
    (os : Os) (source line : Bytes) (w : World)
    → 0 < length line
    → length line < 150
    → length source < 16
    → strstr (codes "record") line ≡ none
    → 0 < length (os.ctime w.calls)
    → length (os.ctime w.calls) < 50
    → IsSilent (stamp (os.ctime w.calls))
    → os.log_opens (w.calls + 1) ≡ true
    → os.fwrite (w.calls + 1 + 1) ≡ pos (length (filed (os.ctime w.calls) line))
    → ret_receive os source line w ≡ (
        if os.spare
        then syslog_process (line ++ codes "\n") (record w {
          events = logged (codes "./log/" ++ source) (filed (os.ctime w.calls) line) ∷ w.events;
          calls = w.calls + 1 + 1 + 1;
        })
        else none)
unfolding ret_receive end_line
ret_receive-files os source line w some_byte short near plain some_time brief silent opens full =
    let whole : take 149 line ≡ line = take_all 149 line (omega arith) in
    let not_empty : (length line == 0) ≡ false = ground arith in
    let now = os.ctime w.calls in
    let fits = stored-fits 300 (filed now line) (length-filed now line brief short) in
    rw (whole) (
      rw (not_empty) (
        rw (log_entry-stamped os source line w near short plain some_time brief, ◌>>=◌)
          (rw (opens) (
            rw (fits, ◌>>=◌)
              (elim (Bool-cases os.spare) [
                | inr n ↦ rw n refl
                | inl s ↦ rw s (
                    rw (full, ◌>>=◌)
                      (rw (is_short-full (length (filed now line)), ◌>>=◌)
                        (syslog_process-filed now line _ silent)))
              ])))))
