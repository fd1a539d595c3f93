-- ===== src/Logs/Lines.antt =====
-- core/src/autoTest.c: `getLogMsgIssueId` and `getLogClientNum`, which read a log line.
use auto_test_tools.Base.{List, [], ◌∷◌, Option, none, some, length, ltb, drop, ◌==◌, if◌then◌else◌}
use auto_test_tools.Base.Int.{ℤ, pos}
use auto_test_tools.CString.Compare.{Bytes, codes, strstr}
use auto_test_tools.CString.Number.{atoi}

-- `eLogStr`, whose values are the indices of `gLogStrLib`.
pub data LogStr : Type 0 where
  log_suspend log_talk_build log_talk_conference : LogStr

-- `gLogStrLib`, in order.
unfoldable pub log_str_lib : List (LogStr × Bytes)
log_str_lib =
    (log_suspend, codes "suspended")
    ∷ (log_talk_build, codes "doubleTalk")
    ∷ (log_talk_conference, codes "trebleTalk")
    ∷ []

unfoldable pub find_issue : List (LogStr × Bytes) → Bytes → Option LogStr
find_issue [] log = none
find_issue ((issue, word) ∷ lib) log =
    let later = find_issue lib log in elim (strstr word log) [ none ↦ later | some _ ↦ some issue ]

-- `getLogMsgIssueId`; `none` stands for RET_ERROR.
unfoldable pub get_log_msg_issue_id : Bytes → Option LogStr
get_log_msg_issue_id log = find_issue log_str_lib log

-- The bytes up to a space; none without one, where the C loop runs off the text.
unfoldable pub up_to_space : Bytes → Option Bytes
up_to_space [] = none
up_to_space (c ∷ cs) =
    let rest = up_to_space cs in
    if c == b' ' then some [] else elim rest [ none ↦ none | some word ↦ some (c ∷ word) ]

-- The number behind `client` and one more byte. The word is copied into three bytes, the last of which
-- must stay zero for `atoi`.
unfoldable pub client_field : Bytes → Option ℤ
client_field [] = none
client_field (_ ∷ text) =
    let field = up_to_space text in
    elim field [ none ↦ none | some word ↦ if ltb (length word) 3 then atoi word else none ]

-- `AT_ERROR`, the last of `atstat_e`.
abbrev pub at_error : ℤ
at_error = pos 2

-- `getLogClientNum`
unfoldable pub get_log_client_num : Bytes → Option ℤ
get_log_client_num log = elim (strstr (codes "client") log) [
  | none ↦ some at_error
  | some text ↦ client_field (drop 6 text)
]
