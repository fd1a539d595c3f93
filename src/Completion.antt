-- ===== src/Completion.antt =====
-- core/src/readline.c and `gCommands` of core/src/at_cmdProc.c: the completion of words at the prompt.
pub mod Matches
use auto_test_tools.Base.{
  ℕ, zero, suc, ◌+◌, Bool, List, [], ◌∷◌, Option, none, some, length, take, drop, ltb, ◌==◌,
  if◌then◌else◌, map,
}
use auto_test_tools.CString.Compare.{Bytes, codes, same}

-- `gCommands`; no NULL ends it.
unfoldable pub g_commands : List Bytes
g_commands =
    codes "help"
    ∷ codes "autoConfig"
    ∷ codes "add"
    ∷ codes "call"
    ∷ codes "changeIp"
    ∷ codes "del"
    ∷ codes "test"
    ∷ codes "rec"
    ∷ codes "delay"
    ∷ codes "all"
    ∷ codes "ioevt"
    ∷ codes "ie"
    ∷ codes "look"
    ∷ codes "quit"
    ∷ codes "runScript"
    ∷ codes "rs"
    ∷ codes "randomTime"
    ∷ codes "rt"
    ∷ codes "randomKey"
    ∷ codes "rk"
    ∷ codes "show"
    ∷ codes "start"
    ∷ codes "stop"
    ∷ codes "script"
    ∷ codes "syslog"
    ∷ codes "sl"
    ∷ codes "hideFeature"
    ∷ codes "hf"
    ∷ codes "enable"
    ∷ codes "disable"
    ∷ codes "show"
    ∷ codes "s"
    ∷ codes "192.168.10."
    ∷ []

-- The static variables of `command_generator`.
pub record Generator : Type 0 where
  pub list_index : ℕ
  pub len : ℕ

-- `strncmp(name, text, len) == 0`
unfoldable pub same_prefix : ℕ → Bytes → Bytes → Bool
unfolding same
same_prefix len name text = same (take len name) (take len text)

-- The loop of `command_generator` over the rest of the table: the name, and the index behind it.
-- Behind the last name it reads past the array, which is undefined.
unfoldable pub next_name : List Bytes → ℕ → Bytes → ℕ → Option (Bytes × ℕ)
next_name [] len text index = none
next_name (name ∷ table) len text index =
    let later = next_name table len text (index + 1) in
    if same_prefix len name text then some (name, index + 1) else later

-- `command_generator`: `state` is 0 in the first call for a text.
unfoldable pub command_generator : List Bytes → Bytes → ℕ → Generator → Option (Bytes × Generator)
command_generator table text state g =
    let index = if state == 0 then 0 else g.list_index in
    let len = if state == 0 then length text else g.len in
    elim (next_name (drop index table) len text index) [
      | none ↦ none
      | some (name, next) ↦ some (name, record { list_index = next; len = len })
    ]

-- The text behind the last space, if there is a space.
unfoldable pub behind_last_space : Bytes → Option Bytes
behind_last_space [] = none
behind_last_space (c ∷ cs) = elim (behind_last_space cs) [
  | some text ↦ some text
  | none ↦ if c == b' ' then some cs else none
]

-- The text that `command_completion` hands on: behind the start of the line that is the last word, if
-- there is one behind the last space.
unfoldable pub completed_text : Bytes → ℕ → Bytes
completed_text text start = if start == 0 then text else elim (behind_last_space text) [
  | none ↦ text
  | some word ↦ if ltb 0 (length word) then word else text
]

-- The first `n` results for a text, as `rl_completion_matches` asks for them.
unfoldable pub generate : List Bytes → Bytes → ℕ → ℕ → Generator → Option (List Bytes)
generate table text zero state g = some []
generate table text (suc n) state g = elim (command_generator table text state g) [
  | none ↦ none
  | some (name, g') ↦ elim (generate table text n (state + 1) g') [
    | none ↦ none
    | some names ↦ some (name ∷ names)
  ]
]
