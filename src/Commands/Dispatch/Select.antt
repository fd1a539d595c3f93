-- ===== src/Commands/Dispatch/Select.antt =====
-- What a typed line does.
use auto_test_tools.Base.{
  List, [], ◌∷◌, ℕ, suc, ◌+◌, ◌≡◌, ◌||◌, some, take, get_elem?, length, refl, ap, ◌∙◌,
  if◌then◌else◌, Bool-cases, inl, inr,
}
use auto_test_tools.Base.Int.{sub_ℕ}
use auto_test_tools.CString.Compare.{Bytes, codes, same}
use auto_test_tools.CString.Format.{bounded, IsPlain, IsText}
use auto_test_tools.CString.Tokens.{words}
use auto_test_tools.CmdLib.{Cmd, cmd_lib, get_cmd_code, find_cmd, names}
use auto_test_tools.Commands.Dispatch.{
  cmd_proc, run_entry, run_found, run_handler, auto_config, random_key,
}
use auto_test_tools.Commands.Clients.{add_client, del_client, change_client_ip_addr}
use auto_test_tools.Commands.Queue.{ioevt, call, syslog_conf, hide_feature_proc}
use auto_test_tools.Commands.Quit.{quit}
use auto_test_tools.Commands.Show.{show_help, show_client, look, delay}
use auto_test_tools.Commands.Threads.{run_script, start, stop}
use auto_test_tools.Commands.Timing.{random_time}
use auto_test_tools.Commands.Usage.{cmd_at}
use Prim.Native.String.{String}
use auto_test_tools.Params.{param}
use auto_test_tools.Params.Words.{parse_line-words}
use auto_test_tools.World.Monad.{M, Void, ◌>>=◌, say}
use auto_test_tools.World.State.{World, Os, max_token, max_sc_content}

pub run_entry-found :
    (os : Os) (exec : Bytes → M Void) (fuel : ℕ) (x : Bytes) (w : World)
    → param 0 w ≡ some (x, w)
    → run_entry os exec fuel w ≡ run_found os exec fuel (get_cmd_code cmd_lib x) w
unfolding run_entry
run_entry-found os exec fuel x w e = rw (e, ◌>>=◌) refl

-- The words of a line that `cmd_proc` sees.
abbrev pub seen_words : Bytes → List Bytes
seen_words line = take max_token (words b' ' (bounded max_sc_content line))

-- A line without `%` whose first word is `x` calls the handler of the entry that `getCmdCode` finds for
-- `x`, or prints that there is none, in a state that differs from the one before only in the parameters,
-- where each word of the line is read through its pointer and `gParamNum` is one less than their number.
pub cmd_proc-found :
    (os : Os) (fuel : ℕ) (line x : Bytes) (w : World)
    → IsPlain line
    → IsText line
    → get_elem? (seen_words line) 0 ≡ some x
    → (w' : World) × (w' ≡ record w { params = w'.params })
      × (w'.params.param_num ≡ sub_ℕ (length (seen_words line)) 1)
      × ((i : ℕ) (y : Bytes) → get_elem? (seen_words line) i ≡ some y → param i w' ≡ some (y, w'))
      × (cmd_proc os (suc fuel) line w
          ≡ run_found os (cmd_proc os fuel) fuel (get_cmd_code cmd_lib x) w')
unfolding cmd_proc
cmd_proc-found os fuel line x w plain text first =
    let (w', e, kept, num, reads) = parse_line-words line w plain text in
    (
      w',
      kept,
      num,
      reads,
      rw (e, ◌>>=◌) (run_entry-found os (cmd_proc os fuel) fuel x w' (reads 0 x first)),
    )

-- What the commands of the program are: for each its two names and what it does, given its place in
-- the list, which the messages on its use go by. `call` stands in the list twice.
abbrev pub Table : Type 0
Table = List (Bytes × Bytes × M Void)

abbrev pub named : String → String → M Void → Bytes × Bytes × M Void
named name nick run = (codes name, codes nick, run)

abbrev pub table : Os → (Bytes → M Void) → ℕ → Table
table os exec fuel =
    named "help" "h" (show_help 0)
    ∷ named "autoConfig" "ac" (auto_config os exec 1)
    ∷ named "add" "ad" (add_client os 2)
    ∷ named "call" "call" (call os 3)
    ∷ named "changeIp" "ci" (change_client_ip_addr os 4)
    ∷ named "del" "dl" (del_client 5)
    ∷ named "delay" "dy" (delay 6)
    ∷ named "ioevt" "ie" (ioevt os 7)
    ∷ named "call" "call" (call os 8)
    ∷ named "look" "l" (look 9)
    ∷ named "quit" "q" (quit os 10)
    ∷ named "runScript" "rs" (run_script os 11)
    ∷ named "randomTime" "rt" (random_time os 12)
    ∷ named "randomKey" "rk" (random_key os exec fuel 13)
    ∷ named "show" "s" (show_client 14)
    ∷ named "start" "st" (start os 15)
    ∷ named "stop" "sp" (stop 16)
    ∷ named "syslog" "sl" (syslog_conf os 17)
    ∷ named "hideFeature" "hf" (hide_feature_proc os 18)
    ∷ []

-- The first command with the word as one of its names, or the message that there is none.
abbrev pub chosen : Table → Bytes → M Void
chosen [] word = say "cmd not found!\n" []
chosen ((name, nick, run) ∷ rest) word =
    if same name word || same nick word then run else chosen rest word

module _ (os : Os) (exec : Bytes → M Void) (fuel : ℕ) where
  -- The entries of the program's table from place `k` on, each with what a call of it does.
  abbrev entries : List Cmd → ℕ → Table
  entries [] k = []
  entries (c ∷ cs) k =
      (c.cmd_name, c.nick_name, run_found os exec fuel (some k)) ∷ entries cs (k + 1)

  find_cmd-chosen :
      (cs : List Cmd) (k : ℕ) (word : Bytes)
      → run_found os exec fuel (find_cmd cs word k) ≡ chosen (entries cs k) word
  unfolding find_cmd names run_found
  find_cmd-chosen [] k word = refl
  find_cmd-chosen (c ∷ cs) k word =
      elim (Bool-cases (same c.cmd_name word || same c.nick_name word)) [
        | inl e ↦ rw e refl
        | inr e ↦ rw e (find_cmd-chosen cs (k + 1) word)
      ]

  cmd_lib-table : entries cmd_lib 0 ≡ table os exec fuel
  unfolding cmd_lib run_found run_handler cmd_at
  cmd_lib-table = refl

  get_cmd_code-chosen :
      (word : Bytes)
      → run_found os exec fuel (get_cmd_code cmd_lib word) ≡ chosen (table os exec fuel) word
  unfolding get_cmd_code
  get_cmd_code-chosen word =
      find_cmd-chosen cmd_lib 0 word ∙ ap (λ (t : Table). chosen t word) cmd_lib-table

-- A line without `%` does what the first command with its first word as a name does, or prints that there
-- is no such command, in a state that differs from the one before only in the parameters, where each word
-- of the line is read through its pointer and `gParamNum` is one less than their number.
pub cmd_proc-obeys :
    (os : Os) (fuel : ℕ) (line x : Bytes) (w : World)
    → IsPlain line
    → IsText line
    → get_elem? (seen_words line) 0 ≡ some x
    → (w' : World) × (w' ≡ record w { params = w'.params })
      × (w'.params.param_num ≡ sub_ℕ (length (seen_words line)) 1)
      × ((i : ℕ) (y : Bytes) → get_elem? (seen_words line) i ≡ some y → param i w' ≡ some (y, w'))
      × (cmd_proc os (suc fuel) line w ≡ chosen (table os (cmd_proc os fuel) fuel) x w')
cmd_proc-obeys os fuel line x w plain text first =
    let (w', kept, num, reads, runs) = cmd_proc-found os fuel line x w plain text first in
    (
      w',
      kept,
      num,
      reads,
      runs ∙ ap (λ (m : M Void). m w') (get_cmd_code-chosen os (cmd_proc os fuel) fuel x),
    )
