-- ===== src/Tests/Services.antt =====
-- The theorems on threads, scripts and log lines, each at an input that meets its hypotheses.
use auto_test_tools.Base.{
  get_elem?, length, ℕ, ◌≡◌, ◌↔◌, ◌<◌, ◌≤◌, refl, List, [], ◌∷◌, none, some, arith, ◌==◌,
}
use auto_test_tools.Base.Int.{sub_ℕ, pos, pos_part}
use auto_test_tools.CString.Compare.{Bytes, codes, strstr, starts_with, same}
use auto_test_tools.Completion.{
  g_commands, generate, same_prefix, completed_text, behind_last_space,
}
use auto_test_tools.Completion.Matches.{matching, generate-matching}
use auto_test_tools.CString.Tokens.{words}
use auto_test_tools.Params.{param}
use auto_test_tools.Commands.Dispatch.{cmd_proc}
use auto_test_tools.Commands.Dispatch.Select.{seen_words, table, chosen, cmd_proc-obeys}
use auto_test_tools.Commands.Show.{show_tables}
use auto_test_tools.Commands.Timing.{get_rand_value, scaled, to_float, excess_bits, round_to}
use auto_test_tools.Commands.Timing.Bounds.{get_rand_value-bounds}
use auto_test_tools.Commands.Show.Rows.{tables_shown, show_tables-registered}
use auto_test_tools.CString.Number.{atoi}
use auto_test_tools.Commands.Clients.Registry.{BecomesRegistry}
use auto_test_tools.Commands.Threads.{stop_all, stop_script}
use auto_test_tools.Commands.Threads.Modes.{stop_all-idle, stop_script-undefined_iff}
use auto_test_tools.Logs.Counts.{syslog_process}
use auto_test_tools.Logs.Delivery.{Delivers, delivered_all, cmd_send-fifo}
use auto_test_tools.Logs.Effects.{syslog_process-removes, syslog_process-counts}
use auto_test_tools.Logs.Lines.{
  log_talk_build, get_log_msg_issue_id, find_issue, log_str_lib, get_log_client_num, client_field,
  up_to_space,
}
use auto_test_tools.Logs.Ports.{HasFirstPort, bind_port-first}
use auto_test_tools.Logs.Serve.{cmd_send, bind_port}
use auto_test_tools.Network.Tables.{registered}
use auto_test_tools.Script.Loops.{IsLoop, repeat, run_rows-repeat}
use auto_test_tools.Script.Run.{row_at, begins_with, loop_count, run_rows}
use auto_test_tools.Tests.Fixtures.{calm, serving, serving-IsConsistent}
use auto_test_tools.World.Array.{update}
use auto_test_tools.World.Monad.{M, Void, Ends, Returns, for_each, emit, ◌>>=◌}
use auto_test_tools.World.State.{printed, killed, joined, World, Msg, shared, wrote}

stop_all-idle_example : Ends (stop_all 8 0 serving) (λ w'.
    (w' ≡ record serving {
      threads = record { send_id = 0; rec_id = 0; script_ids = w'.threads.script_ids };
      scripts = record serving.scripts { names = λ _. [] };
      events =
          printed "script mode stoped!\n" []
          ∷ printed "test mode stoped!\n" []
          ∷ joined 8
          ∷ killed 8
          ∷ serving.events;
    })
    × ((j : ℕ) → j < 10 → w'.threads.script_ids j ≡ 0))
stop_all-idle_example = stop_all-idle serving

stop_script-undefined_iff_example : (stop_script (pos 10) serving ≡ none) ↔ (pos 10 ≡ pos 10)
stop_script-undefined_iff_example = stop_script-undefined_iff (pos 10) serving

abbrev two_messages : List Msg
two_messages =
    record { client_num = pos 3; cmd_obj = record { cmd_code = codes "sl"; param = shared [] } }
    ∷ record { client_num = pos 4; cmd_obj = record { cmd_code = codes "hf"; param = shared [] } }
    ∷ []

abbrev sending : World
sending = record serving { queue = two_messages }

cmd_send-fifo_example :
    Ends
      (for_each 2 0 (λ _. cmd_send) sending)
      (Delivers [] (delivered_all calm sending.net two_messages sending.events) sending)
cmd_send-fifo_example =
    cmd_send-fifo calm two_messages 0 sending refl serving-IsConsistent (refl, (refl, tt)) refl

syslog_process-removes_example :
    Ends
      (syslog_process (codes "now: client 3 is suspended\n") serving)
      (BecomesRegistry calm (update (registered serving.net) 3 none))
unfolding get_log_msg_issue_id find_issue log_str_lib get_log_client_num client_field up_to_space
    strstr starts_with atoi
syslog_process-removes_example =
    syslog_process-removes calm serving (codes "now: client 3 is suspended\n") (pos 3) refl
      serving-IsConsistent refl refl

syslog_process-counts_example :
    syslog_process (codes "now: client 3 doubleTalk\n") serving
    ≡ some (
      tt,
      record serving {
        success_call = update serving.success_call 0 (update (serving.success_call 0) 3 (pos 1));
      },
    )
unfolding get_log_msg_issue_id find_issue log_str_lib get_log_client_num client_field up_to_space
    strstr starts_with atoi
syslog_process-counts_example =
    syslog_process-counts serving (codes "now: client 3 doubleTalk\n") log_talk_build 0 (pos 3) 0
      refl refl refl refl (omega arith)

bind_port-first_example :
    Ends (bind_port (λ p. p == 5004) serving) (HasFirstPort (λ p. p == 5004) serving)
bind_port-first_example = bind_port-first (λ p. p == 5004) serving

abbrev looping : List Bytes
looping =
    codes "dy 9" ∷ codes "loop 2" ∷ codes "start" ∷ codes "dy 1" ∷ codes "dy 2" ∷ codes "end" ∷ []

abbrev loop_body : List Bytes
loop_body = codes "dy 1" ∷ codes "dy 2" ∷ []

abbrev writes : Bytes → M Void
writes row = emit (wrote row)

looping-IsLoop : IsLoop looping 1 1 (codes "loop 2") (codes "start") (codes "end") loop_body
unfolding row_at begins_with loop_count atoi starts_with
looping-IsLoop = record {
  holds = (refl, (refl, (refl, (refl, tt))));
  ends = refl;
  is_loop = refl;
  count = refl;
  is_start = refl;
  not_end = refl;
  some_row = omega arith;
  plain = ((refl, refl), ((refl, refl), tt));
  not_start = refl;
  is_end = refl;
}

run_rows-repeat_example :
    run_rows writes looping (pos 0) 6 1 none serving
    ≡ (repeat writes (pos 0) loop_body 2 >>= λ _. run_rows writes looping (pos 0) 5 6 (some 3))
        serving
run_rows-repeat_example =
    run_rows-repeat looping writes (pos 0) 1 1 none (codes "loop 2") (codes "start") (codes "end")
      loop_body serving looping-IsLoop 5 (omega arith)

generate-matching_example :
    (generate g_commands (codes "ra") 2 0 (record { list_index = 9; len = 4 })
      ≡ some (codes "randomTime" ∷ codes "randomKey" ∷ []))
    × (generate g_commands (codes "ra") 3 0 (record { list_index = 9; len = 4 }) ≡ none)
unfolding matching same_prefix g_commands same
generate-matching_example =
    generate-matching g_commands (codes "ra") (record { list_index = 9; len = 4 })
      (codes "randomTime" ∷ codes "randomKey" ∷ []) refl

show_tables-registered_example :
    show_tables serving ≡ some (tt, record serving { events = tables_shown serving })
show_tables-registered_example =
    show_tables-registered serving refl (λ i. (serving-IsConsistent i).0)

last_word :
    (completed_text (codes "add 1 lo") 3 ≡ codes "lo")
    × (completed_text (codes "add ") 3 ≡ codes "add ")
unfolding completed_text behind_last_space
last_word = (refl, refl)

get_rand_value-bounds_example :
    Returns
      (get_rand_value calm (pos 5) (pos 10) serving)
      (λ r w'. (5 ≤ pos_part r) × (pos_part r ≤ 15) × (w' ≡ record serving { calls = 1 }))
get_rand_value-bounds_example =
    get_rand_value-bounds calm serving 5 10 (omega arith) (omega arith) (omega arith) (omega arith)

-- The largest random number gives a value past the greater bound.
past_the_maximum : scaled 10 2147483647 ≡ some 10
unfolding scaled to_float excess_bits round_to
past_the_maximum = refl

cmd_proc-obeys_example :
    (w' : World) × (w' ≡ record serving { params = w'.params })
    × (w'.params.param_num ≡ sub_ℕ (length (seen_words (codes "del 3"))) 1)
    × ((i : ℕ) (y : Bytes)
        → get_elem? (seen_words (codes "del 3")) i ≡ some y
        → param i w' ≡ some (y, w'))
    × (cmd_proc calm 2 (codes "del 3") serving
        ≡ chosen (table calm (cmd_proc calm 1) 1) (codes "del") w')
unfolding words
cmd_proc-obeys_example =
    cmd_proc-obeys calm 1 (codes "del 3") (codes "del") serving (omega arith) (omega arith) refl

-- A random key may be the one behind the table.
past_the_keys : scaled 255 2147483647 ≡ some 255
unfolding scaled to_float excess_bits round_to
past_the_keys = refl
