-- ===== src/Tests/Session.antt =====
-- Four typed lines, run from the state in which the program begins.
use auto_test_tools.Base.Int.{pos}
use auto_test_tools.Base.{[], ◌∷◌, ◌≡◌, ◌≢◌, refl, Option, none, some, arith}
use auto_test_tools.CString.Compare.{codes, same}
use auto_test_tools.CString.Format.{snprintf_format, format}
use auto_test_tools.CString.Number.{atoi, decimal_ℤ}
use auto_test_tools.CString.Tokens.{c_string, string_at, gap, after_gap, token, strtok}
use auto_test_tools.CmdLib.{cmd_lib, get_cmd_code, names}
use auto_test_tools.Commands.Clients.{add_client, add_client_at, locked_flag, register}
use auto_test_tools.Commands.Dispatch.{cmd_proc, run_entry, run_found, run_handler}
use auto_test_tools.Commands.Queue.{
  syslog_conf, client_ready, shared_send, syslog_text, cmd_code_of, send_msg,
}
use auto_test_tools.Commands.Queue.Texts.{text_msg, syslog_body}
use auto_test_tools.Commands.Threads
use auto_test_tools.Commands.Threads.{start_mode}
use auto_test_tools.Commands.Usage.{cmd_at}
use auto_test_tools.Logs.Serve.{msgrcv, send_message, cmd_send}
use auto_test_tools.Network.{
  get_socket, get_client_sock_addr, network_config, set_client_flag, set_client_ip_addr,
  get_client_flag,
}
use auto_test_tools.Network.Tables.{registered}
use auto_test_tools.Params.{
  parse_line, get_tokens, store_tokens, param, param_number, param_pointer,
}
use auto_test_tools.System.Reach.{initial, Reach, start, later, turn, command}
use auto_test_tools.Commands.Threads.{set_script_thread_id}
use auto_test_tools.Tests.Fixtures.{calm}
use auto_test_tools.World.Monad.{Void}
use auto_test_tools.World.State.{World}

abbrev pub final : Option (Void × World) → World
final none = initial
final (some (_, w)) = w

-- A client, the send thread and a message for the client.
abbrev pub with_client : World
with_client = final (cmd_proc calm 1 (codes "ad 3 1.1.1.1") initial)

abbrev pub testing : World
testing = final (cmd_proc calm 1 (codes "st test") with_client)

abbrev pub waiting : World
waiting = final (cmd_proc calm 1 (codes "sl 3 on") testing)

-- A fourth line, and a round of the send thread.
abbrev pub fuller : World
fuller = final (cmd_proc calm 1 (codes "sl 3 off") waiting)

abbrev pub served : World
served = final (cmd_send fuller)

-- Each of the lines has a run, and so has the round.
pub lines-run :
    (cmd_proc calm 1 (codes "ad 3 1.1.1.1") initial ≡ some (tt, with_client))
    × (cmd_proc calm 1 (codes "st test") with_client ≡ some (tt, testing))
    × (cmd_proc calm 1 (codes "sl 3 on") testing ≡ some (tt, waiting))
    × (cmd_proc calm 1 (codes "sl 3 off") waiting ≡ some (tt, fuller))
    × (cmd_send fuller ≡ some (tt, served))
unfolding cmd_proc run_entry run_found run_handler cmd_at get_cmd_code names cmd_lib parse_line
    get_tokens param param_number param_pointer add_client add_client_at locked_flag register
    network_config set_client_flag set_client_ip_addr get_client_flag atoi snprintf_format format
    strtok store_tokens auto_test_tools.CString.Tokens.token_loop after_gap
    auto_test_tools.CString.Tokens.after_token string_at gap token Threads.start Threads.start_mode
    Threads.open_queue Threads.start_send Threads.create_thread same syslog_conf client_ready
    shared_send syslog_text cmd_code_of send_msg decimal_ℤ cmd_send msgrcv send_message get_socket
    get_client_sock_addr
lines-run = (refl, refl, refl, refl, refl)

pub waiting-Reach : Reach calm waiting
waiting-Reach =
    later
      (later (later (start [] tt) (turn (command 1 (codes "ad 3 1.1.1.1") lines-run.0)))
        (turn (command 1 (codes "st test") lines-run.1)))
      (turn (command 1 (codes "sl 3 on") lines-run.2))

-- Client 3 is registered, the send thread runs, and a message for the client is queued.
pub waiting-serves :
    (registered waiting.net 3 ≡ some (codes "1.1.1.1"))
    × (waiting.threads.send_id ≢ 0)
    × (waiting.queue ≡ text_msg 3 (codes "syslog") (syslog_body (codes "on") none 3 (pos 0)) ∷ [])
unfolding cmd_proc run_entry run_found run_handler cmd_at get_cmd_code names cmd_lib parse_line
    get_tokens param param_number param_pointer add_client add_client_at locked_flag register
    network_config set_client_flag set_client_ip_addr get_client_flag atoi snprintf_format format
    strtok store_tokens auto_test_tools.CString.Tokens.token_loop after_gap
    auto_test_tools.CString.Tokens.after_token string_at gap token Threads.start Threads.start_mode
    Threads.open_queue Threads.start_send Threads.create_thread same syslog_conf client_ready
    shared_send syslog_text cmd_code_of send_msg decimal_ℤ
waiting-serves = (refl, omega arith, refl)
