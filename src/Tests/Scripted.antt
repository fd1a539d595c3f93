-- ===== src/Tests/Scripted.antt =====
-- A script that is begun by a typed line and comes to the phone.
use auto_test_tools.Base.Int.{pos}
use auto_test_tools.Base.{[], ◌∷◌, ◌≡◌, ◌≢◌, refl, some, arith}
use auto_test_tools.CString.Compare.{codes, same}
use auto_test_tools.CString.Format.{snprintf_format, format}
use auto_test_tools.CString.Number.{atoi}
use auto_test_tools.CString.Tokens.{c_string, string_at, gap, after_gap, token, strtok}
use auto_test_tools.CmdLib.{cmd_lib, get_cmd_code, names}
use auto_test_tools.Commands.Clients.{add_client, add_client_at, locked_flag, register}
use auto_test_tools.Commands.Dispatch.{cmd_proc, run_entry, run_found, run_handler}
use auto_test_tools.Commands.Queue.Texts.{text_msg}
use auto_test_tools.Commands.Threads
use auto_test_tools.Commands.Threads.{start_mode}
use auto_test_tools.Commands.Usage.{cmd_at}
use auto_test_tools.Logs.Serve.{cmd_send}
use auto_test_tools.Network.{network_config, set_client_flag, set_client_ip_addr, get_client_flag}
use auto_test_tools.Params.{
  parse_line, get_tokens, store_tokens, param, param_number, param_pointer,
}
use auto_test_tools.System.Reach.{initial, Reach, start, later, turn, command}
use auto_test_tools.Commands.Threads.{set_script_thread_id}
use auto_test_tools.Tests.Fixtures.{calm}
use auto_test_tools.Tests.Session.{final}
use auto_test_tools.Tests.Arrival.{pressed}
use auto_test_tools.World.State.{World}
use auto_test_tools.Logs.Delivery.{delivered_all}
use auto_test_tools.Commands.Queue.Send.{ioevt_msg}
use auto_test_tools.System.Entries.{ioevt_entry}
use auto_test_tools.Network.Config.{PtonLaws}
use auto_test_tools.Script.Load.{
  commands, file_lines, lines_on, take_line, line_command, skipped, before_semicolon,
}
use auto_test_tools.Script.Run.{script_cmd_process, begins_with}
use auto_test_tools.CString.Compare.{Bytes, starts_with}
use auto_test_tools.CString.Tokens.{words, pieces, nonempty}
use auto_test_tools.Commands.Queue.Keys.{key_codes_of}
use auto_test_tools.KeyMap.{key_lib, get_key_code, find_key, key_matches, key_entries}
use auto_test_tools.System.ScriptArrival.{
  SaysRows, text_row, key_row, says_nothing, says_row, script-arrives,
}
use auto_test_tools.System.TextArrival.{says_call}
use auto_test_tools.World.Monad.{Ends, for_each, ◌>>◌}
use auto_test_tools.World.State.{Os, Msg, Event}
use auto_test_tools.Base.{List, length, ◌++◌}

abbrev script_text : Bytes
script_text = codes "# calls\ncall 3 100;\nie 3 he,1,# p;\n"

-- Every file holds this script.
abbrev with_script : Os
with_script = record calm { file = λ name. some script_text }

abbrev registering : World
registering = final (cmd_proc with_script 1 (codes "ad 3 1.1.1.1") initial)

abbrev sending : World
sending = final (cmd_proc with_script 1 (codes "st test") registering)

abbrev beginning : World
beginning = final (cmd_proc with_script 1 (codes "rs 3 a.txt") sending)

begins :
    (cmd_proc with_script 1 (codes "ad 3 1.1.1.1") initial ≡ some (tt, registering))
    × (cmd_proc with_script 1 (codes "st test") registering ≡ some (tt, sending))
    × (cmd_proc with_script 1 (codes "rs 3 a.txt") sending ≡ some (tt, beginning))
unfolding cmd_proc run_entry run_found run_handler cmd_at get_cmd_code names cmd_lib parse_line
    get_tokens param param_number param_pointer add_client add_client_at locked_flag register
    network_config set_client_flag set_client_ip_addr get_client_flag atoi snprintf_format format
    strtok store_tokens auto_test_tools.CString.Tokens.token_loop after_gap
    auto_test_tools.CString.Tokens.after_token string_at gap token Threads.start Threads.start_mode
    Threads.open_queue Threads.start_send Threads.create_thread same Threads.run_script
    Threads.run_script_at Threads.get_script_thread_id set_script_thread_id
begins = (refl, refl, refl)

beginning-Reach : Reach with_script beginning
beginning-Reach =
    later
      (later (later (start [] tt) (turn (command 1 (codes "ad 3 1.1.1.1") begins.0)))
        (turn (command 1 (codes "st test") begins.1)))
      (turn (command 1 (codes "rs 3 a.txt") begins.2))

beginning-serves :
    (param 1 beginning ≡ some (codes "3", beginning))
    × (beginning.threads.send_id ≢ 0)
    × (beginning.syslog_port ≡ pos 0)
    × (beginning.queue ≡ [])
unfolding cmd_proc run_entry run_found run_handler cmd_at get_cmd_code names cmd_lib parse_line
    get_tokens param param_number param_pointer add_client add_client_at locked_flag register
    network_config set_client_flag set_client_ip_addr get_client_flag atoi snprintf_format format
    strtok store_tokens auto_test_tools.CString.Tokens.token_loop after_gap
    auto_test_tools.CString.Tokens.after_token string_at gap token Threads.start Threads.start_mode
    Threads.open_queue Threads.start_send Threads.create_thread same Threads.run_script
    Threads.run_script_at Threads.get_script_thread_id set_script_thread_id
beginning-serves = (refl, omega arith, refl, refl)

abbrev spoken : List Msg
spoken = text_msg 3 (codes "call") (codes "100") ∷ ioevt_msg 3 ioevt_entry pressed (codes "p") ∷ []

spoken-SaysRows : SaysRows (pos 0) (codes "call 3 100" ∷ codes "ie 3 he,1,# p" ∷ []) spoken
unfolding words pieces nonempty get_cmd_code names cmd_lib same atoi key_codes_of get_key_code
    find_key key_matches key_lib key_entries
spoken-SaysRows =
    says_row
      (text_row 3 (codes "3") (codes "call" ∷ codes "3" ∷ codes "100" ∷ []) (omega arith)
        (omega arith) refl (says_call (codes "call") (codes "100") refl (omega arith) (omega arith))
        refl (omega arith))
      (says_row
        (key_row 3 (codes "ie") (codes "3") (codes "he,1,#") (codes "p") pressed (omega arith)
          (omega arith) refl refl refl (omega arith) refl (omega arith) (omega arith) refl)
        says_nothing)

with_script-PtonLaws : PtonLaws with_script
with_script-PtonLaws = record { dotted = λ s h. ground arith }

script-arrives_example :
    Ends
      ((script_cmd_process with_script (cmd_proc with_script 1)
          >> for_each (length (beginning.queue ++ spoken)) 0 (λ _. cmd_send))
        beginning)
      (λ w'.
        (w'.threads.script_ids 3 ≡ 0)
        × (w'.queue ≡ [])
        × ((earlier : List Event) × (w'.events
              ≡ delivered_all with_script beginning.net (beginning.queue ++ spoken) earlier)))
unfolding commands file_lines lines_on take_line line_command skipped before_semicolon c_string
    begins_with starts_with atoi
script-arrives_example =
    script-arrives with_script 0 3 (codes "3") script_text
      (codes "call 3 100" ∷ codes "ie 3 he,1,# p" ∷ []) spoken beginning with_script-PtonLaws
      beginning-Reach beginning-serves.0 refl (omega arith) refl refl (omega arith) (omega arith)
      (refl, (refl, tt)) (rw beginning-serves.2 spoken-SaysRows) beginning-serves.1 (λ i e. cc)
