-- ===== src/Tests/Examples.antt =====
-- Each theorem at an input that meets its hypotheses.
use auto_test_tools.Base.{
  ℕ, ◌≡◌, refl, [], ◌∷◌, none, some, arith, take, get_elem?, length, if◌then◌else◌, inl,
}
use auto_test_tools.Base.Int.{pos, sub_ℕ}
use auto_test_tools.CString.Compare.{Bytes, codes, same}
use auto_test_tools.CString.Format.{bounded, format}
use auto_test_tools.CString.Number.{atoi}
use auto_test_tools.CString.Tokens.{string_at, words}
use auto_test_tools.CmdLib.{Cmd, Handler, cmd, cmd_lib, names}
use auto_test_tools.Commands.Clients.{add_client_at, del_client_at, change_client_at}
use auto_test_tools.Commands.Clients.Effects.{change_client-keeps}
use auto_test_tools.Commands.Clients.Registry.{
  BecomesRegistry, add_client-registers, del_client-removes,
}
use auto_test_tools.Commands.Queue.{ioevt, read_keys}
use auto_test_tools.Commands.Queue.Keys.{key_codes_of, read_keys-key_codes_of}
use auto_test_tools.Commands.Queue.Send.{queue_with, ioevt-sends}
use auto_test_tools.Network.Config.{accepts}
use auto_test_tools.Network.Tables.{registered}
use auto_test_tools.Params.{parse_line, param}
use auto_test_tools.Params.Words.{parse_line-words}
use auto_test_tools.Tests.Fixtures.{calm, calm-PtonLaws, serving, serving-IsConsistent, typed_ioevt}
use auto_test_tools.World.Array.{update}
use auto_test_tools.World.Monad.{Ends, Returns}
use auto_test_tools.World.State.{World, max_token, max_sc_content}

abbrev add_entry : Cmd
add_entry = cmd "add" "ad" "add: add 1(client number) 192.168.10.1(ip address)" Handler.add_client

add_entry-at : get_elem? cmd_lib 2 ≡ some add_entry
unfolding cmd_lib
add_entry-at = refl

add_client-registers_example :
    Ends (add_client_at calm 2 (pos 4) (some (codes "10.0.0.1")) serving) (
      BecomesRegistry calm (
        if accepts calm serving (pos 4) (some (codes "10.0.0.1"))
        then update (registered serving.net) 4 (some (codes "10.0.0.1"))
        else registered serving.net))
add_client-registers_example =
    add_client-registers calm 2 add_entry-at serving refl serving-IsConsistent calm-PtonLaws (pos 4)
      (some (codes "10.0.0.1"))

del_client-removes_example :
    Ends
      (del_client_at 2 (pos 1) (pos 3) serving)
      (BecomesRegistry calm (update (registered serving.net) 3 none))
del_client-removes_example =
    del_client-removes calm 2 add_entry-at serving refl serving-IsConsistent (pos 1) (pos 3)

change_client-keeps_example :
    Ends
      (change_client_at calm (pos 3) (some (codes "10.0.0.1")) serving)
      (λ w'. w' ≡ record serving { events = w'.events })
change_client-keeps_example =
    change_client-keeps serving refl calm (pos 3) (some (codes "10.0.0.1")) (inl refl)

read_keys-key_codes_of_example : Returns (read_keys (codes "he,1,#") serving) (λ r w'.
    (r ≡ key_codes_of (words b',' (bounded 20 (codes "he,1,#"))))
    × (w' ≡ record serving {
      params = record serving.params { buffer = w'.params.buffer };
      events = w'.events;
    }))
read_keys-key_codes_of_example =
    read_keys-key_codes_of (codes "he,1,#") serving (omega arith) (omega arith)

abbrev ioevt_entry : Cmd
ioevt_entry =
    cmd "ioevt" "ie" "ioevt: ioevt 1(client number) 1,2(key number) p/l(action)" Handler.ioevt

ioevt-sends_example : Ends (ioevt calm 7 typed_ioevt) (λ w'.
    (w'.queue
      ≡ queue_with 3 ioevt_entry
          (codes "p")
          []
          (key_codes_of (words b',' (bounded 20 (codes "he,1,#")))))
    × (w'.net ≡ typed_ioevt.net)
    × (w'.threads ≡ typed_ioevt.threads)
    × (w'.syslog_port ≡ typed_ioevt.syslog_port))
unfolding cmd_lib param string_at names atoi same
ioevt-sends_example =
    ioevt-sends calm 7 3 (codes "ie") (codes "3") (codes "he,1,#") (codes "p") typed_ioevt refl refl
      refl refl refl refl refl refl (omega arith) refl (omega arith) (omega arith) (omega arith)
      (λ e. cc)

parse_line-words_example :
    (w' : World) × (parse_line (codes "del  3") serving ≡ some (tt, w'))
    × (w' ≡ record serving { params = w'.params })
    × (w'.params.param_num
        ≡ sub_ℕ (length (take max_token (words b' ' (bounded max_sc_content (codes "del  3"))))) 1)
    × ((i : ℕ) (x : Bytes)
        → get_elem? (take max_token (words b' ' (bounded max_sc_content (codes "del  3")))) i
          ≡ some x
        → param i w' ≡ some (x, w'))
parse_line-words_example = parse_line-words (codes "del  3") serving (omega arith) (omega arith)

words_of_line :
    words b' ' (codes " ie  3 he,1,#  p ")
    ≡ codes "ie" ∷ codes "3" ∷ codes "he,1,#" ∷ codes "p" ∷ []
unfolding words
words_of_line = refl

format_percent :
    (format (codes "50%%") ≡ some (codes "50%"))
    × (format (codes "%s") ≡ none)
    × (format (codes "%") ≡ none)
unfolding format
format_percent = (refl, refl, refl)
