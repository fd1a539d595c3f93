-- ===== src/System/Entries.antt =====
-- core/src/at_cmdProc.c: the entries of `gCmdLib` for the commands that are followed from their line on.
use auto_test_tools.Base.{ℕ, ◌≡◌, refl, true, some, get_elem?}
use auto_test_tools.CString.Compare.{Bytes}
use auto_test_tools.CmdLib.{Cmd, Handler, cmd, cmd_lib, get_cmd_code, names}
use auto_test_tools.CmdLib.Lookup.{get_cmd_code-NamedFirst}
use auto_test_tools.Commands.Dispatch.{run_found, run_handler, random_key}
use auto_test_tools.Commands.Queue.{ioevt, call, syslog_conf, hide_feature_proc}
use auto_test_tools.Commands.Clients.{add_client}
use auto_test_tools.Commands.Show.{show_client}
use auto_test_tools.Commands.Threads.{run_script}
use auto_test_tools.Commands.Usage.{cmd_at}
use auto_test_tools.World.Monad.{M, Void}
use auto_test_tools.World.State.{World, Os}

abbrev pub add_index : ℕ
add_index = 2

abbrev pub call_index : ℕ
call_index = 3

abbrev pub ioevt_index : ℕ
ioevt_index = 7

abbrev pub run_script_index : ℕ
run_script_index = 11

abbrev pub random_key_index : ℕ
random_key_index = 13

abbrev pub show_index : ℕ
show_index = 14

abbrev pub syslog_index : ℕ
syslog_index = 17

abbrev pub feature_index : ℕ
feature_index = 18

abbrev pub add_entry : Cmd
add_entry = cmd "add" "ad" "add: add 1(client number) 192.168.10.1(ip address)" Handler.add_client

abbrev pub call_entry : Cmd
call_entry = cmd "call" "call" "call: call 1(client number) 1000(tel number)" Handler.call

abbrev pub ioevt_entry : Cmd
ioevt_entry =
    cmd "ioevt" "ie" "ioevt: ioevt 1(client number) 1,2(key number) p/l(action)" Handler.ioevt

abbrev pub syslog_entry : Cmd
syslog_entry =
    cmd "syslog" "sl" "syslog: syslog 1(client) enable/disable/record" Handler.syslog_conf

abbrev pub feature_entry : Cmd
feature_entry =
    cmd "hideFeature" "hf" "hideFeature: hideFeature 1(client) enable/disable"
      Handler.hide_feature_proc

pub add_entry-at : get_elem? cmd_lib add_index ≡ some add_entry
unfolding cmd_lib
add_entry-at = refl

pub call_entry-at : get_elem? cmd_lib call_index ≡ some call_entry
unfolding cmd_lib
call_entry-at = refl

pub ioevt_entry-at : get_elem? cmd_lib ioevt_index ≡ some ioevt_entry
unfolding cmd_lib
ioevt_entry-at = refl

pub syslog_entry-at : get_elem? cmd_lib syslog_index ≡ some syslog_entry
unfolding cmd_lib
syslog_entry-at = refl

pub feature_entry-at : get_elem? cmd_lib feature_index ≡ some feature_entry
unfolding cmd_lib
feature_entry-at = refl

-- The entry at the index that the search gives has the word as a name.
pub named_at :
    (word : Bytes) (k : ℕ) {entry : Cmd}
    → get_elem? cmd_lib k ≡ some entry
    → get_cmd_code cmd_lib word ≡ some k
    → names word entry ≡ true
named_at word k {entry} known e =
    let (c, at_i, named, _) = get_cmd_code-NamedFirst cmd_lib word e in
    let same_entry : c ≡ entry = cc (at_i, known) in rw same_entry at named

module _ (os : Os) (exec : Bytes → M Void) (fuel : ℕ) (w : World) where
  pub run_found-add : run_found os exec fuel (some add_index) w ≡ add_client os add_index w
  unfolding run_found run_handler cmd_at cmd_lib
  run_found-add = refl

  pub run_found-show : run_found os exec fuel (some show_index) w ≡ show_client show_index w
  unfolding run_found run_handler cmd_at cmd_lib
  run_found-show = refl

  pub run_found-call : run_found os exec fuel (some call_index) w ≡ call os call_index w
  unfolding run_found run_handler cmd_at cmd_lib
  run_found-call = refl

  pub run_found-ioevt : run_found os exec fuel (some ioevt_index) w ≡ ioevt os ioevt_index w
  unfolding run_found run_handler cmd_at cmd_lib
  run_found-ioevt = refl

  pub run_found-run_script :
      run_found os exec fuel (some run_script_index) w ≡ run_script os run_script_index w
  unfolding run_found run_handler cmd_at cmd_lib
  run_found-run_script = refl

  pub run_found-random_key :
      run_found os exec fuel (some random_key_index) w ≡ random_key os exec fuel random_key_index w
  unfolding run_found run_handler cmd_at cmd_lib
  run_found-random_key = refl

  pub run_found-syslog :
      run_found os exec fuel (some syslog_index) w ≡ syslog_conf os syslog_index w
  unfolding run_found run_handler cmd_at cmd_lib
  run_found-syslog = refl

  pub run_found-feature :
      run_found os exec fuel (some feature_index) w ≡ hide_feature_proc os feature_index w
  unfolding run_found run_handler cmd_at cmd_lib
  run_found-feature = refl
