-- ===== src/Commands/Queue.antt =====
-- core/src/at_cmdProc.c: the handlers that put a message for a phone into the queue: `ioevt`, `call`,
-- `syslogConf` and `hideFeatureProc`.
pub mod Keys
pub mod Send
pub mod Texts
use auto_test_tools.Base.{
  ℕ, zero, suc, ◌+◌, Bool, true, false, not, ◌&&◌, ◌||◌, List, [], ◌∷◌, ◌++◌, Option, none, some,
  length, leb, ltb, ◌==◌, if◌then◌else◌, ◌-◌,
}
use Prim.Native.String.{String}
use mathlib.Core.Option
use auto_test_tools.Base.Int.{ℤ, pos, ltb_ℤ, eqb_ℤ}
use auto_test_tools.CString.Compare.{Bytes, codes, same}
use auto_test_tools.CString.Format.{bounded, snprintf_format}
use auto_test_tools.CString.Number.{decimal_ℤ}
use auto_test_tools.CString.Tokens.{string_at}
use auto_test_tools.Commands.Threads.{get_sys_log_port_num}
use auto_test_tools.Commands.Usage.{wrong_parameter, cmd_at}
use auto_test_tools.KeyMap.{Key, key_lib, get_key_code}
use auto_test_tools.Network.{failed, out_of_range}
use auto_test_tools.Params.{param, param_num, param_number, get_tokens, token_num, store_tokens}
use auto_test_tools.World.Monad.{M, Void, ◌>>=◌, ◌>>◌, pure, defined, gets, modify, skip, say, ask}
use auto_test_tools.World.State.{
  World, Os, Msg, CmdObj, CmdParam, shared, ioevt_obj, Ioevt, Arg, text, number,
}

abbrev pub max_ioevt : ℕ
max_ioevt = 10

abbrev pub max_key_length : ℕ
max_key_length = 5

abbrev pub max_cmd_code : ℕ
max_cmd_code = 15

abbrev pub max_shared_length : ℕ
max_shared_length = 60

-- `msgsnd(gMsgid, &msgQ_obj, sizeof(msgQ_t), 0)`; a message that is not refused is in the queue.
unfoldable pub send_msg : Os → Msg → String → M Void
send_msg os msg complaint = do
  ret ← ask os.msgsnd
  if eqb_ℤ ret failed
      then say complaint []
      else modify (λ w. record w { queue = w.queue ++ msg ∷ [] })

-- A client number that may be sent to, and a send thread that runs.
unfoldable pub client_ready : ℤ → M Bool
client_ready c w =
    if out_of_range c
    then (do say "valid client number:%d - %d\n" (number (pos 0) ∷ number (pos 9) ∷ []); pure false)
        w
    else if w.threads.send_id == 0
    then (do say "please start test mode first!\n" []; pure false) w
    else pure true w

-- `cmdObj.cmdCode`: the full name for a nickname, and the word as it was typed for all else.
unfoldable pub cmd_code_of : ℕ → M Bytes
unfolding cmd_at
cmd_code_of cmd_num = do
  word ← param 0
  entry ← cmd_at cmd_num
  defined
      (snprintf_format max_cmd_code (if same word entry.nick_name then entry.cmd_name else word))

-- The string of a pointer that a local array holds.
unfoldable pub pointed : Option ℕ → M Bytes
pointed none w = none
pointed (some o) w = some (string_at w.params.buffer o, w)

-- `for (index = 0; index <= ioevt_num; index++)` of `ioevt`, with `rounds` left: the codes of the
-- keys, or `none` at a key that is not found.
unfoldable pub key_loop : (ℕ → Option ℕ) → ℕ → ℕ → M (Option (List Bytes))
unfolding pointed
key_loop ptrs zero index = pure (some [])
key_loop ptrs (suc rounds) index = do
  word ← pointed (ptrs index)
  elim (get_key_code key_lib word) [
    | none ↦ do say "keycode not found:%s\n" (text word ∷ []); pure none
    | some k ↦ do
      more ← key_loop ptrs rounds (index + 1)
      pure (Option.map (◌∷◌ (bounded max_key_length (key_lib k).key_code)) more)
  ]

-- The keys of `ioevt`: the text is cut to the 19 bytes that `keyCodes` holds, and its words are looked
-- up. `getTokens` overwrites the buffer that `gCmdParam` points into.
unfoldable pub read_keys : Bytes → M (Option (List Bytes))
unfolding get_tokens store_tokens key_loop
read_keys arg = do
  key_codes ← defined (snprintf_format 20 arg)
  ts ← get_tokens key_codes b','
  ptrs ← defined (store_tokens max_ioevt 0 ts (λ _. none))
  if leb 10 (length ts - 1) then pure none else key_loop ptrs (length ts) 0

-- `ioevt` behind its tests.
unfoldable pub ioevt_send : Os → ℕ → ℤ → M Void
ioevt_send os cmd_num c = do
  code ← cmd_code_of cmd_num
  action ← param 3
  act ← defined (snprintf_format 5 action)
  arg ← param 2
  keys ← read_keys arg
  elim keys [
    | none ↦ skip
    | some ks ↦
        send_msg os
          (record {
            client_num = c;
            cmd_obj = record {
              cmd_code = code;
              param = ioevt_obj (record { keys = ks; action = act });
            };
          })
          "msg ioevt send failed!"
  ]

-- `strcmp(gCmdParam[3],KEY_PRESS)!=0 && strcmp(gCmdParam[3],KEY_LONG_PRESS)!=0`, read only when
-- there are three parameters.
unfoldable pub bad_ioevt : ℤ → M Bool
bad_ioevt n w =
    if eqb_ℤ n (pos 3)
    then (do
      action ← param 3
      pure (not (same action (codes "p")) && not (same action (codes "l"))))
        w
    else pure true w

unfoldable pub ioevt : Os → ℕ → M Void
ioevt os cmd_num = do
  n ← param_num
  bad ← bad_ioevt n
  if bad then wrong_parameter cmd_num else do
    c ← param_number 1
    ready ← client_ready c
    if ready then ioevt_send os cmd_num c else skip

-- `call`; its word is never replaced by the full name, since it has no other nickname.
unfoldable pub call : Os → ℕ → M Void
call os cmd_num = do
  n ← param_num
  if not (eqb_ℤ n (pos 2)) then wrong_parameter cmd_num else do
    c ← param_number 1
    ready ← client_ready c
    if not ready then skip else do
      word ← param 0
      code ← defined (snprintf_format max_cmd_code word)
      tel ← param 2
      arg ← defined (snprintf_format max_shared_length tel)
      send_msg os
          (record { client_num = c; cmd_obj = record { cmd_code = code; param = shared arg } })
          "msg call send failed!"

-- The text that `syslogConf` sends: the parameters, the client's number and the port to log to.
unfoldable pub syslog_text : ℤ → ℤ → ℤ → M Bytes
syslog_text n c port = do
  first ← param 2
  if eqb_ℤ n (pos 3)
      then (do
        second ← param 3
        pure (
            first
            ++ codes " "
            ++ second
            ++ codes " client "
            ++ decimal_ℤ c
            ++ codes " syslogPort "
            ++ decimal_ℤ port))
      else pure (first ++ codes " client " ++ decimal_ℤ c ++ codes " syslogPort " ++ decimal_ℤ port)

-- `syslogConf` and `hideFeatureProc` once their client may be sent to.
unfoldable pub shared_send : Os → ℕ → ℤ → M Bytes → M Void
shared_send os cmd_num c body = do
  code ← cmd_code_of cmd_num
  arg ← body
  send_msg os
      (record {
        client_num = c;
        cmd_obj = record { cmd_code = code; param = shared (bounded max_shared_length arg) };
      })
      "msg syslog send failed!"

unfoldable pub syslog_conf : Os → ℕ → M Void
syslog_conf os cmd_num = do
  n ← param_num
  if ltb_ℤ n (pos 2) then wrong_parameter cmd_num else do
    c ← param_number 1
    ready ← client_ready c
    port ← get_sys_log_port_num
    if ready then shared_send os cmd_num c (syslog_text n c port) else skip

-- `setSysLogLevel`, which is empty.
unfoldable pub set_sys_log_level : ℕ → M Void
set_sys_log_level cmd_num = skip

unfoldable pub hide_feature_proc : Os → ℕ → M Void
hide_feature_proc os cmd_num = do
  n ← param_num
  if ltb_ℤ n (pos 2) then wrong_parameter cmd_num else do
    c ← param_number 1
    ready ← client_ready c
    if ready then shared_send os cmd_num c (param 2) else skip
