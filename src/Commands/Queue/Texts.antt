-- ===== src/Commands/Queue/Texts.antt =====
-- core/src/at_cmdProc.c: the messages that `call`, `syslogConf` and `hideFeatureProc` put into the queue.
use auto_test_tools.Base.{
  ℕ, ◌+◌, ◌≡◌, ◌≢◌, ◌<◌, refl, true, false, [], ◌∷◌, ◌++◌, Option, none, some, get_elem?,
}
use auto_test_tools.Base.Int.{ℤ, pos, eqb_ℤ, ltb_ℤ}
use auto_test_tools.CString.Compare.{Bytes, codes}
use auto_test_tools.CString.Format.{bounded, IsPlain, snprintf_format_plain}
use auto_test_tools.CString.Number.{atoi, decimal_ℤ}
use auto_test_tools.CmdLib.{Cmd, cmd_lib, names}
use auto_test_tools.Commands.Queue.{
  shared_send, syslog_text, syslog_conf, hide_feature_proc, call, max_shared_length, max_cmd_code,
}
use auto_test_tools.Commands.Queue.Send.{
  cmd_code_of-cmd_name, param_number-atoi, client_ready_in, send_msg-sent,
}
use auto_test_tools.Network.{failed}
use auto_test_tools.Params.{param}
use auto_test_tools.World.Monad.{M, ◌>>=◌}
use auto_test_tools.World.State.{World, Os, Msg, shared}

-- A message with a text for a client.
abbrev pub text_msg : ℕ → Bytes → Bytes → Msg
text_msg c code text = record {
  client_num = pos c;
  cmd_obj = record { cmd_code = code; param = shared (bounded max_shared_length text) };
}

-- What `syslogConf` says: the parameters, the client's number and the port to log to.
abbrev pub syslog_body : Bytes → Option Bytes → ℕ → ℤ → Bytes
syslog_body first none c port =
    first ++ codes " client " ++ decimal_ℤ (pos c) ++ codes " syslogPort " ++ decimal_ℤ port
syslog_body first (some second) c port =
    first
    ++ codes " "
    ++ second
    ++ codes " client "
    ++ decimal_ℤ (pos c)
    ++ codes " syslogPort "
    ++ decimal_ℤ port

-- Two or three parameters, the third of them this one.
abbrev pub Given : World → Option Bytes → Type 0
Given w none = w.params.param_num ≡ pos 2
Given w (some second) = (w.params.param_num ≡ pos 3) × (param 3 w ≡ some (second, w))

syslog_text-body :
    (c : ℕ) (first : Bytes) (second : Option Bytes) (w : World)
    → param 2 w ≡ some (first, w)
    → Given w second
    → syslog_text w.params.param_num (pos c) w.syslog_port w
      ≡ some (syslog_body first second c w.syslog_port, w)
unfolding syslog_text
syslog_text-body c first none w p g =
    let two : eqb_ℤ w.params.param_num (pos 3) ≡ false = rw g refl in rw (p, ◌>>=◌) (rw two refl)
syslog_text-body c first (some second) w p (g, q) =
    let three : eqb_ℤ w.params.param_num (pos 3) ≡ true = rw g refl in
    rw (p, ◌>>=◌) (rw three (rw (q, ◌>>=◌) refl))

enough :
    (w : World) (second : Option Bytes) → Given w second → ltb_ℤ w.params.param_num (pos 2) ≡ false
enough w none g = rw g refl
enough w (some second) g = rw g.0 refl

module _ (os : Os) (k c : ℕ) {entry : Cmd} (word num : Bytes) (w : World)
    (known : get_elem? cmd_lib k ≡ some entry) (p0 : param 0 w ≡ some (word, w))
    (p1 : param 1 w ≡ some (num, w)) (named : names word entry ≡ true)
    (number : atoi num ≡ some (pos c)) (inside : c < 10) (run : w.threads.send_id ≢ 0)
    (room : os.msgsnd w.calls ≢ failed) where
  shared_send-sent :
      (body : M Bytes) (text : Bytes)
      → body w ≡ some (text, w)
      → shared_send os k (pos c) body w
        ≡ some (
          tt,
          record w { queue = w.queue ++ text_msg c entry.cmd_name text ∷ []; calls = w.calls + 1 },
        )
  unfolding shared_send
  shared_send-sent body text b =
      rw (cmd_code_of-cmd_name k word w known p0 named, ◌>>=◌)
        (rw (b, ◌>>=◌)
          (send_msg-sent os (text_msg c entry.cmd_name text) "msg syslog send failed!" w room))

  -- A well-formed `syslog`, by either name, puts one message into the queue: for its client, with the
  -- full name and a text of the parameters, the client's number and the port of the log server, cut to 59
  -- bytes. The conditions: two or three parameters, a client number in range, a running send thread,
  -- and a queue that takes the message. Nothing else but the count of system calls changes.
  pub syslog_conf-sends :
      (first : Bytes) (second : Option Bytes)
      → param 2 w ≡ some (first, w)
      → Given w second
      → syslog_conf os k w
        ≡ some (
          tt,
          record w {
            queue =
                w.queue
                ++ text_msg c entry.cmd_name (syslog_body first second c w.syslog_port) ∷ [];
            calls = w.calls + 1;
          },
        )
  unfolding syslog_conf
  syslog_conf-sends first second p2 g = rw (enough w second g) (
      rw (param_number-atoi 1 num w p1 number, ◌>>=◌)
        (rw (client_ready_in c w inside run, ◌>>=◌)
          (shared_send-sent (syslog_text w.params.param_num (pos c) w.syslog_port)
            (syslog_body first second c w.syslog_port) (syslog_text-body c first second w p2 g))))

  -- A well-formed `hideFeature`, by either name, puts one message into the queue: for its client, with the
  -- full name and its second parameter, cut to 59 bytes. The conditions: two parameters or more, a
  -- client number in range, a running send thread, and a queue that takes the message. Nothing else
  -- but the count of system calls changes.
  pub hide_feature_proc-sends :
      (feature : Bytes)
      → ltb_ℤ w.params.param_num (pos 2) ≡ false
      → param 2 w ≡ some (feature, w)
      → hide_feature_proc os k w
        ≡ some (
          tt,
          record w {
            queue = w.queue ++ text_msg c entry.cmd_name feature ∷ [];
            calls = w.calls + 1;
          },
        )
  unfolding hide_feature_proc
  hide_feature_proc-sends feature n p2 = rw n (
      rw (param_number-atoi 1 num w p1 number, ◌>>=◌)
        (rw (client_ready_in c w inside run, ◌>>=◌) (shared_send-sent (param 2) feature p2)))

  -- A well-formed `call` puts one message into the queue: for its client, with the word that was typed and
  -- the telephone number, cut to 14 and 59 bytes. The conditions: two parameters, a client number in
  -- range, no per cent sign in the two words, a running send thread, and a queue that takes the message.
  -- Nothing else but the count of system calls changes.
  pub call-sends :
      (tel : Bytes)
      → w.params.param_num ≡ pos 2
      → param 2 w ≡ some (tel, w)
      → IsPlain word
      → IsPlain tel
      → call os k w
        ≡ some (
          tt,
          record w {
            queue = w.queue ++ text_msg c (bounded max_cmd_code word) tel ∷ [];
            calls = w.calls + 1;
          },
        )
  unfolding call
  call-sends tel n p2 plain plain' =
      let two : eqb_ℤ w.params.param_num (pos 2) ≡ true = rw n refl in
      rw two (
        rw (param_number-atoi 1 num w p1 number, ◌>>=◌)
          (rw (client_ready_in c w inside run, ◌>>=◌)
            (rw (p0, ◌>>=◌)
              (rw (snprintf_format_plain max_cmd_code word plain, ◌>>=◌)
                (rw (p2, ◌>>=◌)
                  (rw (snprintf_format_plain max_shared_length tel plain', ◌>>=◌)
                    (send_msg-sent os (text_msg c (bounded max_cmd_code word) tel)
                      "msg call send failed!" w room)))))))
