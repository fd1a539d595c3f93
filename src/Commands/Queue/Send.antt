-- ===== src/Commands/Queue/Send.antt =====
-- The message that `ioevt` puts into the queue.
use Prim.Native.String.{String}
use auto_test_tools.Base.{
  ℕ, ◌≡◌, ◌≢◌, ◌<◌, ◌||◌, refl, true, false, List, [], ◌∷◌, ◌++◌, Option, none, some, arith,
  get_elem?, take_all, Bool-cases, Option-cases, inl, inr, ◌+◌,
}
use auto_test_tools.Base.Int.{ℤ, pos, eqb_ℤ→eq}
use auto_test_tools.CString.Compare.{Bytes, same, same_iff, codes}
use auto_test_tools.CString.Format.{
  bounded, IsPlain, IsText, format, snprintf_format, snprintf_format_plain,
}
use auto_test_tools.CString.Number.{atoi}
use auto_test_tools.CString.Tokens.{words}
use auto_test_tools.CmdLib.{Cmd, cmd_lib, names}
use auto_test_tools.CmdLib.Lookup.{cmd_lib-IsName}
use auto_test_tools.Commands.Queue.{
  cmd_code_of, ioevt_send, ioevt, send_msg, read_keys, client_ready, bad_ioevt,
}
use auto_test_tools.Commands.Queue.Keys.{key_codes_of, read_keys-key_codes_of}
use auto_test_tools.Network.{failed}
use auto_test_tools.Params.{param, param_number}
use auto_test_tools.World.Monad.{Returns-some, Ends, ◌>>=◌}
use auto_test_tools.World.State.{World, Os, Msg, ioevt_obj}

-- Whichever name was typed, the message carries the full name.
pub cmd_code_of-cmd_name :
    (k : ℕ) {c : Cmd} (x : Bytes) (w : World)
    → get_elem? cmd_lib k ≡ some c
    → param 0 w ≡ some (x, w)
    → names x c ≡ true
    → cmd_code_of k w ≡ some (c.cmd_name, w)
unfolding cmd_code_of names
cmd_code_of-cmd_name k {c} x w known p n =
    let (plain, short) = cmd_lib-IsName k known in
    ground (
      arith,
      snprintf_format_plain 15 c.cmd_name plain,
      take_all 14 c.cmd_name,
      same_iff c.cmd_name x,
      same_iff x c.nick_name,
      same_iff c.nick_name x,
      known,
      p,
      short,
    )

-- The action that a message carries is the letter that was typed.
action_kept :
    (a : Bytes) → (same a (codes "p") || same a (codes "l")) ≡ true → snprintf_format 5 a ≡ some a
action_kept a h = elim (Bool-cases (same a (codes "p"))) [
  | inl e ↦ rw ((same_iff a (codes "p")).0 e) (unfold snprintf_format format in refl)
  | inr e ↦
      let e' : same a (codes "l") ≡ true = rw e at h in
      rw ((same_iff a (codes "l")).0 e') (unfold snprintf_format format in refl)
]

pub param_number-atoi :
    (i : ℕ) (num : Bytes) {z : ℤ} (w : World)
    → param i w ≡ some (num, w)
    → atoi num ≡ some z
    → param_number i w ≡ some (z, w)
unfolding param_number
param_number-atoi i num w p a = rw (p, ◌>>=◌) (rw a)

pub client_ready_in :
    (c : ℕ) (w : World) → c < 10 → w.threads.send_id ≢ 0 → client_ready (pos c) w ≡ some (true, w)
unfolding client_ready
client_ready_in c w h run = ground arith

pub send_msg-sent :
    (os : Os) (m : Msg) (complaint : String) (w : World)
    → os.msgsnd w.calls ≢ failed
    → send_msg os m complaint w
      ≡ some (tt, record w { queue = w.queue ++ m ∷ []; calls = w.calls + 1 })
unfolding send_msg
send_msg-sent os m complaint w room = ground (arith, eqb_ℤ→eq (os.msgsnd w.calls) failed)

bad_ioevt-false :
    (n : ℤ) (action : Bytes) (w : World)
    → n ≡ pos 3
    → param 3 w ≡ some (action, w)
    → (same action (codes "p") || same action (codes "l")) ≡ true
    → bad_ioevt n w ≡ some (false, w)
unfolding bad_ioevt
bad_ioevt-false n action w e p act = ground arith

-- The message of `ioevt`.
abbrev pub ioevt_msg : ℕ → Cmd → List Bytes → Bytes → Msg
ioevt_msg c entry ks action = record {
  client_num = pos c;
  cmd_obj = record {
    cmd_code = entry.cmd_name;
    param = ioevt_obj (record { keys = ks; action = action });
  };
}

-- The queue with the message, if all its keys are known.
abbrev pub queue_with : ℕ → Cmd → Bytes → List Msg → Option (List Bytes) → List Msg
queue_with c entry action q none = q
queue_with c entry action q (some ks) = q ++ ioevt_msg c entry ks action ∷ []

ioevt_send-queue :
    (os : Os) (k c : ℕ) {entry : Cmd} (word keys action : Bytes) (w : World)
    → get_elem? cmd_lib k ≡ some entry
    → param 0 w ≡ some (word, w)
    → param 2 w ≡ some (keys, w)
    → param 3 w ≡ some (action, w)
    → names word entry ≡ true
    → (same action (codes "p") || same action (codes "l")) ≡ true
    → IsPlain keys
    → IsText keys
    → os.msgsnd w.calls ≢ failed
    → Ends (ioevt_send os k (pos c) w) (λ w'.
      (w'.queue ≡ queue_with c entry action w.queue (key_codes_of (words b',' (bounded 20 keys))))
      × (w'.net ≡ w.net)
      × (w'.threads ≡ w.threads)
      × (w'.syslog_port ≡ w.syslog_port))
unfolding ioevt_send
ioevt_send-queue os k c {entry} word keys action w known p0 p2 p3 named act plain text room =
    let (r, w', f, q) =
      Returns-some
        (λ r w'.
          (r ≡ key_codes_of (words b',' (bounded 20 keys)))
          × (w' ≡ record w {
            params = record w.params { buffer = w'.params.buffer };
            events = w'.events;
          }))
        (read_keys keys w) (read_keys-key_codes_of keys w plain text) in
    elim (Option-cases r) [
      | inl e ↦ ground (
        arith,
        cmd_code_of-cmd_name k word w known p0 named,
        action_kept action act,
        f,
        q.0,
        q.1,
        e,
      )
      | inr (ks, e) ↦ ground (
        arith,
        cmd_code_of-cmd_name k word w known p0 named,
        action_kept action act,
        f,
        q.0,
        q.1,
        e,
        send_msg-sent os (ioevt_msg c entry ks action) "msg ioevt send failed!" w',
      )
    ]

-- A well-formed `ioevt`, by either name, cuts the text of its keys to 19 bytes and puts one message into the
-- queue: for its client, with the full name, the codes of the keys in what is left, in order, and the
-- action; with a key in there that is not known it puts none. Keys behind the cut are neither sent
-- nor looked at.
-- The tables of clients, the threads and the port stay.
-- The conditions: three parameters, a client number in range, plain text for the keys, a running send
-- thread, and a queue that takes the message.
pub ioevt-sends :
    (os : Os) (k c : ℕ) {entry : Cmd} (word num keys action : Bytes) (w : World)
    → get_elem? cmd_lib k ≡ some entry
    → w.params.param_num ≡ pos 3
    → param 0 w ≡ some (word, w)
    → param 1 w ≡ some (num, w)
    → param 2 w ≡ some (keys, w)
    → param 3 w ≡ some (action, w)
    → names word entry ≡ true
    → atoi num ≡ some (pos c)
    → c < 10
    → (same action (codes "p") || same action (codes "l")) ≡ true
    → IsPlain keys
    → IsText keys
    → w.threads.send_id ≢ 0
    → os.msgsnd w.calls ≢ failed
    → Ends (ioevt os k w) (λ w'.
      (w'.queue ≡ queue_with c entry action w.queue (key_codes_of (words b',' (bounded 20 keys))))
      × (w'.net ≡ w.net)
      × (w'.threads ≡ w.threads)
      × (w'.syslog_port ≡ w.syslog_port))
unfolding ioevt
ioevt-sends os k c {entry} word num keys action w known n p0 p1 p2 p3 named number inside act plain
      text run room =
    ground (
      arith,
      bad_ioevt-false w.params.param_num action w n p3 act,
      param_number-atoi 1 num w p1 number,
      client_ready_in c w inside run,
      ioevt_send-queue os k c word keys action w known p0 p2 p3 named act plain text room,
    )
