-- ===== src/Logs/Serve.antt =====
-- core/src/autoTest.c: one round of the loops of `cmd_send` and `ret_receive`, and `syslogServerInit`.
use auto_test_tools.Base.{
  ℕ, zero, suc, ◌+◌, ltb, Bool, not, ◌&&◌, [], ◌∷◌, ◌++◌, Option, none, some, length, take, drop,
  ◌==◌, if◌then◌else◌,
}
use auto_test_tools.Base.Int.{ℤ, pos, eqb_ℤ, ltb_ℤ}
use auto_test_tools.CString.Compare.{Bytes, codes, strstr}
use auto_test_tools.CString.Format.{bounded}
use auto_test_tools.Commands.Threads.{get_sys_time}
use auto_test_tools.Logs.Lines.{at_error}
use auto_test_tools.Logs.Counts.{syslog_process}
use auto_test_tools.Network.{unused, failed, get_socket, get_client_sock_addr, get_client_flag}
use auto_test_tools.World.Monad.{
  M, Void, ◌>>=◌, ◌>>◌, pure, defined, skip, emit, say, ask, lock, unlock,
}
use auto_test_tools.World.State.{Os, Msg, sent, logged, text}

-- The value of `OK`.
abbrev pub ok : ℤ
ok = pos 1

-- The oldest message, if there is one: `msgrcv(…, IPC_NOWAIT)`.
unfoldable pub msgrcv : M (Option Msg)
msgrcv w = elim w.queue [
  | [] ↦ some (none, w)
  | m ∷ rest ↦ some (some m, record w { queue = rest })
]

-- One round of `cmd_send`: the oldest message goes to the phone of its client.
unfoldable pub send_message : Msg → M Void
send_message m = do
  lock
  fd ← get_socket m.client_num
  addr ← get_client_sock_addr m.client_num
  flag ← get_client_flag m.client_num
  unlock
  if eqb_ℤ flag unused then skip else emit (sent fd addr m.cmd_obj)

unfoldable pub cmd_send : M Void
cmd_send = do m ← msgrcv; elim m [ none ↦ skip | some msg ↦ send_message msg ]

abbrev pub max_path_length : ℕ
max_path_length = 50

abbrev pub max_buff_size : ℕ
max_buff_size = 300

-- What `sprintf` stores into an array of `size` bytes, with its NUL.
abbrev pub stored : ℕ → Bytes → Option Bytes
stored size s = if ltb (length s) size then some s else none

-- `tmp[strlen(tmp)-1] = '\0'`, which writes in front of the array where the text is empty.
abbrev pub without_last : Bytes → Option Bytes
without_last [] = none
without_last (c ∷ s) = some (take (length s) (c ∷ s))

-- The path of the file, and the text for it, in `logPath` and `log`. A line that holds `record` is the
-- phone's own recording; any other gets the time in front.
unfoldable pub log_entry : Os → Bytes → Bytes → M (Bytes × Bytes)
log_entry os source buf = elim (strstr (codes "record") buf) [
  | some p ↦ do
    path ← defined (stored max_path_length (codes "./log/" ++ source ++ codes "_record"))
    pure (path, bounded max_buff_size (drop 6 p))
  | none ↦ do
    path ← defined (stored max_path_length (codes "./log/" ++ source))
    now ← get_sys_time os
    tmp ← defined (stored max_path_length now)
    time ← defined (without_last tmp)
    log ← defined (stored max_buff_size (time ++ codes ": " ++ buf))
    pure (path, log)
]

-- The newline and the NUL behind the text in `log`, and the zero that is written one byte behind the array.
-- C leaves this last write undefined; it is harmless where the compiler has left that byte unused.
unfoldable pub end_line : Os → Bytes → M Bytes
end_line os log = do
  line ← defined (stored max_buff_size (log ++ codes "\n"))
  defined (if os.spare then some line else none)

-- One round of `ret_receive` with a line received, of 149 bytes at most. A negative result of
-- `fwrite` is compared as a large unsigned number.
unfoldable pub ret_receive : Os → Bytes → Bytes → M Void
ret_receive os source line =
    let buf : Bytes = bounded 150 line in
    if length buf == 0 then skip else do
      entry ← log_entry os source buf
      opens ← ask os.log_opens
      if not opens then say "file %s open failed\n" (text entry.0 ∷ []) else do
        log ← end_line os entry.1
        emit (logged entry.0 log)
        written ← ask os.fwrite
        if not (ltb_ℤ written (pos 0)) && ltb_ℤ written (pos (length log))
            then say "log write error\n" []
            else skip
        syslog_process log

-- The loop of `syslogServerInit` with `rounds` left, at `i`: the ports tried are 5001, 5002, 5004, …
unfoldable pub bind_loop : (ℕ → Bool) → ℕ → ℕ → ℕ → Option ℕ
bind_loop binds zero i port = none
bind_loop binds (suc rounds) i port =
    let next = bind_loop binds rounds (i + 1) (port + i) in
    if binds (port + i) then some (port + i) else next

-- The ports that `syslogServerInit` tries until one is had.
unfoldable pub bind_port : (ℕ → Bool) → M Void
bind_port binds w = elim (bind_loop binds 20 0 5001) [
  | none ↦ skip w
  | some port ↦ some (tt, record w { syslog_port = pos port })
]

-- `syslogServerInit`, with the ports that `bind` gives. The result of `socket` is compared with
-- `AT_ERROR`, and it is OK also if no port was had.
unfoldable pub syslog_server_init : Os → (ℕ → Bool) → M ℤ
syslog_server_init os binds = do
  fd ← ask os.socket
  if eqb_ℤ fd at_error
      then (do say "Socket create error\n" []; pure failed)
      else do bind_port binds; pure ok

-- `ret_receive` up to its loop: whether its thread goes on, or ends because there is no server.
unfoldable pub ret_receive_begins : Os → (ℕ → Bool) → M Bool
ret_receive_begins os binds = do ret ← syslog_server_init os binds; pure (not (eqb_ℤ failed ret))
