-- ===== src/World/State.antt =====
-- The static variables of at_network.c, at_cmdProc.c and autoTest.c, the messages of
-- at_cmdProc.h, and the operating system as a parameter.
use Prim.Native.String.{String}
use auto_test_tools.Base.{ℕ, Bool, List, Option}
use auto_test_tools.Base.Int.{ℤ}
use auto_test_tools.CString.Compare.{Bytes}

abbrev pub max_client : ℕ
max_client = 10

abbrev pub max_call_type : ℕ
max_call_type = 2

abbrev pub max_ip_length : ℕ
max_ip_length = 20

abbrev pub max_file_name : ℕ
max_file_name = 60

abbrev pub max_token : ℕ
max_token = 15

abbrev pub max_sc_content : ℕ
max_sc_content = 256

abbrev pub max_script_thread : ℕ
max_script_thread = 10

-- `struct sockaddr_in`, its port in host order.
pub record SockAddr : Type 0 where
  pub family : ℕ
  pub port : ℕ
  pub address : ℕ

-- The tables of at_network.c. An array of C is a function on its indices, read and written only
-- through `fetch` and `store`, which check its size.
pub record Net : Type 0 where
  pub sockets : ℕ → ℤ
  pub ip_addrs : ℕ → Bytes
  pub sock_addrs : ℕ → SockAddr
  pub flags : ℕ → ℤ

-- `tmp` of `getTokens` up to its last byte that is not zero, `gCmdParam` as offsets into it (`none`
-- for NULL), and `gParamNum`.
pub record Params : Type 0 where
  pub buffer : Bytes
  pub argv : ℕ → Option ℕ
  pub param_num : ℤ

-- The thread ids of autoTest.c; 0 for a thread that does not run.
pub record Threads : Type 0 where
  pub send_id : ℕ
  pub rec_id : ℕ
  pub script_ids : ℕ → ℕ

-- `gConfFileName`, `gScriptName` and `gScriptCount`.
pub record Scripts : Type 0 where
  pub conf_file_name : Bytes
  pub names : ℕ → Bytes
  pub counts : ℕ → ℤ

-- `ioevt_t`: the key codes stored; the rest of the ten are empty.
pub record Ioevt : Type 0 where
  pub keys : List Bytes
  pub action : Bytes

-- `cmdParam_t`
pub data CmdParam : Type 0 where
  shared : Bytes → CmdParam
  ioevt_obj : Ioevt → CmdParam

-- `cmdObj_t`
pub record CmdObj : Type 0 where
  pub cmd_code : Bytes
  pub param : CmdParam

-- `msgQ_t`
pub record Msg : Type 0 where
  pub client_num : ℤ
  pub cmd_obj : CmdObj

-- An argument of `printf`.
pub data Arg : Type 0 where
  text : Bytes → Arg
  number : ℤ → Arg

-- What a thread of the program runs.
pub data Body : Type 0 where
  cmd_send ret_receive script_cmd_process : Body

-- What the program has done to the outside.
pub data Event : Type 0 where
  printed : String → List Arg → Event
  shutdown_fd : ℤ → ℤ → Event
  closed : ℤ → Event
  slept : ℤ → Event
  -- `usleep`
  paused : ℕ → Event
  killed : ℕ → Event
  joined : ℕ → Event
  created : Body → Event
  wrote : Bytes → Event
  -- `sendto`, and a text appended to the file of a path.
  sent : ℤ → SockAddr → CmdObj → Event
  logged : Bytes → Bytes → Event

pub record World : Type 0 where
  pub net : Net
  pub params : Params
  pub threads : Threads
  pub scripts : Scripts
  -- `gSuccessCall`: by type of call, then by client.
  pub success_call : ℕ → ℕ → ℤ
  -- The messages that `msgsnd` has put into the queue, oldest first.
  pub queue : List Msg
  -- `gMsgid` and `gSyslogPort`.
  pub msg_id : ℤ
  pub syslog_port : ℤ
  -- `gMutex` is held.
  pub mutex : Bool
  -- The number of system calls made.
  pub calls : ℕ
  -- Newest first.
  pub events : List Event

-- The operating system and the network library: what each call answers. A call whose answer may
-- change from one time to the next is given the number of calls made before it.
pub record Os : Type 0 where
  -- The result, and for `inet_aton` the address.
  pub inet_pton : Bytes → ℤ
  pub inet_aton : Bytes → ℤ × ℕ
  pub socket : ℕ → ℤ
  -- `msgsnd` with flag 0 waits for room and then answers.
  pub msgsnd : ℕ → ℤ
  -- The result, and the id of the thread.
  pub pthread_create : ℕ → ℤ × ℕ
  pub open_msg_file : ℕ → ℤ
  pub ftok : ℕ → ℤ
  pub msgget : ℕ → ℤ
  pub rand : ℕ → ℕ
  -- `ctime` of the present time.
  pub ctime : ℕ → Bytes
  -- `fopen` of the test notes gives a file, and `fwrite` the number of bytes written.
  pub note_opens : ℕ → Bool
  pub fwrite : ℕ → ℤ
  pub log_opens : ℕ → Bool
  -- The compiler leaves the byte behind the array `log` of `ret_receive` to nothing else.
  pub spare : Bool
  -- What is in a file; `none` if it cannot be opened.
  pub file : Bytes → Option Bytes
