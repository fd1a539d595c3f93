-- ===== src/Commands/Threads.antt =====
-- core/src/autoTest.c: the ids of the threads; core/src/at_cmdProc.c: `start`, `stop` and `runScript`,
-- which begin and end them.
pub mod Modes
pub mod Single
use Prim.Native.String.{String}
use auto_test_tools.Base.{
  ℕ, Bool, true, false, not, ◌&&◌, ◌||◌, List, [], ◌∷◌, Option, none, some, ◌==◌, if◌then◌else◌,
}
use auto_test_tools.Base.Int.{ℤ, pos, negsuc, ltb_ℤ, eqb_ℤ}
use auto_test_tools.CString.Compare.{Bytes, codes, same}
use auto_test_tools.CString.Format.{snprintf_format}
use auto_test_tools.Commands.Usage.{wrong_parameter}
use auto_test_tools.Network.{failed}
use auto_test_tools.Params.{param, param_num, param_number}
use auto_test_tools.World.Array.{fetch, store}
use auto_test_tools.World.Monad.{
  M, Void, ◌>>=◌, ◌>>◌, pure, defined, gets, modify, skip, emit, say, ask, for_each,
}
use auto_test_tools.World.State.{
  World, Os, Threads, Scripts, Body, cmd_send, ret_receive, script_cmd_process, Event, killed,
  joined, created, closed, Arg, number, max_script_thread, max_file_name,
}

-- `getSendThreadID`
abbrev pub get_send_thread_id : M ℕ
get_send_thread_id = gets (λ w. w.threads.send_id)

-- `setSendThreadID`; an id is not signed, so its test for a negative id never holds.
abbrev pub set_send_thread_id : ℕ → M Void
set_send_thread_id id = modify (λ w. record w { threads = record w.threads { send_id = id } })

-- `getRecThreadID`
abbrev pub get_rec_thread_id : M ℕ
get_rec_thread_id = gets (λ w. w.threads.rec_id)

-- `setRecThreadID`
abbrev pub set_rec_thread_id : ℕ → M Void
set_rec_thread_id id = modify (λ w. record w { threads = record w.threads { rec_id = id } })

-- `getScriptThreadID`, which does not check its index.
unfoldable pub get_script_thread_id : ℤ → M ℕ
get_script_thread_id n w = defined (fetch max_script_thread w.threads.script_ids n) w

-- `setScriptThreadID`; its own test lets 10 pass.
unfoldable pub set_script_thread_id : ℤ → ℕ → M Void
set_script_thread_id n id w =
    if ltb_ℤ n (pos 0) || ltb_ℤ (pos 10) n
    then skip w
    else (do
      ids ← defined (store max_script_thread w.threads.script_ids n id)
      modify (λ w. record w { threads = record w.threads { script_ids = ids } }))
        w

-- `sig_handler`: whether the thread that runs it goes on. SIGQUIT is 3.
unfoldable pub sig_handler : ℕ → M Bool
sig_handler sig = if sig == 3 then (do say "sub thread exit\n" []; pure false) else pure true

-- `getSysTime`
abbrev pub get_sys_time : Os → M Bytes
get_sys_time os = ask os.ctime

-- `getSysLogPortNum`
abbrev pub get_sys_log_port_num : M ℤ
get_sys_log_port_num = gets (λ w. w.syslog_port)

-- `gScriptParamInit`
abbrev pub g_script_param_init : M Void
g_script_param_init = modify (λ w. record w { scripts = record w.scripts { names = λ _. [] } })

-- `pthread_create(…)`: the new id, or `none` behind the message.
unfoldable pub create_thread : Os → Body → String → M (Option ℕ)
create_thread os body complaint = do
  answer ← ask os.pthread_create
  if eqb_ℤ answer.0 (pos 0)
      then (do emit (created body); pure (some answer.1))
      else (do say complaint []; pure none)

-- Begins the thread that sends.
unfoldable pub start_send : Os → M Bool
start_send os = do
  id ← create_thread os cmd_send "Create test pthread error!\n"
  elim id [ none ↦ pure false | some n ↦ do set_send_thread_id n; say "testing!\n" []; pure true ]

-- Begins the thread that receives.
unfoldable pub start_rec : Os → M Void
start_rec os = do
  id ← create_thread os ret_receive "Create rec pthread error!\n"
  elim id [ none ↦ skip | some n ↦ do set_rec_thread_id n; say "receiving\n" [] ]

-- The message queue of `start`; the result of `open` is compared with `AT_FAILED`, which is 1.
unfoldable pub open_queue : Os → M Bool
open_queue os = do
  fd ← ask os.open_msg_file
  if eqb_ℤ fd (pos 1) then (do say "\nMSG_FILE open failed!\n" []; pure false) else do
    emit (closed fd)
    key ← ask os.ftok
    if eqb_ℤ key failed then (do say "Creat Key Error\n" []; pure false) else do
      id ← ask os.msgget
      modify (λ w. record w { msg_id = id })
      if eqb_ℤ id failed then (do say "Creat Message  Error\n" []; pure false) else pure true

-- `start all` behind the queue.
unfoldable pub start_all : Os → ℕ → ℕ → M Void
start_all os send_id rec_id = do
  go_on ←
      (if send_id == 0 then start_send os else do say "start test mode already!\n" []; pure true)
  if not go_on then skip else if rec_id == 0 then start_rec os else say "start rec mode already!" []

-- `start` with its parameter and the two ids read.
unfoldable pub start_mode : Os → ℕ → Bytes → ℕ → ℕ → M Void
start_mode os cmd_num mode send_id rec_id =
    if same mode (codes "rec")
    then if rec_id == 0 then start_rec os else say "start rec mode already!" []
    else do
      opened ← open_queue os
      if not opened then skip else do
        g_script_param_init
        if same mode (codes "all")
            then start_all os send_id rec_id
            else if same mode (codes "test")
            then if send_id == 0 then start_send os >> skip else say "start test mode already!\n" []
            else wrong_parameter cmd_num

unfoldable pub start : Os → ℕ → M Void
start os cmd_num = do
  n ← param_num
  if not (eqb_ℤ n (pos 1)) then wrong_parameter cmd_num else do
    send_id ← get_send_thread_id
    rec_id ← get_rec_thread_id
    mode ← param 1
    start_mode os cmd_num mode send_id rec_id

-- `pthread_kill(id, SIGQUIT); pthread_join(id, 0);`
unfoldable pub end_thread : ℕ → M Void
end_thread id = do emit (killed id); emit (joined id)

unfoldable pub stop_send : ℕ → M Void
stop_send id =
    if id == 0 then skip else do end_thread id; set_send_thread_id 0; say "test mode stoped!\n" []

unfoldable pub stop_rec : ℕ → M Void
stop_rec id =
    if id == 0 then skip else do end_thread id; set_rec_thread_id 0; say "rec mode stoped!\n" []

-- One round of the loop of `stop all`.
unfoldable pub stop_script_at : ℕ → M Void
stop_script_at index = do
  id ← get_script_thread_id (pos index)
  if id == 0 then skip else do end_thread id; set_script_thread_id (pos index) 0

-- `stop <n> script`; its own bound lets 10 pass.
unfoldable pub stop_script : ℤ → M Void
stop_script n = if ltb_ℤ n (pos 0) || ltb_ℤ (pos 10) n then say "wrong parameter\n" [] else do
  id ← get_script_thread_id n
  if id == 0
      then skip
      else do end_thread id; set_script_thread_id n 0; say "script %d stoped!\n" (number n ∷ [])

unfoldable pub stop_all : ℕ → ℕ → M Void
stop_all send_id rec_id = do
  stop_send send_id
  stop_rec rec_id
  for_each max_script_thread 0 stop_script_at
  g_script_param_init
  say "script mode stoped!\n" []

-- `stop`; the second parameter is read whether it was given or not.
unfoldable pub stop : ℕ → M Void
stop cmd_num = do
  send_id ← get_send_thread_id
  rec_id ← get_rec_thread_id
  n ← param_num
  if not (eqb_ℤ n (pos 1)) && not (eqb_ℤ n (pos 2)) then wrong_parameter cmd_num else do
    mode ← param 1
    if same mode (codes "all")
        then stop_all send_id rec_id
        else if same mode (codes "test")
        then stop_send send_id
        else if same mode (codes "rec")
        then stop_rec rec_id
        else do
          kind ← param 2
          if same kind (codes "script")
              then (do num ← param_number 1; stop_script num)
              else wrong_parameter cmd_num

-- `runScript` with its number and name read; its own bound lets 10 pass.
unfoldable pub run_script_at : Os → ℕ → ℤ → M Void
run_script_at os cmd_num n =
    if ltb_ℤ (pos 10) n || ltb_ℤ n (pos 0) then wrong_parameter cmd_num else do
      id ← get_script_thread_id n
      if not (id == 0) then say "script is running\n" [] else do
        word ← param 2
        name ← defined (snprintf_format max_file_name word)
        old ← gets (λ w. w.scripts.names)
        names ← defined (store max_script_thread old n name)
        modify (λ w. record w { scripts = record w.scripts { names = names } })
        made ← create_thread os script_cmd_process "Create runScript pthread error!\n"
        elim made [ none ↦ skip | some new_id ↦ set_script_thread_id n new_id ]

unfoldable pub run_script : Os → ℕ → M Void
run_script os cmd_num = do
  send_id ← get_send_thread_id
  if send_id == 0 then say "please start test mode first!\n" [] else do
    n ← param_num
    if not (eqb_ℤ n (pos 2))
        then wrong_parameter cmd_num
        else do num ← param_number 1; run_script_at os cmd_num num
