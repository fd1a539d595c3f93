-- ===== src/System/ScriptArrival.antt =====
-- What a script says comes to the phones.
use auto_test_tools.Base.{
  ℕ, suc, ◌≡◌, ◌≢◌, ◌<◌, ◌≤◌, ◌||◌, refl, ap, sym, ◌∙◌, true, List, [], ◌∷◌, ◌++◌, some, All, arith,
  length,
}
use auto_test_tools.Base.Int.{ℤ, pos}
use auto_test_tools.CString.Compare.{Bytes, codes, same}
use auto_test_tools.CString.Format.{bounded, IsPlain, IsText}
use auto_test_tools.CString.Number.{atoi}
use auto_test_tools.CString.Tokens.{words}
use auto_test_tools.CmdLib.{cmd_lib, get_cmd_code}
use auto_test_tools.Commands.Dispatch.{cmd_proc}
use auto_test_tools.Commands.Dispatch.Select.{seen_words}
use auto_test_tools.Commands.Queue.Keys.{key_codes_of}
use auto_test_tools.Commands.Queue.Send.{ioevt_msg, param_number-atoi}
use auto_test_tools.Commands.Threads.{set_script_thread_id}
use auto_test_tools.Logs.Delivery.{delivered_all, cmd_send-fifo}
use auto_test_tools.Logs.Serve.{cmd_send}
use auto_test_tools.Network.{failed}
use auto_test_tools.Network.Config.{PtonLaws}
use auto_test_tools.Params.{param}
use auto_test_tools.Script.Load.{max_sc_line, commands, file_lines}
use auto_test_tools.Script.Loops.{exec_all}
use auto_test_tools.Script.Plain.{IsPlainRow, run_file-plain}
use auto_test_tools.Script.Rows.{complaints}
use auto_test_tools.Script.Run.{script_cmd_process, run_file, set_count_of_script_run}
use auto_test_tools.System.Arrival.{cmd_proc-queues}
use auto_test_tools.System.Counts.{Keeps-set_count_of_script_run}
use auto_test_tools.System.Delivery.{Queued}
use auto_test_tools.System.Entries.{ioevt_index, ioevt_entry}
use auto_test_tools.System.Invariant.{Inv, Inv-Closed, Inv-Frame}
use auto_test_tools.System.Reach.{Reach, Reach-Inv, Keeps-run, IsMessage-IsInRange}
use auto_test_tools.System.TextArrival.{Says, text-queues}
use auto_test_tools.World.Array.{update, update_self}
use auto_test_tools.World.Monad.{M, Void, Ends, Ends-some, for_each, ◌>>=◌, ◌>>◌}
use auto_test_tools.World.State.{World, Os, Msg, Event}
use mathlib.Core.List.{append_assoc, append-nil}

-- The message that a row stands for: a plain row of `syslog`, `hideFeature`, `call` or `ioevt`, with the
-- words of its command and a client in range; of the keys of `ioevt` those in the first 19 bytes count,
-- and have to be known.
pub data SaysRow (port : ℤ) (row : Bytes) : Msg → Type 0 where
  text_row :
      (c : ℕ) (num : Bytes) (ws : List Bytes) {m : Msg}
      → IsPlain row
      → IsText row
      → seen_words row ≡ ws
      → Says port c num ws m
      → atoi num ≡ some (pos c)
      → c < 10
      → SaysRow port row m
  key_row :
      (c : ℕ) (word num keys action : Bytes) (ks : List Bytes)
      → IsPlain row
      → IsText row
      → seen_words row ≡ word ∷ num ∷ keys ∷ action ∷ []
      → get_cmd_code cmd_lib word ≡ some ioevt_index
      → atoi num ≡ some (pos c)
      → c < 10
      → (same action (codes "p") || same action (codes "l")) ≡ true
      → IsPlain keys
      → IsText keys
      → key_codes_of (words b',' (bounded 20 keys)) ≡ some ks
      → SaysRow port row (ioevt_msg c ioevt_entry ks action)

-- The messages of the rows, in order.
pub data SaysRows (port : ℤ) : List Bytes → List Msg → Type 0 where
  says_nothing : SaysRows port [] []
  says_row :
      {row : Bytes} {rows : List Bytes} {m : Msg} {ms : List Msg}
      → SaysRow port row m
      → SaysRows port rows ms
      → SaysRows port (row ∷ rows) (m ∷ ms)

module _ (os : Os) (fuel : ℕ) (room : (n : ℕ) → os.msgsnd n ≢ failed) where
  row-queues :
      (row : Bytes) (m : Msg) (w : World)
      → Inv os w
      → SaysRow w.syslog_port row m
      → w.threads.send_id ≢ 0
      → Ends (cmd_proc os (suc fuel) row w) (Queued os w m)
  row-queues row m w h (text_row c num ws plain text same_words says number inside) run =
      text-queues os fuel c row num ws m w h plain text same_words says number inside run
        (room w.calls)
  row-queues row m w h
        (key_row c word num keys action ks plain text four code number inside act plain_keys
          text_keys found)
        run =
      cmd_proc-queues os fuel c row word num keys action ks w h plain text four code number inside
        act plain_keys text_keys found run (room w.calls)

  -- The queue has these messages more, and the clients, the threads and the port are as they were.
  abbrev QueuedAll : World → List Msg → World → Type 0
  QueuedAll w ms w' =
      Inv os w' × (w'.queue ≡ w.queue ++ ms) × (w'.net ≡ w.net) × (w'.threads ≡ w.threads)

  rows-queue :
      {port : ℤ} {rows : List Bytes} {ms : List Msg}
      → SaysRows port rows ms
      → (w : World) → Inv os w
      → w.syslog_port ≡ port
      → w.threads.send_id ≢ 0
      → Ends (exec_all (cmd_proc os (suc fuel)) rows w) (QueuedAll w ms)
  unfolding exec_all
  rows-queue says_nothing w h p run = (h, sym (append-nil w.queue), refl, refl)
  rows-queue (says_row {row} {rows} {m} {ms} says more) w h p run =
      let says' : SaysRow w.syslog_port row m = rw p says in
      let (_, v, e, (h', q, net, threads, port')) =
        Ends-some (Queued os w m) (cmd_proc os (suc fuel) row w) (row-queues row m w h says' run) in
      let run' : v.threads.send_id ≢ 0 = rw threads run in
      let (_, u, f, (h'', q', net', threads')) =
        Ends-some (QueuedAll v ms) (exec_all (cmd_proc os (suc fuel)) rows v)
          (rows-queue more v h' (port' ∙ p) run') in
      rw (e, ◌>>◌, ◌>>=◌)
        (rw f (
          h'',
          q' ∙ ap (λ (l : List Msg). l ++ ms) q ∙ append_assoc w.queue (m ∷ []) ms,
          net' ∙ net,
          threads' ∙ threads,
        ))

script_cmd_process-opens :
    (os : Os) (exec : Bytes → M Void) (n : ℕ) (num text : Bytes) (w : World)
    → param 1 w ≡ some (num, w)
    → atoi num ≡ some (pos n)
    → n < 10
    → os.file (w.scripts.names n) ≡ some text
    → script_cmd_process os exec w
      ≡ run_file os exec
          (pos n)
          text
          (record w { scripts = record w.scripts { counts = update w.scripts.counts n (pos 0) } })
unfolding script_cmd_process set_count_of_script_run
script_cmd_process-opens os exec n num text w p1 number inside opens =
    ground (arith, param_number-atoi 1 num w p1 number, opens)

set_script_thread_id-in :
    (n id : ℕ) (w : World)
    → n < 10
    → set_script_thread_id (pos n) id w
      ≡ some (
        tt,
        record w { threads = record w.threads { script_ids = update w.threads.script_ids n id } },
      )
unfolding set_script_thread_id
set_script_thread_id-in n id w inside = ground arith

set_count-in :
    (n : ℕ) (w : World)
    → n < 10
    → set_count_of_script_run (pos n) (pos 0) w
      ≡ some (
        tt,
        record w { scripts = record w.scripts { counts = update w.scripts.counts n (pos 0) } },
      )
unfolding set_count_of_script_run
set_count-in n w inside = ground arith

-- From every reachable state in which the thread of the script `n` begins, the whole script comes to the
-- phones: behind the script and one round of the send thread for each message, the thread's id is cleared,
-- the queue is empty, and what was done last is to send each message, first those that were in the queue
-- and then those of the rows in order, to the phone registered for its client, or to nobody if none is.
-- The conditions: the parameter of the line is the number `n`, in range; the file that is stored for it
-- opens, and its commands, from 1 to 500, are rows that stand for these messages and do not begin with
-- `loop`; the send thread runs, and the queue takes every message. `inet_pton` takes no address of more
-- than 15 characters.
pub script-arrives :
    (os : Os) (fuel n : ℕ) (num text : Bytes) (rows : List Bytes) (ms : List Msg) (w : World)
    → PtonLaws os
    → Reach os w
    → param 1 w ≡ some (num, w)
    → atoi num ≡ some (pos n)
    → n < 10
    → os.file (w.scripts.names n) ≡ some text
    → commands (file_lines text) ≡ rows
    → 0 < length rows
    → length rows ≤ max_sc_line
    → All IsPlainRow rows
    → SaysRows w.syslog_port rows ms
    → w.threads.send_id ≢ 0
    → ((i : ℕ) → os.msgsnd i ≢ failed)
    → Ends
        ((script_cmd_process os (cmd_proc os (suc fuel))
            >> for_each (length (w.queue ++ ms)) 0 (λ _. cmd_send))
          w)
        (λ w'.
          (w'.threads.script_ids n ≡ 0)
          × (w'.queue ≡ [])
          × ((earlier : List Event) × (w'.events ≡ delivered_all os w.net (w.queue ++ ms) earlier)))
script-arrives os fuel n num text rows ms w laws r p1 number inside opens same filled fits plain
      says run room =
    let exec = cmd_proc os (suc fuel) in
    let w₁ : World = record w {
      scripts = record w.scripts { counts = update w.scripts.counts n (pos 0) };
    } in
    let v : World = record w₁ { events = complaints (file_lines text) w.events } in
    let h₁ : Inv os w₁ =
      Keeps-run (Keeps-set_count_of_script_run os (Inv-Closed os) (pos n) (pos 0))
        (Reach-Inv laws r) (set_count-in n w inside) in
    let (_, u, e, (h, q, net, threads)) =
      Ends-some (QueuedAll os fuel room v ms) (exec_all exec rows v)
        (rows-queue os fuel room says v ((Inv-Frame os).at_events w₁ v.events h₁) refl run) in
    let x : World = record u {
      threads = record u.threads { script_ids = update u.threads.script_ids n 0 };
    } in
    let k : Inv os x = (Inv-Frame os).at_threads u x.threads h in
    let goes =
      script_cmd_process-opens os exec n num text w p1 number inside opens
      ∙ run_file-plain os exec (pos n) text rows w₁ same filled fits plain in
    let (_, y, f, d) = Ends-some _ (for_each (length (w.queue ++ ms)) 0 (λ _. cmd_send) x) (
      cmd_send-fifo os (w.queue ++ ms) 0 x k.free k.tables
        (IsMessage-IsInRange (w.queue ++ ms) (rw q at k.queued)) q) in
    rw (goes, ◌>>◌, ◌>>=◌)
      (rw (e, ◌>>◌, ◌>>=◌)
        (rw (set_script_thread_id-in n 0 u inside) (
          rw f (
            ap (λ (z : World). z.threads.script_ids n) d ∙ update_self u.threads.script_ids n 0,
            ap (λ (z : World). z.queue) d,
            (
              u.events,
              ap (λ (z : World). z.events) d
                  ∙ ap (λ t. delivered_all os t (w.queue ++ ms) u.events) net,
            ),
          ))))
