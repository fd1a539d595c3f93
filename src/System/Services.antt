-- ===== src/System/Services.antt =====
-- The two threads that serve the phones keep the invariant, and `ret_receive` every property that is
-- `Closed`.
use auto_test_tools.Base.{
  not, ◌++◌, drop, ℕ, ◌<◌, Bool, List, [], ◌∷◌, Option, none, some, All, Bool-cases, inl, inr,
  if◌then◌else◌,
}
use auto_test_tools.Base.Int.{eqb_ℤ, ℤ, pos}
use auto_test_tools.CString.Compare.{Bytes, codes, strstr}
use auto_test_tools.CString.Format.{bounded}
use auto_test_tools.Logs.Counts.{log_action, syslog_process}
use auto_test_tools.Logs.Effects.{is_served, is_served-index}
use auto_test_tools.Logs.Lines.{
  LogStr, log_suspend, log_talk_build, log_talk_conference, get_log_msg_issue_id,
  get_log_client_num,
}
use auto_test_tools.Logs.Delivery.{delivered, send_message-Delivers}
use auto_test_tools.Logs.Serve.{
  msgrcv, cmd_send, send_message, ret_receive, bind_port, bind_loop, syslog_server_init,
  ret_receive_begins, log_entry, end_line, stored, without_last, max_path_length, max_buff_size,
}
use auto_test_tools.Network.{failed}
use auto_test_tools.System.Clients.{Keeps-unregister}
use auto_test_tools.System.Counts.{Keeps-count_call}
use auto_test_tools.System.Invariant.{Closed, Inv, Inv-Frame, IsMessage}
use auto_test_tools.World.Gives.{Hands, Gives, Keeps-bind-Gives}
use auto_test_tools.World.Keeps.{
  Leaves, Leaves-Ends, Keeps, Frame, Keeps-emit, Keeps-ask, Keeps-bind, Keeps-elim, Keeps-pure,
  Keeps-defined, keeps_rules,
}
use auto_test_tools.World.Monad.{M, Void, skip, ask, defined}
use auto_test_tools.World.State.{World, Os, Msg}

module _ (os : Os) {P : World → Type 0} (closed : Closed os P) where
  abbrev frame : Frame P
  frame = closed.frame

  Keeps-log_action : (issue : LogStr) (i : ℕ) → i < 10 → Keeps P (log_action issue (pos i))
  unfolding log_action
  Keeps-log_action log_suspend i l = Keeps-unregister os closed i l
  Keeps-log_action log_talk_build i l = Keeps-count_call os closed 0 (pos i)
  Keeps-log_action log_talk_conference i l = Keeps-count_call os closed 1 (pos i)

  Keeps-log_served :
      (issue : LogStr) (c : ℤ) → Keeps P (if is_served c then log_action issue c else skip)
  Keeps-log_served issue c = elim (Bool-cases (is_served c)) [
    | inr r ↦ rw r (Keeps-pure tt)
    | inl s ↦ let (i, e, l) = is_served-index c s in rw s (rw e (Keeps-log_action issue i l))
  ]

  Keeps-syslog_process : (log : Bytes) → Keeps P (syslog_process log)
  unfolding syslog_process
  Keeps-syslog_process log =
      Keeps-elim (get_log_msg_issue_id log) _ _ (Keeps-pure tt)
        (λ issue. Keeps-bind _ _ (Keeps-defined (get_log_client_num log)) (Keeps-log_served issue))

  Keeps-log_entry : (source buf : Bytes) → Keeps P (log_entry os source buf)
  unfolding log_entry
  Keeps-log_entry source buf =
      Keeps-elim (strstr (codes "record") buf) _ _
        (Keeps-bind (defined (stored max_path_length (codes "./log/" ++ source))) _
          (Keeps-defined (stored max_path_length (codes "./log/" ++ source)))
          (λ path. Keeps-bind (ask os.ctime) _ (Keeps-ask frame os.ctime) (λ now.
            Keeps-bind (defined (stored max_path_length now)) _
              (Keeps-defined (stored max_path_length now))
              (λ tmp.
                Keeps-bind (defined (without_last tmp)) _ (Keeps-defined (without_last tmp))
                  (λ time.
                    Keeps-bind (defined (stored max_buff_size (time ++ codes ": " ++ buf))) _
                      (Keeps-defined (stored max_buff_size (time ++ codes ": " ++ buf)))
                      (λ log. Keeps-pure (path, log)))))))
        (λ p.
          Keeps-bind
            (defined (stored max_path_length (codes "./log/" ++ source ++ codes "_record"))) _
            (Keeps-defined (stored max_path_length (codes "./log/" ++ source ++ codes "_record")))
            (λ path. Keeps-pure (path, bounded max_buff_size (drop 6 p))))

  Keeps-end_line : (log : Bytes) → Keeps P (end_line os log)
  unfolding end_line
  Keeps-end_line log = search (keeps_rules)

  pub Keeps-ret_receive : (source line : Bytes) → Keeps P (ret_receive os source line)
  unfolding ret_receive
  Keeps-ret_receive source line =
      search
        (
          keeps_rules,
          Keeps-emit frame,
          Keeps-ask frame,
          Keeps-log_entry,
          Keeps-end_line,
          Keeps-syslog_process,
        )
        depth 16 fits 4000

  Leaves-port :
      (o : Option ℕ) (w : World)
      → P w
      → Leaves P (elim o as (λ _. Option (Void × World)) [
        | none ↦ some (tt, w)
        | some port ↦ some (tt, record w { syslog_port = pos port })
      ])
  Leaves-port none w h = h
  Leaves-port (some port) w h = frame.at_syslog_port w (pos port) h

  Keeps-bind_port : (binds : ℕ → Bool) → Keeps P (bind_port binds)
  unfolding bind_port
  Keeps-bind_port binds = record { at = λ w h. Leaves-port (bind_loop binds 20 0 5001) w h }

  Keeps-syslog_server_init : (binds : ℕ → Bool) → Keeps P (syslog_server_init os binds)
  unfolding syslog_server_init
  Keeps-syslog_server_init binds =
      search (keeps_rules, Keeps-emit frame, Keeps-ask frame, Keeps-bind_port) depth 8

  pub Keeps-ret_receive_begins : (binds : ℕ → Bool) → Keeps P (ret_receive_begins os binds)
  unfolding ret_receive_begins
  Keeps-ret_receive_begins binds =
      Keeps-bind _ _ (Keeps-syslog_server_init binds) (λ ret. Keeps-pure (not (eqb_ℤ failed ret)))

module _ (os : Os) where
  Inv-queue :
      (w : World) (rest : List Msg)
      → All IsMessage rest
      → Inv os w
      → Inv os (record w { queue = rest })
  Inv-queue w rest ok h = record {
    free = h.free;
    tables = h.tables;
    queued = ok;
    called = h.called;
    run = h.run;
    named = h.named;
    configured = h.configured;
  }

  Keeps-send_message : (m : Msg) → IsMessage m → Keeps (Inv os) (send_message m)
  Keeps-send_message m ok = record {
    at = λ w h.
        Leaves-Ends (send_message m w)
          (λ w' e. rw e (
            Inv-queue (record w { events = delivered os w.net m w.events }) w.queue h.queued
              ((Inv-Frame os).at_events w (delivered os w.net m w.events) h)))
          (send_message-Delivers os w h.free h.tables m ok.0);
  }

  -- A message that is received satisfies what those in the queue do.
  IsMessageIn : Option Msg → Type 0
  IsMessageIn none = Unit
  IsMessageIn (some m) = IsMessage m

  Hands-pop :
      (w : World) (ms : List Msg)
      → All IsMessage ms
      → Inv os w
      → Hands IsMessageIn (Inv os) (elim ms as (λ _. Option (Option Msg × World)) [
        | [] ↦ some (none, w)
        | m ∷ rest ↦ some (some m, record w { queue = rest })
      ])
  unfolding IsMessageIn
  Hands-pop w [] all h = (tt, h)
  Hands-pop w (m ∷ rest) all h = (all.0, Inv-queue w rest all.1 h)

  Gives-msgrcv : Gives (Inv os) IsMessageIn msgrcv
  unfolding msgrcv
  Gives-msgrcv = record { at = λ w h. Hands-pop w w.queue h.queued h }

  Keeps-send_received :
      (o : Option Msg)
      → IsMessageIn o
      → Keeps (Inv os) (elim o as (λ _. M Void) [ none ↦ skip | some m ↦ send_message m ])
  unfolding IsMessageIn
  Keeps-send_received none h = Keeps-pure tt
  Keeps-send_received (some m) h = Keeps-send_message m h

  pub Keeps-cmd_send : Keeps (Inv os) cmd_send
  unfolding cmd_send
  Keeps-cmd_send = Keeps-bind-Gives msgrcv _ Gives-msgrcv Keeps-send_received
