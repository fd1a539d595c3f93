-- ===== src/System/Messages.antt =====
-- The commands that send keep the invariant, and each property that is `Closed`: every message that they queue is for a client in range
-- and fits its arrays.
use auto_test_tools.Base.{
  ℕ, ◌≡◌, ◌<◌, refl, Bool, true, false, not, List, [], ◌∷◌, ◌++◌, Option, none, some, arith, length,
  if◌then◌else◌, Bool-cases, inl, inr,
}
use auto_test_tools.Base.Int.{ℤ, pos, eqb_ℤ, ltb_ℤ}
use auto_test_tools.CString.Compare.{Bytes}
use auto_test_tools.CString.Format.{snprintf_format}
use auto_test_tools.Commands.Framed.{
  Keeps-param, Keeps-param_number, Keeps-wrong_parameter, Keeps-client_ready, Keeps-bad_ioevt,
  Keeps-syslog_text,
}
use auto_test_tools.Commands.Queue.{
  send_msg, client_ready, cmd_code_of, ioevt_send, ioevt, call, shared_send, syslog_conf,
  hide_feature_proc, max_cmd_code, max_shared_length, syslog_text,
}
use auto_test_tools.Commands.Usage.{cmd_at}
use auto_test_tools.Network.{out_of_range, failed}
use auto_test_tools.Params.{param}
use auto_test_tools.System.Invariant.{Closed, IsMessage, bounded-short, snprintf_format-short}
use auto_test_tools.System.Keys.{IsKeys, Gives-read_keys}
use auto_test_tools.World.Gives.{
  Gives, Gives-bind, Gives-any, Gives-defined, Gives-weaken, Keeps-bind-Gives,
}
use auto_test_tools.World.Keeps.{
  Keeps, Frame, Keeps-bind, Keeps-if, Keeps-pure, Keeps-gets, Keeps-defined, Keeps-bind-defined,
  Keeps-emit, Keeps-ask, Keeps-modify,
}
use auto_test_tools.World.Monad.{M, Void, ◌>>=◌, gets, skip, defined}
use auto_test_tools.World.State.{World, Os, Msg, shared, ioevt_obj, Event, printed, number}
use Prim.Native.String.{String}

Keeps-cmd_at : {P : World → Type 0} (k : ℕ) → Keeps P (cmd_at k)
unfolding cmd_at
Keeps-cmd_at k = Keeps-defined _

abbrev complaint_range : Event
complaint_range = printed "valid client number:%d - %d\n" (number (pos 0) ∷ number (pos 9) ∷ [])

module _ (os : Os) {P : World → Type 0} (closed : Closed os P) where
  abbrev frame : Frame P
  frame = closed.frame

  Gives-cmd_code_of : (k : ℕ) → Gives P (λ code. length code < max_cmd_code) (cmd_code_of k)
  unfolding cmd_code_of
  Gives-cmd_code_of k = Gives-bind _ _ (Gives-any _ (Keeps-param frame 0)) (λ word _.
      Gives-bind _ _ (Gives-any _ (Keeps-cmd_at k)) (λ entry _.
        Gives-defined _ _ (λ code e. snprintf_format-short max_cmd_code _ (omega arith) e)))

  -- A client number that is ready is in range.
  Gives-client_ready : (c : ℤ) → Gives P (λ b. b ≡ true → out_of_range c ≡ false) (client_ready c)
  unfolding client_ready
  Gives-client_ready c = elim (Bool-cases (out_of_range c)) [
    | inl r ↦ record {
      at = λ w h. rw r (λ b. cc, frame.at_events w (complaint_range ∷ w.events) h);
    }
    | inr r ↦ Gives-weaken _ (λ b _ _. r) (Gives-any _ (Keeps-client_ready frame c))
  ]

  Keeps-send_msg :
      (msg : Msg) (complaint : String) → IsMessage msg → Keeps P (send_msg os msg complaint)
  unfolding send_msg
  Keeps-send_msg msg complaint m = Keeps-bind _ _ (Keeps-ask frame os.msgsnd) (λ ret.
      Keeps-if (eqb_ℤ ret failed) _ _ (Keeps-emit frame (printed complaint [])) (
        Keeps-modify (λ w. record w { queue = w.queue ++ msg ∷ [] })
          (λ w h. closed.at_queued w msg m h)))

  Keeps-send_keys :
      (c : ℤ) (code act : Bytes) (keys : Option (List Bytes))
      → out_of_range c ≡ false
      → length code < max_cmd_code
      → length act < 5
      → IsKeys keys
      → Keeps P (elim keys as (λ _. M Void) [
        | none ↦ skip
        | some ks ↦
            send_msg os
              (record {
                client_num = c;
                cmd_obj = record {
                  cmd_code = code;
                  param = ioevt_obj (record { keys = ks; action = act });
                };
              })
              "msg ioevt send failed!"
      ])
  Keeps-send_keys c code act none range short brief fits = Keeps-pure tt
  Keeps-send_keys c code act (some ks) range short brief fits =
      Keeps-send_msg _ _ (range, short, (fits.0, fits.1, brief))

  Keeps-ioevt_send : (k : ℕ) (c : ℤ) → out_of_range c ≡ false → Keeps P (ioevt_send os k c)
  unfolding ioevt_send
  Keeps-ioevt_send k c range = Keeps-bind-Gives _ _ (Gives-cmd_code_of k) (λ code short.
      Keeps-bind _ _ (Keeps-param frame 3) (λ action.
        Keeps-bind-defined (snprintf_format 5 action) _ (λ act e.
          Keeps-bind _ _ (Keeps-param frame 2) (λ arg.
            Keeps-bind-Gives _ _ (Gives-read_keys os closed arg) (λ keys fits.
              Keeps-send_keys c code act keys range short
                (snprintf_format-short 5 action (omega arith) e) fits)))))

  -- What is sent only to a client that is ready.
  Keeps-if_ready :
      (b : Bool) (c : ℤ) (m : M Void)
      → (b ≡ true → out_of_range c ≡ false)
      → (out_of_range c ≡ false → Keeps P m)
      → Keeps P (if b then m else skip)
  Keeps-if_ready true c m ready k = k (ready refl)
  Keeps-if_ready false c m ready k = Keeps-pure tt

  Keeps-if_not_ready :
      (b : Bool) (c : ℤ) (m : M Void)
      → (b ≡ true → out_of_range c ≡ false)
      → (out_of_range c ≡ false → Keeps P m)
      → Keeps P (if not b then skip else m)
  Keeps-if_not_ready true c m ready k = k (ready refl)
  Keeps-if_not_ready false c m ready k = Keeps-pure tt

  pub Keeps-ioevt : (k : ℕ) → Keeps P (ioevt os k)
  unfolding ioevt
  Keeps-ioevt k = Keeps-bind _ _ (Keeps-gets (λ w. w.params.param_num)) (λ n.
      Keeps-bind _ _ (Keeps-bad_ioevt frame n) (λ bad.
        Keeps-if bad _ _ (Keeps-wrong_parameter frame k) (
          Keeps-bind _ _ (Keeps-param_number frame 1) (λ c.
            Keeps-bind-Gives _ _ (Gives-client_ready c)
              (λ ready r. Keeps-if_ready ready c _ r (Keeps-ioevt_send k c))))))

  Keeps-shared_send :
      (k : ℕ) (c : ℤ) (body : M Bytes)
      → Keeps P body
      → out_of_range c ≡ false
      → Keeps P (shared_send os k c body)
  unfolding shared_send
  Keeps-shared_send k c body b range = Keeps-bind-Gives _ _ (Gives-cmd_code_of k) (λ code short.
      Keeps-bind _ _ b (λ arg.
        Keeps-send_msg _ _ (range, short, bounded-short max_shared_length arg (omega arith))))

  pub Keeps-syslog_conf : (k : ℕ) → Keeps P (syslog_conf os k)
  unfolding syslog_conf
  Keeps-syslog_conf k = Keeps-bind _ _ (Keeps-gets (λ w. w.params.param_num)) (λ n.
      Keeps-if (ltb_ℤ n (pos 2)) _ _ (Keeps-wrong_parameter frame k) (
        Keeps-bind _ _ (Keeps-param_number frame 1) (λ c.
          Keeps-bind-Gives _
            (λ ready. gets (λ w. w.syslog_port) >>= λ port.
              if ready then shared_send os k c (syslog_text n c port) else skip)
            (Gives-client_ready c)
            (λ ready r. Keeps-bind _ _ (Keeps-gets (λ w. w.syslog_port)) (λ port.
              Keeps-if_ready ready c _ r
                (Keeps-shared_send k c _ (Keeps-syslog_text frame n c port)))))))

  pub Keeps-hide_feature_proc : (k : ℕ) → Keeps P (hide_feature_proc os k)
  unfolding hide_feature_proc
  Keeps-hide_feature_proc k = Keeps-bind _ _ (Keeps-gets (λ w. w.params.param_num)) (λ n.
      Keeps-if (ltb_ℤ n (pos 2)) _ _ (Keeps-wrong_parameter frame k) (
        Keeps-bind _ _ (Keeps-param_number frame 1) (λ c.
          Keeps-bind-Gives _ _ (Gives-client_ready c) (λ ready r.
            Keeps-if_ready ready c _ r (Keeps-shared_send k c _ (Keeps-param frame 2))))))

  -- The message of `call`.
  Keeps-call_send :
      (c : ℤ)
      → out_of_range c ≡ false
      → Keeps P (do
        word ← param 0
        code ← defined (snprintf_format max_cmd_code word)
        tel ← param 2
        arg ← defined (snprintf_format max_shared_length tel)
        send_msg os
            (record { client_num = c; cmd_obj = record { cmd_code = code; param = shared arg } })
            "msg call send failed!")
  Keeps-call_send c range = Keeps-bind _ _ (Keeps-param frame 0) (λ word.
      Keeps-bind-defined (snprintf_format max_cmd_code word) _ (λ code e.
        Keeps-bind _ _ (Keeps-param frame 2) (λ tel.
          Keeps-bind-defined (snprintf_format max_shared_length tel) _ (λ arg f.
            Keeps-send_msg _ _ (
              range,
              snprintf_format-short max_cmd_code word (omega arith) e,
              snprintf_format-short max_shared_length tel (omega arith) f,
            )))))

  pub Keeps-call : (k : ℕ) → Keeps P (call os k)
  unfolding call
  Keeps-call k = Keeps-bind _ _ (Keeps-gets (λ w. w.params.param_num)) (λ n.
      Keeps-if (not (eqb_ℤ n (pos 2))) _ _ (Keeps-wrong_parameter frame k) (
        Keeps-bind _ _ (Keeps-param_number frame 1) (λ c.
          Keeps-bind-Gives _ _ (Gives-client_ready c)
            (λ ready r. Keeps-if_not_ready ready c _ r (Keeps-call_send c)))))
