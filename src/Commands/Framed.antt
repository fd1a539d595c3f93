-- ===== src/Commands/Framed.antt =====
-- The parts of the handlers that change no more than the parameters, the threads, the log and the
-- numbers of the system keep every property that does not look at these.
pub mod Threads
pub mod Shows
use auto_test_tools.Base.{
  ℕ, zero, suc, ◌+◌, ◌≡◌, refl, Bool, true, false, List, [], ◌∷◌, Option, none, some, arith,
  if◌then◌else◌, ◌==◌, Bool-cases, inl, inr,
}
use auto_test_tools.Base.Int.{ℤ, pos, eqb_ℤ}
use auto_test_tools.CString.Compare.{Bytes}
use auto_test_tools.Commands.Clients.{locked_flag}
use auto_test_tools.Commands.Clients.Steps.{locked_flag_any}
use auto_test_tools.Commands.Queue.{
  client_ready, cmd_code_of, pointed, key_loop, read_keys, bad_ioevt, syslog_text,
}
use auto_test_tools.Commands.Usage.{cmd_at, print_example, wrong_parameter}
use auto_test_tools.KeyMap.{get_key_code, key_lib}
use auto_test_tools.Network.{out_of_range}
use auto_test_tools.Params.{get_tokens, parse_line, param, param_number, param_pointer}
use auto_test_tools.World.Keeps.{
  Leaves, Leaves-if, Leaves-bind, Keeps, Frame, Keeps-emit, Keeps-ask, Keeps-bind, Keeps-elim,
  Keeps-modify, Keeps-pure, keeps_rules,
}
use auto_test_tools.World.Monad.{pure, defined}
use auto_test_tools.World.State.{World, Params}

module _ {P : World → Type 0} (frame : Frame P) where
  pub Keeps-param : (i : ℕ) → Keeps P (param i)
  unfolding param
  Keeps-param i = record { at = λ w h. ground (arith, h) }

  pub Keeps-param_number : (i : ℕ) → Keeps P (param_number i)
  unfolding param_number
  Keeps-param_number i = search (keeps_rules, Keeps-param)

  pub Keeps-param_pointer : (i : ℕ) → Keeps P (param_pointer i)
  unfolding param_pointer
  Keeps-param_pointer i = record { at = λ w h. h }

  pub Keeps-print_example : (k : ℕ) → Keeps P (print_example k)
  unfolding print_example cmd_at
  Keeps-print_example k = search (keeps_rules, Keeps-emit frame)

  pub Keeps-wrong_parameter : (k : ℕ) → Keeps P (wrong_parameter k)
  unfolding wrong_parameter
  Keeps-wrong_parameter k = search (keeps_rules, Keeps-emit frame, Keeps-print_example)

  Keeps-params : (f : World → Params) → Keeps P (λ w. some (tt, record w { params = f w }))
  Keeps-params f = record { at = λ w h. frame.at_params w (f w) h }

  pub Keeps-get_tokens : (str : Bytes) (d : ℕ) → Keeps P (get_tokens str d)
  unfolding get_tokens
  Keeps-get_tokens str d = search (keeps_rules, Keeps-params)

  pub Keeps-parse_line : (line : Bytes) → Keeps P (parse_line line)
  unfolding parse_line
  Keeps-parse_line line = search (keeps_rules, Keeps-params, Keeps-get_tokens)

  pub Keeps-locked_flag : (c : ℤ) → Keeps P (locked_flag c)
  Keeps-locked_flag c = record {
    at = λ w h. let (f, e) = locked_flag_any w (frame.free w h) c in rw e h;
  }

  pub Keeps-client_ready : (c : ℤ) → Keeps P (client_ready c)
  unfolding client_ready
  Keeps-client_ready c = record {
    at = λ w h.
        Leaves-if P (out_of_range c) _ _ (frame.at_events w _ h)
          (Leaves-if P (w.threads.send_id == 0) _ _ (frame.at_events w _ h) h);
  }

  pub Keeps-cmd_code_of : (k : ℕ) → Keeps P (cmd_code_of k)
  unfolding cmd_code_of cmd_at
  Keeps-cmd_code_of k = search (keeps_rules, Keeps-param)

  pub Keeps-pointed : (o : Option ℕ) → Keeps P (pointed o)
  unfolding pointed
  Keeps-pointed none = record { at = λ w h. tt }
  Keeps-pointed (some o) = record { at = λ w h. h }

  Keeps-key_loop : (ptrs : ℕ → Option ℕ) (rounds index : ℕ) → Keeps P (key_loop ptrs rounds index)
  unfolding key_loop
  Keeps-key_loop ptrs zero index = Keeps-pure _
  Keeps-key_loop ptrs (suc rounds) index =
      Keeps-bind (pointed (ptrs index)) _ (Keeps-pointed (ptrs index)) (λ word.
        Keeps-elim (get_key_code key_lib word) _ _ (search (keeps_rules, Keeps-emit frame)) (λ k.
          Keeps-bind (key_loop ptrs rounds (index + 1)) _ (Keeps-key_loop ptrs rounds (index + 1))
            (λ more. Keeps-pure _)))

  pub Keeps-read_keys : (arg : Bytes) → Keeps P (read_keys arg)
  unfolding read_keys
  Keeps-read_keys arg = search (keeps_rules, Keeps-get_tokens, Keeps-key_loop)

  pub Keeps-bad_ioevt : (n : ℤ) → Keeps P (bad_ioevt n)
  unfolding bad_ioevt
  Keeps-bad_ioevt n = record {
    at = λ w h.
        Leaves-if P (eqb_ℤ n (pos 3)) _ _
          (Leaves-bind (param 3 w) _ ((Keeps-param 3).at w h) (λ a. Keeps-pure _)) h;
  }

  pub Keeps-syslog_text : (n c port : ℤ) → Keeps P (syslog_text n c port)
  unfolding syslog_text
  Keeps-syslog_text n c port = search (keeps_rules, Keeps-param)
