-- ===== src/Commands/Framed/Threads.antt =====
-- `start`, `stop` and the commands that only print or wait, with the names of the scripts left to a
-- hypothesis.
use auto_test_tools.Base.{ℕ, [], some, ◌||◌, if◌then◌else◌, false, not, ◌==◌}
use auto_test_tools.Base.Int.{ℤ, pos, ltb_ℤ}
use auto_test_tools.CString.Compare.{Bytes, same, codes}
use auto_test_tools.Commands.Framed.{Keeps-param, Keeps-param_number, Keeps-wrong_parameter}
use auto_test_tools.Commands.Threads.{
  set_script_thread_id, get_script_thread_id, create_thread, start_send, start_rec, open_queue,
  start_all, start_mode, start, end_thread, stop_send, stop_rec, stop_script_at, stop_script,
  stop_all, stop,
}
use auto_test_tools.Commands.Usage.{wrong_parameter}
use auto_test_tools.World.Keeps.{
  Leaves-if, Keeps, Frame, Keeps-emit, Keeps-ask, Keeps-bind, Keeps-elim, Keeps-for_each, Keeps-if,
  Keeps-pure, Keeps-reads, Keeps-defined, keeps_rules,
}
use auto_test_tools.World.Array.{fetch, store}
use auto_test_tools.World.Monad.{defined, ◌>>◌, skip, say}
use auto_test_tools.World.State.{
  World, printed, Os, Body, cmd_send, ret_receive, Threads, max_script_thread,
}
use Prim.Native.String.{String}

module _ {P : World → Type 0} (frame : Frame P) where
  Keeps-threads : (f : World → Threads) → Keeps P (λ w. some (tt, record w { threads = f w }))
  Keeps-threads f = record { at = λ w h. frame.at_threads w (f w) h }

  Keeps-msg_id : (id : ℤ) → Keeps P (λ w. some (tt, record w { msg_id = id }))
  Keeps-msg_id id = record { at = λ w h. frame.at_msg_id w id h }

  pub Keeps-get_script_thread_id : (n : ℤ) → Keeps P (get_script_thread_id n)
  unfolding get_script_thread_id
  Keeps-get_script_thread_id n = Keeps-reads (λ w. fetch max_script_thread w.threads.script_ids n)

  pub Keeps-set_script_thread_id : (n : ℤ) (id : ℕ) → Keeps P (set_script_thread_id n id)
  unfolding set_script_thread_id
  Keeps-set_script_thread_id n id = record {
    at = λ w h. Leaves-if P (ltb_ℤ n (pos 0) || ltb_ℤ (pos 10) n) _ _ h (
        (Keeps-bind (defined (store max_script_thread w.threads.script_ids n id)) _
            (Keeps-defined _)
            (λ ids. Keeps-threads (λ v. record v.threads { script_ids = ids }))).at
          w h);
  }

  pub Keeps-create_thread :
      (os : Os) (body : Body) (complaint : String) → Keeps P (create_thread os body complaint)
  unfolding create_thread
  Keeps-create_thread os body complaint = search (keeps_rules, Keeps-emit frame, Keeps-ask frame)

  Keeps-start_send : (os : Os) → Keeps P (start_send os)
  unfolding start_send
  Keeps-start_send os =
      Keeps-bind _ _ (Keeps-create_thread os cmd_send "Create test pthread error!\n") (λ id.
        Keeps-elim id _ _ (Keeps-pure false)
          (λ n. search (keeps_rules, Keeps-emit frame, Keeps-threads)))

  Keeps-start_rec : (os : Os) → Keeps P (start_rec os)
  unfolding start_rec
  Keeps-start_rec os =
      Keeps-bind _ _ (Keeps-create_thread os ret_receive "Create rec pthread error!\n") (λ id.
        Keeps-elim id _ _ (Keeps-pure tt)
          (λ n. search (keeps_rules, Keeps-emit frame, Keeps-threads)))

  Keeps-open_queue : (os : Os) → Keeps P (open_queue os)
  unfolding open_queue
  Keeps-open_queue os =
      search (keeps_rules, Keeps-emit frame, Keeps-ask frame, Keeps-msg_id) depth 12

  Keeps-start_all : (os : Os) (s r : ℕ) → Keeps P (start_all os s r)
  unfolding start_all
  Keeps-start_all os s r = search (keeps_rules, Keeps-emit frame, Keeps-start_send, Keeps-start_rec)

  pub Keeps-end_thread : (id : ℕ) → Keeps P (end_thread id)
  unfolding end_thread
  Keeps-end_thread id = search (keeps_rules, Keeps-emit frame)

  Keeps-stop_send : (id : ℕ) → Keeps P (stop_send id)
  unfolding stop_send
  Keeps-stop_send id = search (keeps_rules, Keeps-emit frame, Keeps-end_thread, Keeps-threads)

  Keeps-stop_rec : (id : ℕ) → Keeps P (stop_rec id)
  unfolding stop_rec
  Keeps-stop_rec id = search (keeps_rules, Keeps-emit frame, Keeps-end_thread, Keeps-threads)

  Keeps-stop_script_at : (i : ℕ) → Keeps P (stop_script_at i)
  unfolding stop_script_at
  Keeps-stop_script_at i =
      search (keeps_rules, Keeps-get_script_thread_id, Keeps-end_thread, Keeps-set_script_thread_id)

  Keeps-stop_script : (n : ℤ) → Keeps P (stop_script n)
  unfolding stop_script
  Keeps-stop_script n =
      search
        (
          keeps_rules,
          Keeps-emit frame,
          Keeps-get_script_thread_id,
          Keeps-end_thread,
          Keeps-set_script_thread_id,
        )
        depth 8

  module _
      (clears : (w : World)
        → P w
        → P (record w { scripts = record w.scripts { names = λ _. [] } })) where
    Keeps-g_script_param_init :
        Keeps P (λ w. some (tt, record w { scripts = record w.scripts { names = λ _. [] } }))
    Keeps-g_script_param_init = record { at = clears }

    Keeps-stop_all : (s r : ℕ) → Keeps P (stop_all s r)
    unfolding stop_all
    Keeps-stop_all s r = Keeps-bind _ _ (Keeps-stop_send s) (λ _.
        Keeps-bind _ _ (Keeps-stop_rec r) (λ _.
          Keeps-bind _ _ (Keeps-for_each max_script_thread 0 stop_script_at Keeps-stop_script_at)
            (λ _.
              Keeps-bind _ _ Keeps-g_script_param_init
                (λ _. Keeps-emit frame (printed "script mode stoped!\n" [])))))

    pub Keeps-stop : (k : ℕ) → Keeps P (stop k)
    unfolding stop
    Keeps-stop k =
        search
          (
            keeps_rules,
            Keeps-param frame,
            Keeps-param_number frame,
            Keeps-wrong_parameter frame,
            Keeps-stop_all,
            Keeps-stop_send,
            Keeps-stop_rec,
            Keeps-stop_script,
          )
          depth 14 fits 4000

    Keeps-start_mode :
        (os : Os) (k : ℕ) (mode : Bytes) (s r : ℕ) → Keeps P (start_mode os k mode s r)
    unfolding start_mode
    Keeps-start_mode os k mode s r =
        Keeps-if (same mode (codes "rec")) _ _
          (search (keeps_rules, Keeps-emit frame, Keeps-start_rec))
          (Keeps-bind _ _ (Keeps-open_queue os) (λ opened.
            Keeps-if (not opened) _ _ (Keeps-pure tt) (
              Keeps-bind _
                (λ _.
                  if same mode (codes "all")
                  then start_all os s r
                  else if same mode (codes "test")
                  then if s == 0 then start_send os >> skip else say "start test mode already!\n" []
                  else wrong_parameter k)
                Keeps-g_script_param_init
                (λ _.
                  search
                    (
                      keeps_rules,
                      Keeps-emit frame,
                      Keeps-wrong_parameter frame,
                      Keeps-start_all,
                      Keeps-start_send,
                    )
                    depth 8))))

    pub Keeps-start : (os : Os) (k : ℕ) → Keeps P (start os k)
    unfolding start
    Keeps-start os k =
        search (keeps_rules, Keeps-param frame, Keeps-wrong_parameter frame, Keeps-start_mode) depth
          8
