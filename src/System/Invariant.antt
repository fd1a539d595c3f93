-- ===== src/System/Invariant.antt =====
-- What holds of the state between two steps of the program, and the properties that the program keeps with it.
use auto_test_tools.Base.{
  ℕ, ◌≡◌, ◌≤◌, ◌<◌, ◌-◌, false, List, [], ◌∷◌, ◌++◌, some, arith, length, All, length-take_le,
}
use auto_test_tools.Base.Int.{ℤ, pos, ltb_ℤ}
use auto_test_tools.CString.Compare.{Bytes}
use auto_test_tools.CString.Format.{bounded, format, snprintf_format, map-eq-some}
use auto_test_tools.Commands.Clients.Registry.{IsConsistent}
use auto_test_tools.Commands.Queue.{max_ioevt, max_key_length, max_cmd_code, max_shared_length}
use auto_test_tools.Network.{out_of_range}
use auto_test_tools.World.Keeps.{Frame}
use auto_test_tools.World.State.{World, Net, Os, Msg, CmdParam, shared, ioevt_obj, max_file_name}

-- The parameter fits the arrays of `cmdParam_t`, each text with its NUL.
abbrev pub FitsParam : CmdParam → Type 0
FitsParam (shared text) = length text < max_shared_length
FitsParam (ioevt_obj e) =
    (length e.keys ≤ max_ioevt)
    × All (λ key. length key < max_key_length) e.keys
    × (length e.action < 5)

-- A message for a client in range that fits `msgQ_t`.
abbrev pub IsMessage : Msg → Type 0
IsMessage m =
    (out_of_range m.client_num ≡ false)
    × (length m.cmd_obj.cmd_code < max_cmd_code)
    × FitsParam m.cmd_obj.param

abbrev pub IsCount : ℤ → Type 0
IsCount z = ltb_ℤ z (pos 0) ≡ false

pub record Inv (os : Os) (w : World) : Type 0 where
  pub free : w.mutex ≡ false
  pub tables : IsConsistent os w.net
  pub queued : All IsMessage w.queue
  pub called : (kind i : ℕ) → IsCount (w.success_call kind i)
  pub run : (i : ℕ) → IsCount (w.scripts.counts i)
  pub named : (i : ℕ) → length (w.scripts.names i) < max_file_name
  pub configured : length w.scripts.conf_file_name < max_file_name

pub Inv-Frame : (os : Os) → Frame (Inv os)
Inv-Frame os = record {
  free = λ w h. h.free;
  at_events = λ w events h. search;
  at_calls = λ w calls h. search;
  at_params = λ w params h. search;
  at_threads = λ w threads h. search;
  at_msg_id = λ w id h. search;
  at_syslog_port = λ w port h. search;
}

-- `P` is kept by each change of a variable that the program makes outside `cmd_send`, and it is at least
-- as strong as the invariant.
pub record Closed (os : Os) (P : World → Type 0) : Type 0 where
  pub frame : Frame P
  pub inv : (w : World) → P w → Inv os w
  pub at_net : (w : World) (net : Net) → IsConsistent os net → P w → P (record w { net = net })
  pub at_queued :
      (w : World) (m : Msg) → IsMessage m → P w → P (record w { queue = w.queue ++ m ∷ [] })
  pub at_called :
      (w : World) (table : ℕ → ℕ → ℤ)
      → ((kind i : ℕ) → IsCount (table kind i))
      → P w
      → P (record w { success_call = table })
  pub at_run :
      (w : World) (counts : ℕ → ℤ)
      → ((i : ℕ) → IsCount (counts i))
      → P w
      → P (record w { scripts = record w.scripts { counts = counts } })
  pub at_names :
      (w : World) (names : ℕ → Bytes)
      → ((i : ℕ) → length (names i) < max_file_name)
      → P w
      → P (record w { scripts = record w.scripts { names = names } })
  pub at_configured :
      (w : World) (name : Bytes)
      → length name < max_file_name
      → P w
      → P (record w { scripts = record w.scripts { conf_file_name = name } })

pub All-snoc :
    {A : Type 0} (P : A → Type 0) (xs : List A) (x : A) → All P xs → P x → All P (xs ++ x ∷ [])
All-snoc P [] x h p = (p, tt)
All-snoc P (y ∷ xs) x h p = (h.0, All-snoc P xs x h.1 p)

pub Inv-Closed : (os : Os) → Closed os (Inv os)
Inv-Closed os = record {
  frame = Inv-Frame os;
  inv = λ w h. h;
  at_net = λ w net ok h. search;
  at_queued = λ w m ok h.
      let all = All-snoc IsMessage w.queue m h.queued ok in
      record {
        free = h.free;
        tables = h.tables;
        queued = all;
        called = h.called;
        run = h.run;
        named = h.named;
        configured = h.configured;
      };
  at_called = λ w table ok h. search;
  at_run = λ w counts ok h. search;
  at_names = λ w names ok h. search;
  at_configured = λ w name ok h. search;
}

pub bounded-short : (size : ℕ) (s : Bytes) → 0 < size → length (bounded size s) < size
bounded-short size s h = omega (arith, length-take_le (size - 1) s)

pub snprintf_format-short :
    (size : ℕ) (s : Bytes) {t : Bytes}
    → 0 < size
    → snprintf_format size s ≡ some t
    → length t < size
unfolding snprintf_format
snprintf_format-short size s {t} h e =
    let (u, f, b) = map-eq-some (bounded size) (format s) e in rw (← b) (bounded-short size u h)
