-- ===== src/Commands/Show/Rows.antt =====
-- What `show` prints of the clients and of the scripts.
use auto_test_tools.Base.{
  ℕ, zero, suc, ◌+◌, ◌≡◌, ◌≤◌, ◌<◌, refl, List, [], ◌∷◌, Option, none, some, arith, ◌==◌,
  if◌then◌else◌, false,
}
use auto_test_tools.Base.Int.{pos}
use auto_test_tools.CString.Compare.{Bytes}
use auto_test_tools.Commands.Clients.Steps.{locked_flag_in}
use auto_test_tools.Commands.Show.{show_row, show_script, show_tables}
use auto_test_tools.Commands.Threads.{get_script_thread_id}
use auto_test_tools.Network.{get_client_ip_addr}
use auto_test_tools.Network.Tables.{registered, IsFlag}
use auto_test_tools.World.Monad.{M, Void, for_each, ◌>>=◌}
use auto_test_tools.World.State.{World, Event, printed, text, number}

-- The lines of one number: its name if it has one, else `UNUSED`.
abbrev pub row_shown : ℕ → Option Bytes → List Event → List Event
row_shown i none events = printed "UNUSED\n" [] ∷ printed "%d     " (number (pos i) ∷ []) ∷ events
row_shown i (some name) events =
    printed "\"%s\"\n" (text name ∷ []) ∷ printed "%d     " (number (pos i) ∷ []) ∷ events

-- The lines of `rounds` numbers from `from` on, newest first.
abbrev pub rows_shown : ℕ → ℕ → (ℕ → Option Bytes) → List Event → List Event
rows_shown zero from r events = events
rows_shown (suc rounds) from r events =
    rows_shown rounds (from + 1) r (row_shown from (r from) events)

-- The scripts that run, with the names of their files.
abbrev pub running : World → ℕ → Option Bytes
running w i = if w.threads.script_ids i == 0 then none else some (w.scripts.names i)

get_client_ip_addr_in :
    (w : World) (i : ℕ) → i < 10 → get_client_ip_addr (pos i) w ≡ some (some (w.net.ip_addrs i), w)
unfolding get_client_ip_addr
get_client_ip_addr_in w i h = ground arith

show_row-registered :
    (w : World) (i : ℕ)
    → w.mutex ≡ false
    → i < 10
    → IsFlag (w.net.flags i)
    → show_row i w ≡ some (tt, record w { events = row_shown i (registered w.net i) w.events })
unfolding show_row
show_row-registered w i free h flag =
    let said = record w { events = printed "%d     " (number (pos i) ∷ []) ∷ w.events } in
    ground (arith, locked_flag_in said free i h, get_client_ip_addr_in said i h, flag)

show_script-running :
    (w : World) (i : ℕ)
    → i < 10
    → show_script i w ≡ some (tt, record w { events = row_shown i (running w i) w.events })
unfolding show_script get_script_thread_id
show_script-running w i h = ground arith

module _ (body : ℕ → M Void) (r : ℕ → Option Bytes) (w : World)
    (step : (i : ℕ) (events : List Event)
      → i < 10
      → body i (record w { events = events })
        ≡ some (tt, record w { events = row_shown i (r i) events })) where
  for_each-rows_shown :
      (rounds from : ℕ) (events : List Event)
      → from + rounds ≤ 10
      → for_each rounds from body (record w { events = events })
        ≡ some (tt, record w { events = rows_shown rounds from r events })
  unfolding for_each
  for_each-rows_shown zero from events h = refl
  for_each-rows_shown (suc rounds) from events h =
      rw (step from events (omega arith), for_each)
        (for_each-rows_shown rounds (from + 1) (row_shown from (r from) events) (omega arith))

-- All that `show` prints of the state, newest first.
abbrev pub tables_shown : World → List Event
tables_shown w = rows_shown 10 0 (running w) (
    printed "script Parameter:\n" []
    ∷ rows_shown 10 0 (registered w.net) (
        printed "client Parameter:\n" []
        ∷ printed "autoConf:  %s\n" (text w.scripts.conf_file_name ∷ [])
        ∷ w.events))

-- `show` prints the registry as it is: for each of the ten numbers its address if the client is
-- registered and `UNUSED` if not, and then for each script thread the file of the script that runs or
-- `UNUSED`; it changes nothing but the log. The flags are flags, and the lock is free.
pub show_tables-registered :
    (w : World)
    → w.mutex ≡ false
    → ((i : ℕ) → IsFlag (w.net.flags i))
    → show_tables w ≡ some (tt, record w { events = tables_shown w })
unfolding show_tables
show_tables-registered w free flags =
    let head =
      printed "client Parameter:\n" []
      ∷ printed "autoConf:  %s\n" (text w.scripts.conf_file_name ∷ [])
      ∷ w.events in
    let clients =
      for_each-rows_shown show_row (registered w.net) w
        (λ i events h. show_row-registered (record w { events = events }) i free h (flags i)) 10 0
        head (omega arith) in
    let scripts =
      for_each-rows_shown show_script (running w) w
        (λ i events h. show_script-running (record w { events = events }) i h) 10 0
        (printed "script Parameter:\n" [] ∷ rows_shown 10 0 (registered w.net) head)
        (omega arith) in
    rw (clients, ◌>>=◌) (rw (scripts, ◌>>=◌) refl)
