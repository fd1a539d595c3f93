-- ===== src/System/Shown.antt =====
-- A typed line of `add`, and what `show` then prints.
use mathlib.Core.Path.{fun_ext}
use auto_test_tools.Base.{
  ℕ, suc, ◌≡◌, refl, ap, ◌∙◌, false, List, [], ◌∷◌, Option, some, arith, length, get_elem?,
  if◌then◌else◌,
}
use auto_test_tools.Base.Int.{ℤ, sub_ℕ, pos, pos_part, ltb_ℤ}
use auto_test_tools.CString.Compare.{Bytes}
use auto_test_tools.CString.Format.{IsPlain, IsText}
use auto_test_tools.CString.Number.{atoi}
use auto_test_tools.CmdLib.{cmd_lib, get_cmd_code}
use auto_test_tools.Commands.Clients.{add_client, add_client_at}
use auto_test_tools.Commands.Clients.Registry.{BecomesRegistry, add_client-registers}
use auto_test_tools.Commands.Dispatch.{cmd_proc, run_found}
use auto_test_tools.Commands.Dispatch.Select.{seen_words}
use auto_test_tools.Commands.Queue.Send.{param_number-atoi}
use auto_test_tools.Commands.Show.{show_client}
use auto_test_tools.Commands.Show.Rows.{rows_shown, running, show_tables-registered}
use auto_test_tools.Network.Config.{PtonLaws, accepts}
use auto_test_tools.Network.Tables.{registered}
use auto_test_tools.Params.{param, param_pointer}
use auto_test_tools.System.Arrival.{cmd_proc-params}
use auto_test_tools.System.Entries.{
  add_index, show_index, add_entry-at, run_found-add, run_found-show,
}
use auto_test_tools.System.Invariant.{Inv}
use auto_test_tools.System.Reach.{Reach, Reach-Inv}
use auto_test_tools.World.Array.{update}
use auto_test_tools.World.Monad.{Ends, Ends-some, ◌>>=◌, ◌>>◌}
use auto_test_tools.World.State.{World, Os, Event, printed, text}

-- A pointer to a word that can be read is passed on as the word.
param_pointer-param :
    (i : ℕ) {x : Bytes} (w : World) → param i w ≡ some (x, w) → param_pointer i w ≡ some (some x, w)
unfolding param param_pointer
param_pointer-param i w e = ground (arith, e)

-- The last thing printed is the list of the clients of this registry, and behind it that of the scripts.
abbrev pub ShowsRegistry : (ℕ → Option Bytes) → World → Type 0
ShowsRegistry r w =
    (scripts : ℕ → Option Bytes) × (conf : Event) × (earlier : List Event) × (w.events
      ≡ rows_shown 10 0 scripts (
          printed "script Parameter:\n" []
          ∷ rows_shown 10 0 r (printed "client Parameter:\n" [] ∷ conf ∷ earlier)))

-- A typed line of `show` alone.
show-shows :
    (os : Os) (fuel : ℕ) (line word : Bytes) (r : ℕ → Option Bytes) (w : World)
    → IsPlain line
    → IsText line
    → seen_words line ≡ word ∷ []
    → get_cmd_code cmd_lib word ≡ some show_index
    → BecomesRegistry os r w
    → Ends (cmd_proc os (suc fuel) line w) (ShowsRegistry r)
unfolding show_client
show-shows os fuel line word r w plain text_line alone code (free, ok, same) =
    let first : get_elem? (seen_words line) 0 ≡ some word =
      ap (λ (l : List Bytes). get_elem? l 0) alone in
    let (p, (count, reads, runs)) = cmd_proc-params os fuel line word w plain text_line first in
    let w₁ : World = record w { params = p } in
    let few : p.param_num ≡ pos 0 = count ∙ ap (λ (l : List Bytes). sub_ℕ (length l) 1) alone in
    let goes =
      runs
      ∙ ap (λ o. run_found os (cmd_proc os fuel) fuel o w₁) code
      ∙ run_found-show os (cmd_proc os fuel) fuel w₁ in
    let shown = show_tables-registered w₁ free (λ i. (ok i).0) in
    let none_given : ltb_ℤ (pos 0) p.param_num ≡ false = rw few refl in
    rw goes (
      rw none_given (
        rw shown (
          running w₁,
          printed "autoConf:  %s\n" (text w.scripts.conf_file_name ∷ []),
          w.events,
          ap
              (λ (t : ℕ → Option Bytes). rows_shown 10 0 (running w₁) (
                printed "script Parameter:\n" []
                ∷ rows_shown 10 0 t (
                    printed "client Parameter:\n" []
                    ∷ printed "autoConf:  %s\n" (text w.scripts.conf_file_name ∷ [])
                    ∷ w.events)))
              (fun_ext same),
        )))

-- From every reachable state a typed line `add <client> <address>`, by either name, and then a typed line
-- `show` print the clients as they were, but with the new client at its number if it is added: that is, if
-- the number is in range and free, the address is valid and a socket is had. The conditions: no per cent
-- sign and no NUL in the two lines, a client number that is an `int`, and no parameter for `show`.
-- `inet_pton` takes no address of more than 15 characters.
pub add-shows :
    (os : Os) (fuel other : ℕ) (c : ℤ) (line word num ip shown word' : Bytes) (w : World)
    → PtonLaws os
    → Reach os w
    → IsPlain line
    → IsText line
    → seen_words line ≡ word ∷ num ∷ ip ∷ []
    → get_cmd_code cmd_lib word ≡ some add_index
    → atoi num ≡ some c
    → IsPlain shown
    → IsText shown
    → seen_words shown ≡ word' ∷ []
    → get_cmd_code cmd_lib word' ≡ some show_index
    → Ends ((cmd_proc os (suc fuel) line >> cmd_proc os (suc other) shown) w) (
        ShowsRegistry (
          if accepts os w c (some ip)
          then update (registered w.net) (pos_part c) (some ip)
          else registered w.net))
unfolding add_client
add-shows os fuel other c line word num ip shown word' w laws r plain text_line three code number
      plain' text' alone code' =
    let at_word : (i : ℕ) → get_elem? (seen_words line) i ≡ get_elem? (word ∷ num ∷ ip ∷ []) i =
      λ i. ap (λ (l : List Bytes). get_elem? l i) three in
    let (p, (count, reads, runs)) =
      cmd_proc-params os fuel line word w plain text_line (at_word 0) in
    let w₁ : World = record w { params = p } in
    let two : p.param_num ≡ pos 2 = count ∙ ap (λ (l : List Bytes). sub_ℕ (length l) 1) three in
    let enough : ltb_ℤ p.param_num (pos 2) ≡ false = rw two refl in
    let h : Inv os w = Reach-Inv laws r in
    let goes : cmd_proc os (suc fuel) line w ≡ add_client_at os add_index c (some ip) w₁ =
      runs
      ∙ ap (λ o. run_found os (cmd_proc os fuel) fuel o w₁) code
      ∙ run_found-add os (cmd_proc os fuel) fuel w₁
      ∙ rw enough (
          rw (param_number-atoi 1 num w₁ (reads 1 num (at_word 1)) number, ◌>>=◌)
            (rw (param_pointer-param 2 w₁ (reads 2 ip (at_word 2)), ◌>>=◌) refl)) in
    let registry =
      if accepts os w c (some ip)
      then update (registered w.net) (pos_part c) (some ip)
      else registered w.net in
    let (_, v, e, known) =
      Ends-some (BecomesRegistry os registry) (add_client_at os add_index c (some ip) w₁)
        (add_client-registers os add_index add_entry-at w₁ h.free h.tables laws c (some ip)) in
    rw (goes ∙ e, ◌>>◌, ◌>>=◌)
      (show-shows os other shown word' registry v plain' text' alone code' known)
