-- ===== src/System/Counts.antt =====
-- The counts of calls and of rounds stay natural numbers, and every property that is `Closed` is kept.
use auto_test_tools.Base.{ℕ, ◌≡◌, some, Bool-cases, inl, inr, ltb, ◌==◌}
use auto_test_tools.Base.Int.{ℤ, pos, negsuc, ltb_ℤ}
use auto_test_tools.Commands.Framed.Shows.{
  Keeps-get_count_of_success_call, Keeps-get_count_of_script_run,
}
use auto_test_tools.Logs.Counts.{set_count_of_success_call, count_call}
use auto_test_tools.Script.Run.{set_count_of_script_run, count_round}
use auto_test_tools.System.Invariant.{Closed, IsCount}
use auto_test_tools.World.Array.{update, fetch, store}
use auto_test_tools.World.Keeps.{Keeps, Frame, Keeps-bind-defined, Keeps-modify, keeps_rules}
use auto_test_tools.World.State.{World, Os, max_client, max_call_type, max_script_thread}

-- An entry that is stored is as good as the others.
pub store-each :
    {A : Type 0} (P : A → Type 0) (size : ℕ) (a : ℕ → A) (c : ℤ) (v : A) {b : ℕ → A}
    → store size a c v ≡ some b
    → P v
    → ((j : ℕ) → P (a j))
    → (j : ℕ) → P (b j)
store-each P size a (pos i) v {b} e pv pa j = elim (Bool-cases (ltb i size)) [
  | inr out ↦ cc
  | inl inside ↦
      let same : update a i v ≡ b = cc in
      rw (← same) (elim (Bool-cases (i == j)) [ inl e ↦ rw e pv | inr n ↦ rw n (pa j) ])
]
store-each P size a (negsuc i) v e pv pa j = cc

fetch-each :
    {A : Type 0} (P : A → Type 0) (size : ℕ) (a : ℕ → A) (c : ℤ) {v : A}
    → fetch size a c ≡ some v
    → ((j : ℕ) → P (a j))
    → P v
fetch-each P size a (pos i) {v} e pa = elim (Bool-cases (ltb i size)) [
  | inr out ↦ cc
  | inl inside ↦ let same : a i ≡ v = cc in rw (← same) (pa i)
]
fetch-each P size a (negsuc i) e pa = cc

module _ (os : Os) {P : World → Type 0} (closed : Closed os P) where
  abbrev frame : Frame P
  frame = closed.frame

  Keeps-set_count_of_success_call :
      (kind : ℕ) (c value : ℤ) → Keeps P (set_count_of_success_call kind c value)
  unfolding set_count_of_success_call
  Keeps-set_count_of_success_call kind c value = record {
    at = λ w h. elim (Bool-cases (ltb_ℤ value (pos 0))) [
      | inl low ↦ rw low h
      | inr count ↦ rw count (
          (Keeps-bind-defined (fetch max_call_type w.success_call (pos kind)) _ (λ row e.
              Keeps-bind-defined (store max_client row c value) _ (λ row' e'.
                Keeps-bind-defined (store max_call_type w.success_call (pos kind) row') _
                  (λ table e''.
                    Keeps-modify (λ v. record v { success_call = table })
                      (λ v hv.
                        closed.at_called v table
                          (store-each (λ r. (i : ℕ) → IsCount (r i)) max_call_type w.success_call
                            (pos kind) row' e''
                            (store-each IsCount max_client row c value e' count (
                              fetch-each (λ r. (i : ℕ) → IsCount (r i)) max_call_type w.success_call
                                (pos kind) e (closed.inv w h).called))
                            (closed.inv w h).called)
                          hv))))).at
            w h)
    ];
  }

  pub Keeps-count_call : (kind : ℕ) (c : ℤ) → Keeps P (count_call kind c)
  unfolding count_call
  Keeps-count_call kind c =
      search (keeps_rules, Keeps-get_count_of_success_call frame, Keeps-set_count_of_success_call)

  pub Keeps-set_count_of_script_run : (n value : ℤ) → Keeps P (set_count_of_script_run n value)
  unfolding set_count_of_script_run
  Keeps-set_count_of_script_run n value = record {
    at = λ w h. elim (Bool-cases (ltb_ℤ value (pos 0))) [
      | inl low ↦ rw low h
      | inr count ↦ rw count (
          (Keeps-bind-defined (store max_script_thread w.scripts.counts n value) _ (λ counts e.
              Keeps-modify (λ v. record v { scripts = record v.scripts { counts = counts } })
                (λ v hv.
                  closed.at_run v counts
                    (store-each IsCount max_script_thread w.scripts.counts n value e count
                      (closed.inv w h).run)
                    hv))).at
            w h)
    ];
  }

  pub Keeps-count_round : (n : ℤ) → Keeps P (count_round n)
  unfolding count_round
  Keeps-count_round n =
      search (keeps_rules, Keeps-get_count_of_script_run frame, Keeps-set_count_of_script_run)
