-- ===== src/Logs/Ports.antt =====
-- core/src/autoTest.c: the port that `syslogServerInit` gets.
use auto_test_tools.Base.{
  ℕ, zero, suc, ◌+◌, ◌≡◌, ◌<◌, ◌⊎◌, refl, Bool, true, false, Option, none, some, arith, Bool-cases,
  inl, inr,
}
use auto_test_tools.Base.Int.{pos}
use auto_test_tools.Logs.Serve.{bind_loop, bind_port}
use auto_test_tools.World.Monad.{Ends}
use auto_test_tools.World.State.{World}

-- The port of try `j`, counted from try `i` at `port`.
abbrev pub port_at : ℕ → ℕ → ℕ → ℕ
port_at i port zero = port + i
port_at i port (suc j) = port_at (i + 1) (port + i) j

-- The result is the port of the first of the tries that is had, or there is none.
abbrev pub FirstPort : (ℕ → Bool) → ℕ → ℕ → ℕ → Option ℕ → Type 0
FirstPort binds tries i port none = (j : ℕ) → j < tries → binds (port_at i port j) ≡ false
FirstPort binds tries i port (some p) =
    (k : ℕ) × (k < tries)
    × (p ≡ port_at i port k)
    × (binds p ≡ true)
    × ((j : ℕ) → j < k → binds (port_at i port j) ≡ false)

FirstPort-later :
    (binds : ℕ → Bool) (tries i port : ℕ) (r : Option ℕ)
    → binds (port + i) ≡ false
    → FirstPort binds tries (i + 1) (port + i) r
    → FirstPort binds (suc tries) i port r
FirstPort-later binds tries i port none b rest = λ j h. go j h
  where
    go : (j : ℕ) → j < suc tries → binds (port_at i port j) ≡ false
    go zero h = b
    go (suc j) h = rest j (omega arith)
FirstPort-later binds tries i port (some p) b (k, l, e, t, before) = (suc k, omega arith, e, t, go)
  where
    go : (j : ℕ) → j < suc k → binds (port_at i port j) ≡ false
    go zero h = b
    go (suc j) h = before j (omega arith)

bind_loop-FirstPort :
    (binds : ℕ → Bool) (tries i port : ℕ)
    → FirstPort binds tries i port (bind_loop binds tries i port)
unfolding bind_loop
bind_loop-FirstPort binds zero i port = λ j h. absurd (omega arith)
bind_loop-FirstPort binds (suc tries) i port = elim (Bool-cases (binds (port + i))) [
  | inl b ↦ rw b (zero, omega arith, refl, b, λ j h. absurd (omega arith))
  | inr b ↦ rw b (
      FirstPort-later binds tries i port (bind_loop binds tries (i + 1) (port + i)) b
        (bind_loop-FirstPort binds tries (i + 1) (port + i)))
]

-- Only the syslog port changes, to the first port that is had, if one is.
abbrev pub HasFirstPort : (ℕ → Bool) → World → World → Type 0
HasFirstPort binds w w' =
    (w' ≡ record w { syslog_port = w'.syslog_port })
    × (((p : ℕ) × (w'.syslog_port ≡ pos p) × FirstPort binds 20 0 5001 (some p))
        ⊎ ((w'.syslog_port ≡ w.syslog_port) × FirstPort binds 20 0 5001 none))

-- The syslog port becomes the first of the ports 5001, 5002, 5004, 5007, … of the twenty tries that
-- `bind` gives, and stays as it was if it gives none of them; nothing else changes.
pub bind_port-first :
    (binds : ℕ → Bool) (w : World) → Ends (bind_port binds w) (HasFirstPort binds w)
unfolding bind_port
bind_port-first binds w = go (bind_loop binds 20 0 5001) refl
  where
    go :
        (r : Option ℕ)
        → bind_loop binds 20 0 5001 ≡ r
        → Ends (bind_port binds w) (HasFirstPort binds w)
    go none e = rw (e, bind_port) (refl, inr (refl, rw e at (bind_loop-FirstPort binds 20 0 5001)))
    go (some p) e =
        rw (e, bind_port) (refl, inl (p, refl, rw e at (bind_loop-FirstPort binds 20 0 5001)))
