-- ===== src/World/Keeps.antt =====
-- Invariants of computations on the state, one rule for each way to build one.
use auto_test_tools.Base.{
  List, ◌∷◌, ℕ, zero, suc, ◌≡◌, refl, ◌+◌, Bool, true, false, if◌then◌else◌, Option, none, some,
}
use auto_test_tools.World.Monad.{
  M, Void, ◌>>=◌, pure, defined, gets, modify, emit, ask, for_each, Ends,
}
use auto_test_tools.World.State.{World, Event, Params, Threads}
use auto_test_tools.Base.Int.{ℤ, pos, negsuc}

-- If the run is defined, its final state satisfies `P`.
abbrev pub Leaves : {A : Type 0} → (World → Type 0) → Option (A × World) → Type 0
Leaves P none = Unit
Leaves P (some (_, w)) = P w

-- `m` keeps `P` whenever it is defined.
pub record Keeps {A : Type 0} (P : World → Type 0) (m : M A) : Type 0 where
  pub at : (w : World) → P w → Leaves P (m w)

Leaves-defined :
    {A : Type 0} (P : World → Type 0) (o : Option A) (w : World) → P w → Leaves P (defined o w)
Leaves-defined P none w h = tt
Leaves-defined P (some a) w h = h

pub Leaves-if :
    {A : Type 0} (P : World → Type 0) (b : Bool) (x y : Option (A × World))
    → Leaves P x
    → Leaves P y
    → Leaves P (if b then x else y)
Leaves-if P true x y hx hy = hx
Leaves-if P false x y hx hy = hy

pub Leaves-elim-Bool :
    {A : Type 0} (P : World → Type 0) (b : Bool) (x y : Option (A × World))
    → Leaves P x
    → Leaves P y
    → Leaves P (elim b as (λ _. Option (A × World)) [ true ↦ x | false ↦ y ])
Leaves-elim-Bool P true x y hx hy = hx
Leaves-elim-Bool P false x y hx hy = hy

module _ {A : Type 0} {P : World → Type 0} where
  pub Keeps-pure : (a : A) → Keeps P (pure a)
  Keeps-pure a = record { at = λ w h. h }

  pub Keeps-gets : (f : World → A) → Keeps P (gets f)
  Keeps-gets f = record { at = λ w h. h }

  pub Keeps-if : (b : Bool) (m n : M A) → Keeps P m → Keeps P n → Keeps P (if b then m else n)
  Keeps-if true m n km kn = km
  Keeps-if false m n km kn = kn

  -- A value that is read from the state.
  pub Keeps-reads : (o : World → Option A) → Keeps P (λ w. defined (o w) w)
  Keeps-reads o = record { at = λ w h. Leaves-defined P (o w) w h }

  pub Keeps-defined : (o : Option A) → Keeps P (defined o)
  Keeps-defined o = record { at = λ w h. Leaves-defined P o w h }

module _ {A B : Type 0} {P : World → Type 0} where
  pub Leaves-bind :
      (o : Option (A × World)) (f : A → M B)
      → Leaves P o
      → ((a : A) → Keeps P (f a))
      → Leaves P (elim o as (λ _. Option (B × World)) [ none ↦ none | some (a, w) ↦ f a w ])
  Leaves-bind none f h k = tt
  Leaves-bind (some (a, w)) f h k = (k a).at w h

  pub Keeps-bind :
      (m : M A) (f : A → M B) → Keeps P m → ((a : A) → Keeps P (f a)) → Keeps P (m >>= f)
  Keeps-bind m f km kf = record { at = λ w h. Leaves-bind (m w) f (km.at w h) kf }

  -- The rest may use where its value comes from.
  pub Keeps-bind-defined :
      (o : Option A) (f : A → M B)
      → ((a : A) → o ≡ some a → Keeps P (f a))
      → Keeps P (defined o >>= f)
  Keeps-bind-defined none f k = record { at = λ w h. tt }
  Keeps-bind-defined (some a) f k = record { at = λ w h. (k a refl).at w h }

  pub Keeps-elim :
      (o : Option A) (m : M B) (f : A → M B)
      → Keeps P m
      → ((a : A) → Keeps P (f a))
      → Keeps P (elim o as (λ _. M B) [ none ↦ m | some a ↦ f a ])
  Keeps-elim none m f km kf = km
  Keeps-elim (some a) m f km kf = kf a

module _ {A : Type 0} {P : World → Type 0} where
  pub Keeps-elim-ℤ :
      (z : ℤ) (f g : ℕ → M A)
      → ((k : ℕ) → Keeps P (f k))
      → ((k : ℕ) → Keeps P (g k))
      → Keeps P (elim z as (λ _. M A) [ pos k ↦ f k | negsuc k ↦ g k ])
  Keeps-elim-ℤ (pos k) f g kf kg = kf k
  Keeps-elim-ℤ (negsuc k) f g kf kg = kg k

  pub Keeps-elim-Bool :
      (b : Bool) (m n : M A)
      → Keeps P m
      → Keeps P n
      → Keeps P (elim b as (λ _. M A) [ true ↦ m | false ↦ n ])
  Keeps-elim-Bool true m n km kn = km
  Keeps-elim-Bool false m n km kn = kn

pub Keeps-modify :
    {P : World → Type 0} (f : World → World) → ((w : World) → P w → P (f w)) → Keeps P (modify f)
Keeps-modify f k = record { at = k }

Leaves-for_each :
    {P : World → Type 0} (body : ℕ → M Void)
    → ((i : ℕ) → Keeps P (body i))
    → (rounds from : ℕ) (w : World) → P w
    → Leaves P (for_each rounds from body w)
unfolding for_each
Leaves-for_each body k zero from w h = h
Leaves-for_each {P} body k (suc rounds) from w h =
    Leaves-bind (body from w) (λ _. for_each rounds (from + 1) body) ((k from).at w h)
      (λ _. record { at = Leaves-for_each body k rounds (from + 1) })

pub Keeps-for_each :
    {P : World → Type 0} (rounds from : ℕ) (body : ℕ → M Void)
    → ((i : ℕ) → Keeps P (body i))
    → Keeps P (for_each rounds from body)
Keeps-for_each rounds from body k = record { at = Leaves-for_each body k rounds from }

pub ruleset keeps_rules =
    (Keeps-pure, Keeps-gets, Keeps-if, Keeps-defined, Keeps-bind, Keeps-elim, Keeps-for_each)

-- `P` does not look at the parameters, the threads, the log and the numbers of the system, and it
-- says that the lock is free.
pub record Frame (P : World → Type 0) : Type 0 where
  pub free : (w : World) → P w → w.mutex ≡ false
  pub at_events : (w : World) (events : List Event) → P w → P (record w { events = events })
  pub at_calls : (w : World) (calls : ℕ) → P w → P (record w { calls = calls })
  pub at_params : (w : World) (params : Params) → P w → P (record w { params = params })
  pub at_threads : (w : World) (threads : Threads) → P w → P (record w { threads = threads })
  pub at_msg_id : (w : World) (id : ℤ) → P w → P (record w { msg_id = id })
  pub at_syslog_port : (w : World) (port : ℤ) → P w → P (record w { syslog_port = port })

module _ {P : World → Type 0} (frame : Frame P) where
  pub Keeps-emit : (e : Event) → Keeps P (emit e)
  Keeps-emit e = record { at = λ w h. frame.at_events w (e ∷ w.events) h }

  pub Keeps-ask : {A : Type 0} (answer : ℕ → A) → Keeps P (ask answer)
  Keeps-ask answer = record { at = λ w h. frame.at_calls w (w.calls + 1) h }

-- From a run that is described in full.
pub Leaves-Ends :
    {A : Type 0} {P Q : World → Type 0} (o : Option (A × World))
    → ((w : World) → Q w → P w)
    → Ends o Q
    → Leaves P o
Leaves-Ends none k h = tt
Leaves-Ends (some (a, w)) k h = k w h
