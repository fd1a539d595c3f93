-- ===== src/World/Monad.antt =====
-- Computations on the state that may be undefined.
use Prim.Native.String.{String}
use auto_test_tools.Base.{ℕ, zero, suc, true, false, List, ◌∷◌, Option, none, some, ◌+◌, ◌≡◌, refl}
use auto_test_tools.World.State.{World, Arg, Event, printed, Net}

abbrev pub M : Type 0 → Type 0
M A = World → Option (A × World)

abbrev pub Void : Type 0
Void = Unit {0}

module _ {A : Type 0} where
  abbrev pub pure : A → M A
  pure a w = some (a, w)

  -- An undefined result makes the whole run undefined.
  abbrev pub defined : Option A → M A
  defined none w = none
  defined (some a) w = some (a, w)

  abbrev pub gets : (World → A) → M A
  gets f w = some (f w, w)

abbrev pub modify : (World → World) → M Void
modify f w = some (tt, f w)

infixl 5 ◌>>=◌ ◌>>◌
abbrev pub ◌>>=◌ : {A B : Type 0} → M A → (A → M B) → M B
◌>>=◌ m f w = elim (m w) [ none ↦ none | some (a, w') ↦ f a w' ]

abbrev pub ◌>>◌ : {A B : Type 0} → M A → M B → M B
m >> k = m >>= λ _. k

abbrev pub skip : M Void
skip = pure tt

abbrev pub emit : Event → M Void
emit e = modify (λ w. record w { events = e ∷ w.events })

-- `printf`
abbrev pub say : String → List Arg → M Void
say format args = emit (printed format args)

-- One system call whose answer depends on the time.
abbrev pub ask : {A : Type 0} → (ℕ → A) → M A
ask answer w = some (answer w.calls, record w { calls = w.calls + 1 })

-- `for (i = from; rounds > 0; i++, rounds--) body(i)`
unfoldable pub for_each : ℕ → ℕ → (ℕ → M Void) → M Void
for_each zero from body w = some (tt, w)
for_each (suc rounds) from body w = elim (body from w) [
  | none ↦ none
  | some (_, w') ↦ for_each rounds (from + 1) body w'
]

-- `pthread_mutex_lock(&gMutex)`: to take the lock that the thread holds never returns.
abbrev pub lock : M Void
lock w = elim w.mutex [ true ↦ none | false ↦ some (tt, record w { mutex = true }) ]

-- `pthread_mutex_unlock(&gMutex)`
abbrev pub unlock : M Void
unlock = modify (λ w. record w { mutex = false })

abbrev pub set_net : Net → M Void
set_net n = modify (λ w. record w { net = n })

-- Inversion of a sequence, for proofs where its parts stay shut.
pub >>=-eq-some :
    {A B : Type 0} (m : M A) (f : A → M B) (w : World) {r : B × World}
    → (m >>= f) w ≡ some r
    → (a : A) × (w' : World) × (m w ≡ some (a, w')) × (f a w' ≡ some r)
>>=-eq-some {A} {B} m f w {r} h = go (m w) refl
  where
    go :
        (o : Option (A × World))
        → m w ≡ o
        → (a : A) × (w' : World) × (m w ≡ some (a, w')) × (f a w' ≡ some r)
    go none e = cc (rw (e, ◌>>=◌) at h)
    go (some (a, w')) e = (a, w', e, rw (e, ◌>>=◌) at h)

-- The run is defined, and its final state is as stated.
abbrev pub Ends : {A : Type 0} → Option (A × World) → (World → Type 0) → Type 0
Ends none P = ⊥
Ends (some (_, w)) P = P w

-- Both parts of a run: the value and the final state.
abbrev pub Returns : {A : Type 0} → Option (A × World) → (A → World → Type 0) → Type 0
Returns none P = ⊥
Returns (some (a, w)) P = P a w

-- A run that returns has a result and a final state.
pub Returns-some :
    {A : Type 0} (P : A → World → Type 0) (o : Option (A × World))
    → Returns o P
    → (a : A) × (w : World) × (o ≡ some (a, w)) × P a w
Returns-some P none h = absurd h
Returns-some P (some (a, w)) h = (a, w, refl, h)

pub Ends-map :
    {A : Type 0} {P Q : World → Type 0} (o : Option (A × World))
    → ((w : World) → P w → Q w)
    → Ends o P
    → Ends o Q
Ends-map none f h = h
Ends-map (some (_, w)) f h = f w h

pub Ends-some :
    {A : Type 0} (P : World → Type 0) (o : Option (A × World))
    → Ends o P
    → (a : A) × (w : World) × (o ≡ some (a, w)) × P w
Ends-some P none h = absurd h
Ends-some P (some (a, w)) h = (a, w, refl, h)
