-- ===== src/World/Gives.antt =====
-- Computations that keep an invariant and return a value of a certain kind.
use auto_test_tools.Base.{ℕ, Bool, true, false, if◌then◌else◌, ◌≡◌, refl, Option, none, some}
use auto_test_tools.Base.Int.{ℤ, pos, negsuc}
use auto_test_tools.World.Keeps.{Leaves, Keeps}
use auto_test_tools.World.Monad.{M, ◌>>=◌, pure, defined}
use auto_test_tools.World.State.{World}

-- If the run is defined, its final state satisfies `P` and its value satisfies `Q`.
abbrev pub Hands : {A : Type 0} → (A → Type 0) → (World → Type 0) → Option (A × World) → Type 0
Hands Q P none = Unit
Hands Q P (some (a, w)) = Q a × P w

-- `m` keeps `P`, and a value that it returns satisfies `Q`.
pub record Gives {A : Type 0} (P : World → Type 0) (Q : A → Type 0) (m : M A) : Type 0 where
  pub at : (w : World) → P w → Hands Q P (m w)

module _ {A B : Type 0} {P : World → Type 0} {Q : A → Type 0} where
  Leaves-bind-Gives :
      (o : Option (A × World)) (f : A → M B)
      → Hands Q P o
      → ((a : A) → Q a → Keeps P (f a))
      → Leaves P (elim o as (λ _. Option (B × World)) [ none ↦ none | some (a, w) ↦ f a w ])
  Leaves-bind-Gives none f h k = tt
  Leaves-bind-Gives (some (a, w)) f h k = (k a h.0).at w h.1

  pub Keeps-bind-Gives :
      (m : M A) (f : A → M B) → Gives P Q m → ((a : A) → Q a → Keeps P (f a)) → Keeps P (m >>= f)
  Keeps-bind-Gives m f g k = record { at = λ w h. Leaves-bind-Gives (m w) f (g.at w h) k }

  Hands-bind :
      {R : B → Type 0} (o : Option (A × World)) (f : A → M B)
      → Hands Q P o
      → ((a : A) → Q a → Gives P R (f a))
      → Hands R P (elim o as (λ _. Option (B × World)) [ none ↦ none | some (a, w) ↦ f a w ])
  Hands-bind none f h k = tt
  Hands-bind (some (a, w)) f h k = (k a h.0).at w h.1

  pub Gives-bind :
      {R : B → Type 0} (m : M A) (f : A → M B)
      → Gives P Q m
      → ((a : A) → Q a → Gives P R (f a))
      → Gives P R (m >>= f)
  Gives-bind m f g k = record { at = λ w h. Hands-bind (m w) f (g.at w h) k }

Hands-any :
    {A : Type 0} (P : World → Type 0) (o : Option (A × World)) → Leaves P o → Hands (λ _. Unit) P o
Hands-any P none h = tt
Hands-any P (some (a, w)) h = (tt, h)

pub Gives-any : {A : Type 0} {P : World → Type 0} (m : M A) → Keeps P m → Gives P (λ _. Unit) m
Gives-any {P} m k = record { at = λ w h. Hands-any P (m w) (k.at w h) }

Hands-defined :
    {A : Type 0} (P : World → Type 0) (Q : A → Type 0) (o : Option A) (w : World)
    → ((a : A) → o ≡ some a → Q a)
    → P w
    → Hands Q P (defined o w)
Hands-defined P Q none w q h = tt
Hands-defined P Q (some a) w q h = (q a refl, h)

pub Gives-defined :
    {A : Type 0} {P : World → Type 0} (Q : A → Type 0) (o : Option A)
    → ((a : A) → o ≡ some a → Q a)
    → Gives P Q (defined o)
Gives-defined {P} Q o q = record { at = λ w h. Hands-defined P Q o w q h }

pub Gives-elim :
    {A B : Type 0} {P : World → Type 0} {Q : B → Type 0} (o : Option A) (m : M B) (f : A → M B)
    → Gives P Q m
    → ((a : A) → Gives P Q (f a))
    → Gives P Q (elim o as (λ _. M B) [ none ↦ m | some a ↦ f a ])
Gives-elim none m f gm gf = gm
Gives-elim (some a) m f gm gf = gf a

pub Gives-pure :
    {A : Type 0} {P : World → Type 0} (Q : A → Type 0) (a : A) → Q a → Gives P Q (pure a)
Gives-pure Q a q = record { at = λ w h. (q, h) }

Hands-weaken :
    {A : Type 0} (P : World → Type 0) {Q R : A → Type 0} (o : Option (A × World))
    → ((a : A) → Q a → R a)
    → Hands Q P o
    → Hands R P o
Hands-weaken P none k h = tt
Hands-weaken P (some (a, w)) k h = (k a h.0, h.1)

pub Gives-weaken :
    {A : Type 0} {P : World → Type 0} {Q R : A → Type 0} (m : M A)
    → ((a : A) → Q a → R a)
    → Gives P Q m
    → Gives P R m
Gives-weaken {P} m k g = record { at = λ w h. Hands-weaken P (m w) k (g.at w h) }

module _ {A : Type 0} {P : World → Type 0} {Q : A → Type 0} where
  pub Gives-elim-ℤ :
      (z : ℤ) (f g : ℕ → M A)
      → ((k : ℕ) → Gives P Q (f k))
      → ((k : ℕ) → Gives P Q (g k))
      → Gives P Q (elim z as (λ _. M A) [ pos k ↦ f k | negsuc k ↦ g k ])
  Gives-elim-ℤ (pos k) f g gf gg = gf k
  Gives-elim-ℤ (negsuc k) f g gf gg = gg k

  pub Gives-if : (b : Bool) (m n : M A) → Gives P Q m → Gives P Q n → Gives P Q (if b then m else n)
  Gives-if true m n gm gn = gm
  Gives-if false m n gm gn = gn

Hands-at :
    {A : Type 0} (P : World → Type 0) (Q : A → Type 0) (o : Option (A × World)) {a : A} {w : World}
    → Hands Q P o
    → o ≡ some (a, w)
    → Q a
Hands-at P Q none h e = cc
Hands-at P Q (some (b, v)) {a} h e = let same : b ≡ a = cc in rw (← same) h.0

-- What a value that was returned satisfies.
pub Gives-at :
    {A : Type 0} {P : World → Type 0} {Q : A → Type 0} (m : M A) (w : World) {a : A} {w' : World}
    → Gives P Q m
    → P w
    → m w ≡ some (a, w')
    → Q a
Gives-at {P} {Q} m w g p e = Hands-at P Q (m w) (g.at w p) e

Leaves-any : {A : Type 0} (o : Option (A × World)) → Leaves (λ _. Unit) o
Leaves-any none = tt
Leaves-any (some (a, w)) = tt

-- A computation of which nothing is asked.
pub Gives-all : {A : Type 0} (m : M A) → Gives (λ _. Unit) (λ _. Unit) m
Gives-all m = Gives-any m (record { at = λ w h. Leaves-any (m w) })
