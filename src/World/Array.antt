-- ===== src/World/Array.antt =====
-- Arrays of C: a function on indices with its size checked at each access.
use auto_test_tools.Base.{ℕ, ◌≡◌, ◌≢◌, Option, none, some, arith, ltb, ◌==◌, if◌then◌else◌}
use auto_test_tools.Base.Int.{ℤ, pos, negsuc}

module _ {ℓ} {A : Type ℓ} where
  abbrev pub update : (ℕ → A) → ℕ → A → ℕ → A
  update a i v j = if i == j then v else a j

  -- `a[i]`
  abbrev pub fetch : ℕ → (ℕ → A) → ℤ → Option A
  fetch size a (pos i) = if ltb i size then some (a i) else none
  fetch size a (negsuc i) = none

  -- `a[i] = v`
  abbrev pub store : ℕ → (ℕ → A) → ℤ → A → Option (ℕ → A)
  store size a (pos i) v = if ltb i size then some (update a i v) else none
  store size a (negsuc i) v = none

  pub update_self : (a : ℕ → A) (i : ℕ) (v : A) → update a i v i ≡ v
  update_self a i v = ground arith

  pub update_ne : (a : ℕ → A) (i j : ℕ) (v : A) → i ≢ j → update a i v j ≡ a j
  update_ne a i j v h = ground arith
