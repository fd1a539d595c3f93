-- ===== src/CString/Format.antt =====
-- `snprintf`: the bound on what it writes, and a text used as the format itself.
use mathlib.Core.Path.{subst}
use auto_test_tools.Base.{
  ℕ, ◌≡◌, ◌≢◌, refl, Bool-cases, inl, inr, [], ◌∷◌, Option, none, some, arith, ◌==◌, ◌<◌,
  if◌then◌else◌, take, All, ◌-◌,
}
use mathlib.Core.Option
use auto_test_tools.CString.Compare.{Bytes}

-- What `snprintf(buffer, size, "%s", text)` leaves in the buffer.
abbrev pub bounded : ℕ → Bytes → Bytes
bounded size text = take (size - 1) text

-- `printf(text)` with no further argument: `%%` prints one `%`; every other conversion reads an
-- argument that was not passed, which is undefined.
unfoldable pub format : Bytes → Option Bytes
format [] = some []
format (c ∷ []) = if c == b'%' then none else some (c ∷ [])
format (c ∷ d ∷ text) =
    let literal = Option.map (◌∷◌ c) (format (d ∷ text)) in
    let percent = Option.map (◌∷◌ b'%') (format text) in
    if c == b'%' then if d == b'%' then percent else none else literal

-- `snprintf(buffer, size, text)`
unfoldable pub snprintf_format : ℕ → Bytes → Option Bytes
snprintf_format size text = Option.map (bounded size) (format text)

abbrev pub IsPlain : Bytes → Type 0
IsPlain = All (λ c. c ≢ b'%')

abbrev pub IsText : Bytes → Type 0
IsText = All (λ c. 0 < c)

-- A text with no `%` is printed as it stands.
pub format_plain : (s : Bytes) → IsPlain s → format s ≡ some s
unfolding format
format_plain [] h = refl
format_plain (c ∷ []) h = ground arith
format_plain (c ∷ d ∷ s) h = ground (arith, format_plain (d ∷ s) h.1)

pub snprintf_format_plain :
    (size : ℕ) (s : Bytes) → IsPlain s → snprintf_format size s ≡ some (bounded size s)
unfolding snprintf_format
snprintf_format_plain size s h = ground (arith, format_plain s h)

pub map-eq-some {ℓ κ} :
    {A : Type ℓ} {B : Type κ} (f : A → B) (o : Option A) {y : B}
    → Option.map f o ≡ some y
    → (x : A) × (o ≡ some x) × (f x ≡ y)
map-eq-some f none e = cc
map-eq-some f (some x) e = (x, refl, cc)

-- A formatted text holds no NUL if the format holds none.
pub format-IsText : (s : Bytes) {t : Bytes} → format s ≡ some t → IsText s → IsText t
unfolding format
format-IsText [] e h = ground arith
format-IsText (c ∷ []) {t} e h = elim (Bool-cases (c == b'%')) [
  | inl p ↦ cc (rw p at e)
  | inr p ↦
      let e' : some (c ∷ []) ≡ some t = rw p at e in let e'' : c ∷ [] ≡ t = cc in subst IsText e'' h
]
format-IsText (c ∷ d ∷ s) {t} e h = elim (Bool-cases (c == b'%')) [
  | inl p ↦ elim (Bool-cases (d == b'%')) [
    | inl q ↦
        let (u, f, g) = map-eq-some (◌∷◌ b'%') (format s) (rw (p, q) at e) in
        rw (← g) (omega arith, format-IsText s f h.1.1)
    | inr q ↦ cc (rw (p, q) at e)
  ]
  | inr p ↦
      let (u, f, g) = map-eq-some (◌∷◌ c) (format (d ∷ s)) (rw p at e) in
      rw (← g) (h.0, format-IsText (d ∷ s) f h.1)
]
