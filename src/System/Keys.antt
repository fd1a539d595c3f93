-- ===== src/System/Keys.antt =====
-- The key codes that `ioevt` collects fit the arrays of a message.
use auto_test_tools.Base.{
  ℕ, zero, suc, ◌+◌, ◌-◌, ◌≡◌, ◌≤◌, ◌<◌, refl, List, [], ◌∷◌, Option, none, some, arith, All, leb,
  length, if◌then◌else◌, Bool-cases, inl, inr,
}
use mathlib.Core.Option
use auto_test_tools.CString.Compare.{Bytes}
use auto_test_tools.CString.Format.{bounded, snprintf_format}
use auto_test_tools.Commands.Framed.{Keeps-get_tokens, Keeps-pointed}
use auto_test_tools.Commands.Queue.{pointed, key_loop, read_keys, max_ioevt, max_key_length}
use auto_test_tools.KeyMap.{get_key_code, key_lib}
use auto_test_tools.Params.{store_tokens}
use auto_test_tools.System.Invariant.{Closed, bounded-short}
use auto_test_tools.World.Gives.{Gives, Gives-bind, Gives-any, Gives-elim, Gives-pure, Gives-weaken}
use auto_test_tools.World.Keeps.{Frame, Keeps-defined, Keeps-emit}
use auto_test_tools.World.Monad.{pure}
use auto_test_tools.World.State.{World, Os}

-- Up to ten key codes that fit.
abbrev pub IsKeys : Option (List Bytes) → Type 0
IsKeys none = Unit
IsKeys (some ks) = (length ks ≤ max_ioevt) × All (λ key. length key < max_key_length) ks

abbrev IsKeysOf : ℕ → Option (List Bytes) → Type 0
IsKeysOf n none = Unit
IsKeysOf n (some ks) = (length ks ≡ n) × All (λ key. length key < max_key_length) ks

IsKeysOf-suc :
    (n : ℕ) (key : Bytes) (o : Option (List Bytes))
    → IsKeysOf n o
    → IsKeysOf (suc n) (Option.map (◌∷◌ (bounded max_key_length key)) o)
IsKeysOf-suc n key none h = tt
IsKeysOf-suc n key (some ks) h =
    (omega (arith, h.0), (bounded-short max_key_length key (omega arith), h.1))

IsKeysOf-IsKeys : (n : ℕ) (o : Option (List Bytes)) → n ≤ 10 → IsKeysOf n o → IsKeys o
IsKeysOf-IsKeys n none l h = tt
IsKeysOf-IsKeys n (some ks) l h = (omega (arith, h.0), h.1)

module _ (os : Os) {P : World → Type 0} (closed : Closed os P) where
  abbrev frame : Frame P
  frame = closed.frame

  Gives-key_loop :
      (ptrs : ℕ → Option ℕ) (rounds index : ℕ)
      → Gives P (IsKeysOf rounds) (key_loop ptrs rounds index)
  unfolding key_loop
  Gives-key_loop ptrs zero index = Gives-pure (IsKeysOf zero) (some []) (refl, tt)
  Gives-key_loop ptrs (suc rounds) index =
      Gives-bind (pointed (ptrs index)) _ (Gives-any _ (Keeps-pointed frame (ptrs index)))
        (λ word _.
          Gives-elim (get_key_code key_lib word) _ _
            (Gives-bind _ _ (Gives-any _ (Keeps-emit frame _))
              (λ _ _. Gives-pure (IsKeysOf (suc rounds)) none tt))
            (λ k.
              Gives-bind (key_loop ptrs rounds (index + 1)) _
                (Gives-key_loop ptrs rounds (index + 1))
                (λ more h.
                  Gives-pure (IsKeysOf (suc rounds)) _
                    (IsKeysOf-suc rounds (key_lib k).key_code more h))))

  Gives-some-IsKeys :
      (ptrs : ℕ → Option ℕ) (n : ℕ)
      → Gives P IsKeys (if leb 10 (n - 1) then pure none else key_loop ptrs n 0)
  Gives-some-IsKeys ptrs n = elim (Bool-cases (leb 10 (n - 1))) [
    | inl many ↦ rw many (Gives-pure IsKeys none tt)
    | inr few ↦
        let small : n ≤ 10 = ground arith in
        rw few (Gives-weaken _ (λ o. IsKeysOf-IsKeys n o small) (Gives-key_loop ptrs n 0))
  ]

  pub Gives-read_keys : (arg : Bytes) → Gives P IsKeys (read_keys arg)
  unfolding read_keys
  Gives-read_keys arg =
      Gives-bind _ _ (Gives-any _ (Keeps-defined (snprintf_format 20 arg))) (λ key_codes _.
        Gives-bind _ _ (Gives-any _ (Keeps-get_tokens frame key_codes b',')) (λ ts _.
          Gives-bind _ _ (Gives-any _ (Keeps-defined (store_tokens max_ioevt 0 ts (λ _. none))))
            (λ ptrs _. Gives-some-IsKeys ptrs (length ts))))
