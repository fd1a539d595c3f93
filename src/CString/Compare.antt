-- ===== src/CString/Compare.antt =====
-- `strcmp`, `strncmp` and `strstr`, as far as the program looks at their results.
use Prim.Native.Char.{code}
use Prim.Native.String.{String}
use auto_test_tools.Base.{
  ℕ, ◌≡◌, ◌↔◌, refl, Bool, true, false, ◌&&◌, List, [], ◌∷◌, ◌++◌, Option, none, some, arith, ◌==◌,
  if◌then◌else◌,
}

abbrev pub Bytes : Type 0
Bytes = List ℕ

-- The bytes of a text literal of the program, all of them ASCII.
abbrev pub codes : String → Bytes
codes String.[] = []
codes (String.◌∷◌ c s) = code c ∷ codes s

-- `strcmp(a, b) == 0`
unfoldable pub same : Bytes → Bytes → Bool
same [] [] = true
same (x ∷ a) (y ∷ b) = x == y && same a b
same _ _ = false

-- `strncmp(text, prefix, strlen(prefix)) == 0`
unfoldable pub starts_with : Bytes → Bytes → Bool
starts_with [] text = true
starts_with (p ∷ prefix) [] = false
starts_with (p ∷ prefix) (c ∷ text) = p == c && starts_with prefix text

-- `strstr(text, needle)`: the text from the first occurrence on.
unfoldable pub strstr : Bytes → Bytes → Option Bytes
unfolding starts_with
strstr needle [] = if starts_with needle [] then some [] else none
strstr needle (c ∷ text) =
    if starts_with needle (c ∷ text) then some (c ∷ text) else strstr needle text

pub same_iff : (a b : Bytes) → (same a b ≡ true) ↔ (a ≡ b)
unfolding same
same_iff (x ∷ a) (y ∷ b) = ground (arith, same_iff a b)
same_iff _ _ = ground arith

pub same_refl : (a : Bytes) → same a a ≡ true
same_refl a = (same_iff a a).1 refl

pub starts_with-append : (p r : Bytes) → starts_with p (p ++ r) ≡ true
unfolding starts_with
starts_with-append [] r = refl
starts_with-append (c ∷ p) r = ground (arith, starts_with-append p r)

pub starts_with→append : (p t : Bytes) → starts_with p t ≡ true → (r : Bytes) × (t ≡ p ++ r)
unfolding starts_with
starts_with→append [] t h = (t, refl)
starts_with→append (c ∷ p) [] h = cc
starts_with→append (c ∷ p) (x ∷ t) h =
    let (r, e) = starts_with→append p t (ground arith) in (r, ground arith)
