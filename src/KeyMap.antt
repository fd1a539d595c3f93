-- ===== src/KeyMap.antt =====
-- core/src/keyMap.c and core/include/keyMap.h: the table of the phone's keys, and the search in it
-- by a key's name or by its code.
pub mod Lookup
pub mod Names
use Prim.Native.String.{String}
use auto_test_tools.Base.{
  ℕ, zero, suc, ◌+◌, ◌-◌, Bool, ◌||◌, List, [], ◌∷◌, Option, none, some, ◌==◌, if◌then◌else◌,
}
use auto_test_tools.CString.Compare.{Bytes, codes, same}

abbrev pub max_key_num : ℕ
max_key_num = 255

-- `at_key_t`
pub record Key : Type 0 where
  pub key_name : Bytes
  pub key_code : Bytes

abbrev pub key : String → String → Key
key name code = record { key_name = codes name; key_code = codes code }

-- The designated initialisers of `gKeyLib`, by index.
unfoldable pub key_entries : List (ℕ × Key)
key_entries =
    (34, key "s1" "251")
    ∷ (4, key "s2" "252")
    ∷ (44, key "s3" "253")
    ∷ (24, key "s4" "254")
    ∷ (14, key "up" "31")
    ∷ (54, key "dn" "32")
    ∷ (3, key "1" "49")
    ∷ (2, key "2" "50")
    ∷ (41, key "3" "51")
    ∷ (33, key "4" "52")
    ∷ (32, key "5" "53")
    ∷ (31, key "6" "54")
    ∷ (13, key "7" "55")
    ∷ (12, key "8" "56")
    ∷ (1, key "9" "57")
    ∷ (52, key "0" "48")
    ∷ (53, key "*" "10")
    ∷ (51, key "#" "11")
    ∷ (22, key "vd" "47")
    ∷ (42, key "me" "64")
    ∷ (43, key "vu" "46")
    ∷ (11, key "rl" "63")
    ∷ (25, key "he" "61")
    ∷ (15, key "le1" "151")
    ∷ (5, key "le2" "152")
    ∷ (100, key "offhook" "100")
    ∷ (101, key "onhook" "101")
    ∷ []

-- An index that no initialiser names holds two empty strings.
entry_at : List (ℕ × Key) → ℕ → Key
entry_at [] i = key "" ""
entry_at ((j, k) ∷ ks) i = if j == i then k else entry_at ks i

-- `gKeyLib`
unfoldable pub key_lib : ℕ → Key
unfolding entry_at key_entries
key_lib = entry_at key_entries

-- The test of `getKeyCode` at one entry.
unfoldable pub key_matches : Bytes → Key → Bool
unfolding same
key_matches str k = same k.key_name str || same k.key_code str

-- The loop of `getKeyCode` with `rounds` entries left, at `index`.
unfoldable pub find_key : (ℕ → Key) → Bytes → ℕ → ℕ → Option ℕ
find_key lib str zero index = none
find_key lib str (suc rounds) index =
    let later = find_key lib str rounds (index + 1) in
    if key_matches str (lib index) then some index else later

-- `getKeyCode`; `none` stands for FAILED.
unfoldable pub get_key_code : (ℕ → Key) → Bytes → Option ℕ
get_key_code lib str = find_key lib str max_key_num 0
