-- ===== src/CmdLib/Lookup.antt =====
-- What the search in the command table finds.
use Prim.Native.String.{String}
use auto_test_tools.Base.{
  ℕ, zero, suc, ◌+◌, ◌≡◌, ◌<◌, refl, true, false, List, [], ◌∷◌, Option, none, some, arith, length,
  get_elem?, Bool-cases, inl, inr, All, All-get_elem?,
}
use auto_test_tools.CString.Compare.{Bytes, codes}
use auto_test_tools.CString.Format.{IsPlain}
use auto_test_tools.CmdLib.{Cmd, Handler, cmd_lib, names, find_cmd, get_cmd_code}

-- No entry before `i` has the text as its name or nickname, and entry `i` has it.
abbrev pub NamedFirst : List Cmd → Bytes → ℕ → Type 0
NamedFirst lib str i =
    (c : Cmd) × (get_elem? lib i ≡ some c)
    × (names str c ≡ true)
    × ((j : ℕ) (e : Cmd) → j < i → get_elem? lib j ≡ some e → names str e ≡ false)

find_cmd-NamedFirst :
    (lib : List Cmd) (str : Bytes) (start i : ℕ)
    → find_cmd lib str start ≡ some i
    → (k : ℕ) × (i ≡ start + k) × NamedFirst lib str k
unfolding find_cmd
find_cmd-NamedFirst [] str start i e = cc
find_cmd-NamedFirst (c ∷ cs) str start i e = elim (Bool-cases (names str c)) [
  | inl n ↦ (zero, ground arith, (c, refl, n, λ j x l. absurd (omega arith)))
  | inr n ↦
      let (k, q, (d, at_k, named, before)) =
        find_cmd-NamedFirst cs str (start + 1) i (ground arith) in
      (suc k, omega arith, (d, at_k, named, first n before))
]
  where
    first :
        {k : ℕ}
        → names str c ≡ false
        → ((j : ℕ) (x : Cmd) → j < k → get_elem? cs j ≡ some x → names str x ≡ false)
        → (j : ℕ) (x : Cmd) → j < suc k
        → get_elem? (c ∷ cs) j ≡ some x
        → names str x ≡ false
    first n before zero x l f = let f' : c ≡ x = cc in rw (← f') n
    first n before (suc j) x l f = before j x (omega arith) f

-- `getCmdCode` returns an index of the table, and the first whose entry has the text as its name
-- or nickname.
pub get_cmd_code-NamedFirst :
    (lib : List Cmd) (str : Bytes) {i : ℕ} → get_cmd_code lib str ≡ some i → NamedFirst lib str i
unfolding get_cmd_code
get_cmd_code-NamedFirst lib str {i} e =
    let (k, q, n) = find_cmd-NamedFirst lib str 0 i e in let q' : i ≡ k = omega arith in rw q' n

abbrev pub handler_of : Option ℕ → Option Handler
handler_of none = none
handler_of (some i) = elim (get_elem? cmd_lib i) [ none ↦ none | some c ↦ some c.func ]

-- The handler that a command's first word selects.
unfoldable pub selects : String → Option Handler
unfolding get_cmd_code names cmd_lib
selects word = handler_of (get_cmd_code cmd_lib (codes word))

words_select :
    (selects "call" ≡ some Handler.call)
    × (selects "s" ≡ some Handler.show_client)
    × (selects "st" ≡ some Handler.start)
    × (selects "syslogLevel" ≡ none)
    × (selects "ssl" ≡ none)
    × (selects "" ≡ none)
    × (selects "loop" ≡ none)
unfolding selects
words_select = (refl, refl, refl, refl, refl, refl, refl)

abbrev IsName : Cmd → Type 0
IsName c = IsPlain c.cmd_name × (length c.cmd_name < 15)

-- The full name of every command is plain text that fits the 15 bytes of a message's code.
pub cmd_lib-IsName : (k : ℕ) {c : Cmd} → get_elem? cmd_lib k ≡ some c → IsName c
cmd_lib-IsName k e = All-get_elem? IsName cmd_lib k e all
  where
    all : All IsName cmd_lib
    all = unfold cmd_lib in omega arith

-- The command's name and its nickname both select its handler.
abbrev IsSelected : Cmd → Type 0
IsSelected c =
    (handler_of (get_cmd_code cmd_lib c.cmd_name) ≡ some c.func)
    × (handler_of (get_cmd_code cmd_lib c.nick_name) ≡ some c.func)

-- Each entry of the table is reached: its name and its nickname both select its handler, also for
-- `call`, which stands in the table twice.
cmd_lib-IsSelected : All IsSelected cmd_lib
unfolding get_cmd_code names cmd_lib
cmd_lib-IsSelected = (
  (refl, refl),
  (
    (refl, refl),
    (
      (refl, refl),
      (
        (refl, refl),
        (
          (refl, refl),
          (
            (refl, refl),
            (
              (refl, refl),
              (
                (refl, refl),
                (
                  (refl, refl),
                  (
                    (refl, refl),
                    (
                      (refl, refl),
                      (
                        (refl, refl),
                        (
                          (refl, refl),
                          (
                            (refl, refl),
                            (
                              (refl, refl),
                              ((refl, refl), ((refl, refl), ((refl, refl), ((refl, refl), tt)))),
                            ),
                          ),
                        ),
                      ),
                    ),
                  ),
                ),
              ),
            ),
          ),
        ),
      ),
    ),
  ),
)
