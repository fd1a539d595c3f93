-- ===== src/Prompt/Lines.antt =====
-- core/src/autoTest.c: which lines `main` hands to `cmd_proc`.
use auto_test_tools.Base.{
  ◌≡◌, refl, Bool, true, false, ◌||◌, arith, List, [], ◌∷◌, ◌++◌, Option, none, some, length, ◌==◌,
  if◌then◌else◌, Bool-cases, inl, inr, Option-cases,
}
use auto_test_tools.CString.Compare.{Bytes, codes, starts_with}
use auto_test_tools.CString.Format.{bounded}
use auto_test_tools.Prompt.{Session, Terminal, is_quit, main_loop, main, shell_prompt}
use auto_test_tools.Script.Loops.{exec_all}
use auto_test_tools.World.Monad.{M, Void, ◌>>=◌, ◌>>◌, pure}
use auto_test_tools.World.State.{World, printed}

-- The lines that are not empty, up to the first that begins with `quit`, and whether there is one.
abbrev pub obeyed : List Bytes → List Bytes
obeyed [] = []
obeyed (input ∷ inputs) =
    let rest = obeyed inputs in
    if length input == 0 then rest else if is_quit input then input ∷ [] else input ∷ rest

abbrev pub leaves : List Bytes → Bool
leaves [] = false
leaves (input ∷ inputs) = is_quit input || leaves inputs

is_quit-empty : (input : Bytes) → (length input == 0) ≡ true → is_quit input ≡ false
unfolding is_quit starts_with
is_quit-empty [] e = refl
is_quit-empty (c ∷ input) e = ground arith

module _ (exec : Bytes → M (Unit {0})) where
  -- Behind the line that ends the loop, and behind another line.
  quits :
      (input : Bytes) (o : Option (Void × World))
      → (elim o as (λ _. Option (Session × World)) [
        | none ↦ none
        | some (_, w) ↦ some (record { exited = true; history = input ∷ [] }, w)
      ])
        ≡ (elim (elim o as (λ _. Option (Void × World)) [
          | none ↦ none
          | some (_, w) ↦ some (tt, w)
        ])
            as (λ _. Option (Session × World)) [
              | none ↦ none
              | some (_, w) ↦ some (record { exited = true; history = input ∷ [] }, w)
            ])
  quits input none = refl
  quits input (some (_, w)) = refl

  collected :
      (input : Bytes) (session : Session) (o : Option (Void × World))
      → (elim (elim o as (λ _. Option (Session × World)) [
        | none ↦ none
        | some (_, w) ↦ some (session, w)
      ])
          as (λ _. Option (Session × World)) [
            | none ↦ none
            | some (s, w) ↦ some (record { exited = s.exited; history = input ∷ s.history }, w)
          ])
        ≡ (elim o as (λ _. Option (Session × World)) [
          | none ↦ none
          | some (_, w) ↦
              some (record { exited = session.exited; history = input ∷ session.history }, w)
        ])
  collected input session none = refl
  collected input session (some (_, w)) = refl

  -- The loop of `main` runs the lines that are not empty, in order, up to the first one that begins
  -- with `quit`, which it runs too, and nothing else; these lines are what the history holds. It is
  -- left by `exit(0)` exactly if a line begins with `quit`, whatever command that line is, and
  -- otherwise at the end of the input.
  pub main_loop-obeys :
      (inputs : List Bytes) (w : World)
      → main_loop exec inputs w
        ≡ (exec_all exec (obeyed inputs)
              >> pure (record { exited = leaves inputs; history = obeyed inputs }))
            w
  unfolding main_loop exec_all
  main_loop-obeys [] w = refl
  main_loop-obeys (input ∷ inputs) w = elim (Bool-cases (length input == 0)) [
    | inl empty ↦ rw empty (rw (is_quit-empty input empty) (main_loop-obeys inputs w))
    | inr line ↦ elim (Bool-cases (is_quit input)) [
      | inl q ↦ rw line (rw q (quits input (exec input w)))
      | inr n ↦ rw line (
          rw n (elim (Option-cases (exec input w)) [
            | inl e ↦ rw (e, ◌>>=◌) refl
            | inr (x, e) ↦
                rw (e, ◌>>=◌)
                  (rw (main_loop-obeys inputs x.1, if◌then◌else◌, ◌>>=◌)
                    (collected input _ (exec_all exec (obeyed inputs) x.1)))
          ]))
    ]
  ]

  -- With a user and a working directory `main` frees the lock, prints its greeting, and reads lines at the
  -- prompt that names the two, cut to 99 bytes. Of these it runs those that are not empty, in order, up to
  -- the first one that begins with `quit`, which it runs too, and nothing else; these lines are what the
  -- history holds. It is left by `exit(0)` exactly if a line begins with `quit`.
  pub main-obeys :
      (t : Terminal) (user cwd : Bytes) (w : World)
      → t.user ≡ some user
      → t.cwd ≡ some cwd
      → let inputs = t.readline (bounded 100 (user ++ codes ":" ++ cwd ++ codes " $ ")) in
        main exec t w
        ≡ (exec_all exec (obeyed inputs)
              >> pure (record { exited = leaves inputs; history = obeyed inputs }))
            (record w { mutex = false; events = printed "input h/help  for help\n" [] ∷ w.events })
  unfolding main shell_prompt
  main-obeys t user cwd w u c = rw u (rw c (main_loop-obeys _ _))
