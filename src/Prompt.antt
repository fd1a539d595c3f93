-- ===== src/Prompt.antt =====
-- core/src/autoTest.c: `main`, over the lines that `readline` gives.
pub mod Lines
use auto_test_tools.Base.{
  ℕ, Bool, true, false, List, [], ◌∷◌, ◌++◌, Option, none, some, length, ◌==◌, if◌then◌else◌,
}
use auto_test_tools.CString.Compare.{Bytes, codes, starts_with}
use auto_test_tools.CString.Format.{bounded}
use auto_test_tools.World.Monad.{M, ◌>>=◌, ◌>>◌, pure, modify, say, defined}

-- How the program was left, by `exit(0)` or at the end of the input, and the lines that `add_history`
-- was given.
pub record Session : Type 0 where
  pub exited : Bool
  pub history : List Bytes

-- `!strncmp(input,"quit",strlen("quit"))`
unfoldable pub is_quit : Bytes → Bool
is_quit input = starts_with (codes "quit") input

-- `snprintf(shell_prompt, sizeof(shell_prompt), "%s:%s $ ", getenv("USER"), getcwd(NULL, 1024))`; to
-- print a NULL is undefined.
unfoldable pub shell_prompt : Option Bytes → Option Bytes → Option Bytes
shell_prompt none cwd = none
shell_prompt (some user) none = none
shell_prompt (some user) (some cwd) = some (bounded 100 (user ++ codes ":" ++ cwd ++ codes " $ "))

-- What `getenv("USER")` and `getcwd` give, and the lines that `readline` gives at a prompt.
pub record Terminal : Type 0 where
  pub user : Option Bytes
  pub cwd : Option Bytes
  pub readline : Bytes → List Bytes

module _ (exec : Bytes → M (Unit {0})) where
  -- The `while(1)` of `main`, over `exec` for `cmd_proc`; behind the last line `readline` gives NULL.
  unfoldable pub main_loop : List Bytes → M Session
  main_loop [] = pure (record { exited = false; history = [] })
  main_loop (input ∷ inputs) =
      let rest = main_loop inputs in
      if length input == 0 then rest else do
        exec input
        if is_quit input then pure (record { exited = true; history = input ∷ [] }) else do
          session ← rest
          pure (record { exited = session.exited; history = input ∷ session.history })

  -- `main`, which also seeds `rand` and sets up the completion of words; neither is in the state.
  unfoldable pub main : Terminal → M Session
  main t = do
    modify (λ w. record w { mutex = false })
    say "input h/help  for help\n" []
    prompt ← defined (shell_prompt t.user t.cwd)
    main_loop (t.readline prompt)
