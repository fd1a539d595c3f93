-- ===== src/Commands/Dispatch/Config.antt =====
-- core/src/at_cmdProc.c: `autoConfig` runs the commands that `cpScriptContentToArray` finds in a file.
use auto_test_tools.Base.{
  ℕ, ◌≡◌, refl, true, false, List, [], ◌∷◌, none, some, Bool-cases, Option-cases, inl, inr, ◌⊎◌,
  All,
}
use auto_test_tools.Base.Int.{pos, eqb_ℤ}
use auto_test_tools.CString.Compare.{Bytes}
use auto_test_tools.CString.Format.{bounded, IsPlain, snprintf_format_plain}
use auto_test_tools.CString.Tokens.{c_string}
use auto_test_tools.Commands.Dispatch.{config_lines, auto_config}
use auto_test_tools.Params.{param}
use auto_test_tools.Script.Load.{commands, line_command, skipped, before_semicolon, file_lines}
use auto_test_tools.Script.Loops.{exec_all}
use auto_test_tools.World.Monad.{M, Void, ◌>>=◌}
use auto_test_tools.World.State.{World, Os, max_file_name}

-- A comment, an empty line, or a line with a semicolon.
abbrev pub IsGood : Bytes → Type 0
IsGood line =
    (skipped (c_string line) ≡ true)
    ⊎ ((command : Bytes) × (before_semicolon (c_string line) ≡ some command))

line_command-skipped : (line : Bytes) → skipped (c_string line) ≡ true → line_command line ≡ none
unfolding line_command
line_command-skipped line s = rw s refl

line_command-command :
    (line command : Bytes)
    → skipped (c_string line) ≡ false
    → before_semicolon (c_string line) ≡ some command
    → line_command line ≡ some command
unfolding line_command
line_command-command line command n e = rw n e

commands-skipped :
    (line : Bytes) (lines : List Bytes)
    → skipped (c_string line) ≡ true
    → commands (line ∷ lines) ≡ commands lines
unfolding commands
commands-skipped line lines s = rw (line_command-skipped line s, commands) refl

commands-command :
    (line command : Bytes) (lines : List Bytes)
    → skipped (c_string line) ≡ false
    → before_semicolon (c_string line) ≡ some command
    → commands (line ∷ lines) ≡ command ∷ commands lines
unfolding commands
commands-command line command lines n e = rw (line_command-command line command n e, commands) refl

module _ (os : Os) (exec : Bytes → M Void) where
  config_lines-commands :
      (lines : List Bytes) (w : World)
      → All IsGood lines
      → config_lines os exec lines w ≡ exec_all exec (commands lines) w
  unfolding config_lines exec_all
  config_lines-commands [] w h = unfold commands in refl
  config_lines-commands (line ∷ lines) w h = elim (Bool-cases (skipped (c_string line))) [
    | inl s ↦ rw (commands-skipped line lines s) (rw s (config_lines-commands lines w h.1))
    | inr n ↦ elim h.0 [
      | inl s ↦ cc
      | inr (command, e) ↦ rw (commands-command line command lines n e) (
          rw n (
            rw e (elim (Option-cases (exec command w)) [
              | inl f ↦ rw (f, ◌>>=◌) refl
              | inr (r, f) ↦ rw (f, ◌>>=◌) (config_lines-commands lines r.1 h.1)
            ])))
    ]
  ]

  -- `autoConfig`, with the name of a file that can be read and whose lines are comments, empty, or hold a
  -- semicolon, stores the name, cut to 59 bytes, and runs the same commands in the same order that
  -- `cpScriptContentToArray` takes from that file. The conditions: one parameter and no per cent sign
  -- in the name.
  pub auto_config-commands :
      (k : ℕ) (word content : Bytes) (w : World)
      → eqb_ℤ w.params.param_num (pos 1) ≡ true
      → param 1 w ≡ some (word, w)
      → IsPlain word
      → os.file (bounded max_file_name word) ≡ some content
      → All IsGood (file_lines content)
      → auto_config os exec k w
        ≡ exec_all exec (commands (file_lines content)) (record w {
          scripts = record w.scripts { conf_file_name = bounded max_file_name word };
        })
  unfolding auto_config
  auto_config-commands k word content w one p plain opened good = rw one (
      rw (p, ◌>>=◌)
        (rw (snprintf_format_plain max_file_name word plain, ◌>>=◌)
          (rw opened (
            config_lines-commands (file_lines content)
              (record w {
                scripts = record w.scripts { conf_file_name = bounded max_file_name word };
              })
              good))))
