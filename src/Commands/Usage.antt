-- ===== src/Commands/Usage.antt =====
-- core/src/at_cmdProc.c: the messages that every handler prints when its parameters are wrong.
use auto_test_tools.Base.{ℕ, [], ◌∷◌, get_elem?}
use auto_test_tools.CmdLib.{cmd_lib, Cmd}
use auto_test_tools.World.Monad.{M, Void, ◌>>=◌, ◌>>◌, defined, say}
use auto_test_tools.World.State.{text}

-- `gCmdLib[cmdNum]`
unfoldable pub cmd_at : ℕ → M Cmd
cmd_at cmd_num = defined (get_elem? cmd_lib cmd_num)

-- `printf("%s\n", gCmdLib[cmdNum].example)`
unfoldable pub print_example : ℕ → M Void
unfolding cmd_at
print_example cmd_num = do c ← cmd_at cmd_num; say "%s\n" (text c.example ∷ [])

unfoldable pub wrong_parameter : ℕ → M Void
unfolding print_example
wrong_parameter cmd_num = do say "wrong parameter!!\n" []; print_example cmd_num
