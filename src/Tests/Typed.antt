-- ===== src/Tests/Typed.antt =====
-- The theorems on `start` and on `autoConfig`, each behind a typed line.
use auto_test_tools.Base.{
  ◌≡◌, refl, false, ◌∷◌, ◌++◌, none, some, arith, ◌==◌, if◌then◌else◌, inl, inr,
}
use auto_test_tools.Base.Int.{pos}
use auto_test_tools.CString.Compare.{Bytes, codes}
use auto_test_tools.CString.Tokens.{c_string, string_at}
use auto_test_tools.CString.Format.{bounded}
use auto_test_tools.Commands.Dispatch.{auto_config}
use auto_test_tools.Commands.Dispatch.Config.{auto_config-commands}
use auto_test_tools.Script.Load.{
  commands, file_lines, lines_on, take_line, skipped, before_semicolon,
}
use auto_test_tools.Script.Loops.{exec_all}
use auto_test_tools.CmdLib.{cmd_lib}
use auto_test_tools.Commands.Threads
use auto_test_tools.Commands.Threads.{start_mode}
use auto_test_tools.Commands.Threads.Single.{
  Single, made_send, made_rec, StartLaws, start-Single, start_mode-begins,
}
use auto_test_tools.Params.{param}
use auto_test_tools.Commands.Threads.{set_script_thread_id}
use auto_test_tools.Tests.Fixtures.{calm, serving}
use auto_test_tools.World.Monad.{Ends, emit}
use auto_test_tools.World.State.{World, Os, max_file_name, wrote}

-- Behind the line `st all`.
abbrev typed_start : World
typed_start = record serving {
  params = record {
    buffer = codes "st" ++ (0 ∷ codes "all");
    argv = λ i. if i == 0 then some 0 else if i == 1 then some 3 else none;
    param_num = pos 1;
  };
}

start-Single_example : Ends (Threads.start calm 15 typed_start) (Single typed_start)
unfolding cmd_lib param string_at
start-Single_example = start-Single calm 15 refl (codes "all") typed_start refl

calm-StartLaws : StartLaws calm
calm-StartLaws = record {
  opens = λ n. refl;
  key = λ n. refl;
  queue = λ n. refl;
  makes = λ n. refl;
  ids = λ n. refl;
}

start_mode-begins_example : Ends (start_mode calm 15 (codes "all") 8 0 typed_start) (λ w'.
    ((w'.threads.send_id == 0) ≡ false)
    × ((w'.threads.rec_id == 0) ≡ false)
    × (made_send w'.events ≡ 0)
    × (made_rec w'.events ≡ 1))
start_mode-begins_example = start_mode-begins calm 15 typed_start calm-StartLaws

-- A system in which every file holds two commands behind a comment.
abbrev config_text : Bytes
config_text = codes "#\na;\nb;\n"

abbrev with_config : Os
with_config = record calm { file = λ name. some config_text }

-- Behind the line `ac c`.
abbrev typed_config : World
typed_config = record serving {
  params = record {
    buffer = codes "ac" ++ (0 ∷ codes "c");
    argv = λ i. if i == 0 then some 0 else if i == 1 then some 3 else none;
    param_num = pos 1;
  };
}

auto_config-commands_example :
    auto_config with_config (λ command. emit (wrote command)) 1 typed_config
    ≡ exec_all
        (λ command. emit (wrote command))
        (commands (file_lines config_text))
        (record typed_config {
          scripts = record typed_config.scripts {
            conf_file_name = bounded max_file_name (codes "c");
          };
        })
unfolding param string_at file_lines lines_on take_line skipped before_semicolon c_string
auto_config-commands_example =
    auto_config-commands with_config (λ command. emit (wrote command)) 1 (codes "c") config_text
      typed_config refl refl (omega arith, tt) refl
      (inl refl, (inr (codes "a", refl), (inr (codes "b", refl), tt)))
