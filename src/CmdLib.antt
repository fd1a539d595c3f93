-- ===== src/CmdLib.antt =====
-- core/src/at_cmdProc.c: the table of commands `gCmdLib` and the search in it, `getCmdCode`.
pub mod Lookup
use Prim.Native.String.{String}
use auto_test_tools.Base.{ℕ, ◌+◌, Bool, ◌||◌, List, [], ◌∷◌, Option, none, some, if◌then◌else◌, suc}
use auto_test_tools.CString.Compare.{Bytes, codes, same}

-- The function pointers of the table.
pub data Handler : Type 0 where
  show_help auto_config add_client call change_client_ip_addr del_client delay ioevt look : Handler
  quit run_script random_time random_key show_client start stop : Handler
  syslog_conf hide_feature_proc : Handler

-- `cmd_t`; no entry sets `desc`.
pub record Cmd : Type 0 where
  pub cmd_name : Bytes
  pub nick_name : Bytes
  pub example : Bytes
  pub func : Handler

abbrev pub cmd : String → String → String → Handler → Cmd
cmd name nick example func = record {
  cmd_name = codes name;
  nick_name = codes nick;
  example = codes example;
  func = func;
}

-- `gCmdLib`
unfoldable pub cmd_lib : List Cmd
cmd_lib =
    cmd "help" "h" "help: h/help" show_help
    ∷ cmd "autoConfig" "ac" "autoConfig: autoConfig config.txt" auto_config
    ∷ cmd "add" "ad" "add: add 1(client number) 192.168.10.1(ip address)" add_client
    ∷ cmd "call" "call" "call: call 1(client number) 1000(tel number)" call
    ∷ cmd "changeIp" "ci" "changeIp: changeIp 1(client number) 192.168.10.1(ip address)"
        change_client_ip_addr
    ∷ cmd "del" "dl" "del: del 1(client number)" del_client
    ∷ cmd "delay" "dy" "delay: delay 5(secends)" delay
    ∷ cmd "ioevt" "ie" "ioevt: ioevt 1(client number) 1,2(key number) p/l(action)" ioevt
    ∷ cmd "call" "call" "call: call 1(client number) 1000(tel number)" call
    ∷ cmd "look" "l" "look: look" look
    ∷ cmd "quit" "q" "quit: quit" quit
    ∷ cmd "runScript" "rs" "runScript: runScript 1(thread Num) script.txt(script file name)"
        run_script
    ∷ cmd "randomTime" "rt" "randomTime: randomTime 1(min) 10(max)" random_time
    ∷ cmd "randomKey" "rk" "randomKey: randomKey 1(client Num)" random_key
    ∷ cmd "show" "s" "show: show" show_client
    ∷ cmd "start" "st"
        "start: ____test: start test\n         |_rec:  start rec\n         |_all:  start all" start
    ∷ cmd "stop" "sp"
        "stop:  ____test: stop test\n         |_rec:  stop rec\n         |_rec:  stop 1(thread num) script\n         |_all:  stop all"
        stop
    ∷ cmd "syslog" "sl" "syslog: syslog 1(client) enable/disable/record" syslog_conf
    ∷ cmd "hideFeature" "hf" "hideFeature: hideFeature 1(client) enable/disable" hide_feature_proc
    ∷ []

-- The test of `getCmdCode` at one entry.
unfoldable pub names : Bytes → Cmd → Bool
unfolding same
names str c = same c.cmd_name str || same c.nick_name str

-- `getCmdCode` from an entry on; `none` stands for FAILED.
unfoldable pub find_cmd : List Cmd → Bytes → ℕ → Option ℕ
find_cmd [] str cmd = none
find_cmd (c ∷ cs) str cmd =
    let later = find_cmd cs str (cmd + 1) in if names str c then some cmd else later

unfoldable pub get_cmd_code : List Cmd → Bytes → Option ℕ
unfolding find_cmd
get_cmd_code lib str = find_cmd lib str 0
