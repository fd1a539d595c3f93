-- ===== src/Lib.antt =====
-- A verification library of AutoTestTools: the program on the PC that registers VOIP phones, sends
-- them key presses, calls and settings over UDP, runs scripts of such commands, and reads their
-- logs.
--
-- The parts and how they interact. A line that is typed, or that a script holds, is cut into words
-- (`getTokens`), its first word is looked up in the table of commands (`getCmdCode`), and the
-- handler reads the other words through the static pointers `gCmdParam`. The handlers of
-- core/src/at_cmdProc.c read and write the tables of clients of core/src/at_network.c under the
-- lock `gMutex`, and put messages into a System V queue. Of the two threads in core/src/autoTest.c
-- `cmd_send` takes the messages and sends them to the phones, and `ret_receive` stores the phones'
-- log lines, counts their calls and removes a phone that suspends. Up to ten more threads run
-- scripts.
--
-- The files and the code they model.
--   Base             Boolean tests, lists, and the signed numbers of C over the native numbers.
--   CString          what the code uses of string.h and stdlib.h: `strcmp`, `strncmp`, `strstr`, `atoi`,
--                    `snprintf` with a text as its format, and `strtok`, which writes NULs into its
--                    buffer; and what the words of a text are.
--   KeyMap           core/src/keyMap.c: `gKeyLib`, `getKeyCode`; Names is about the names of the keys.
--   World            the static variables of all files as one record, arrays with their sizes checked
--                    at each access, the operating system as a parameter, and computations on the state.
--                    Keeps and Gives have the rules by which a computation keeps an invariant or
--                    returns values of a kind, one for each way to build it.
--   Network          core/src/at_network.c: the accessors, `closeSocket`, `isValidIp`, `network_config`;
--                    Stdin has `get_cNumAndIpAddr` with the standard input as a list of bytes.
--   Params           `getTokens` and `gCmdParam` of core/src/at_cmdProc.c.
--   CmdLib           `gCmdLib` and `getCmdCode` of core/src/at_cmdProc.c.
--   Commands         the handlers of core/src/at_cmdProc.c: Clients (`addClient`, `delClient`,
--                    `changeClientIpAddr`), Queue (`ioevt`, `call`, `syslogConf`, `hideFeatureProc`),
--                    Threads (`start`, `stop`, `runScript`, and the ids of core/src/autoTest.c), Show
--                    (`showHelp`, `showClient`, `look`, `delay`), Timing (`getRandValue`, `randomTime`),
--                    Quit (`quit`), Dispatch (`cmd_proc`, `autoConfig`, `randomKey`). Framed says
--                    which of them keep everything but what they print, read and name, and
--                    Clients/Race is about two threads in `addClient`.
--   Script           `cpScriptContentToArray`, `scriptCmdProcess`, `getFileLength` and `getCmdContent` of
--                    core/src/at_cmdProc.c.
--   Logs             core/src/autoTest.c: `cmd_send`, `ret_receive`, `syslogServerInit`,
--                    `syslogProcess`, and the counts of calls of core/src/at_cmdProc.c.
--   Completion       core/src/readline.c and `gCommands`: the completion of words at the prompt.
--   Prompt           `main` of core/src/autoTest.c over the lines that `readline` gives.
--   System           the whole program: the commands, the script threads and the two service threads
--                    as a step relation on `World`, its invariant `Inv`, and the states it reaches;
--                    Delivery, Arrival, TextArrival and RandomPress follow an `ioevt`, a `syslog`, `hideFeature`
--                    or `call`, and a `randomKey` from the line through the queue to `cmd_send`,
--                    ScriptArrival a script, Shown an `add` to the list of `show`, and Removal a phone's
--                    line from `ret_receive` to the tables; Overtaken and LateScript are about threads that read a line at the same time,
--                    and Turns about a queued message while all threads take turns.
--   Tests            the theorems at concrete inputs.
--
-- State and results. A function of the program is a function on `World` with a result in `Option`:
-- `none` is undefined behaviour, such as an access outside an array, a NULL pointer that is read, a
-- conversion in a format, an overflow, and also taking the lock twice, which never returns. `Ends`
-- and `Returns` say that a run is defined and what it leaves, so they state total correctness. A
-- call of the system takes its answer from `Os`, which is given the number of such calls made
-- before where the answer may change, and what the program does to the outside is added to the list
-- `events`. A text is the list of its bytes before the NUL, and the buffer of `getTokens` a list of
-- bytes with the NULs that `strtok` writes. The interface of the handlers to the words of a line is
-- the offsets that `gCmdParam` holds.
--
-- Bounds and fuel. `cmd_proc` is run with fuel for the depth of the calls that a configuration file
-- and `randomKey` make, which has no bound since a file may name itself. `strtok` is run with
-- the limit of fifteen words that the code has as its own bound. The lines of a file are read with
-- its length as fuel, since a line takes at least a byte. A script is run with one more than the
-- number of its rows, since every round goes at least one row on, and the search for the end of a
-- loop with 500, the size of the array of rows; an index behind it is undefined. The rounding to
-- `float` halves a number 64 times at most, and no product of the code needs as many.
--
-- Assumptions. `PtonLaws` says of `inet_pton` that a text it takes has at most 15 characters, as an
-- address in dotted form has. `NoteLaws` and `StartLaws` say that what `quit` and `start` ask of the
-- system goes well, and `IsSilent` that the time in front of a logged line holds no word that the
-- program looks for in a line, and `RandLaws` that `rand` gives no negative `int32_t`. Memory is always had. A
-- command, a round of a thread and a row of a script are taken as whole steps, in any order. A command
-- may also be two steps, `getTokens` and the handler, with steps of other threads between them, which
-- overwrite its words. Turns of other threads within a handler are modelled in Commands/Clients/Race
-- only, and within `getTokens` not at all.
--
-- The write one byte behind `log`. `ret_receive` writes a zero behind its array `log` of 300 bytes for every
-- line that is received. Every other access outside an array is `none`. This one would leave nothing of the
-- thread, so whether the byte is used by anything else, which is for the compiler to say, is the parameter
-- `spare` of `Os`: a round is `none` where it is not spare, and what is said of a defined round has `spare` as
-- a condition. On a machine where the arrays of a function begin at multiples of 16, four bytes
-- behind `log` are spare.
--
-- Messages and threads, where the model is coarser than C. A message is copied as a whole record by
-- `msgsnd` and `msgrcv`. In C the struct has no `mtype` in front and the size is too large, so that the calls
-- take the first bytes for the type and reach behind the struct; neither is in the model. `stop`
-- waits for the threads that it ends; a `stop` in a row of a script that ends the thread it runs in, which
-- then does not go on, is modelled as if it came from another thread. The queue outlives the program, so a run
-- may begin with messages of an earlier one; that these are for clients in range and fit is assumed.
--
-- Not modelled: the seed of the random numbers, `initialize_readline`, which only stores a pointer, the
-- functions that are only declared, and the copy of the readline library.
pub mod Base
pub mod CString
pub mod KeyMap
pub mod World
pub mod Network
pub mod Params
pub mod CmdLib
pub mod Commands
pub mod Completion
pub mod Logs
pub mod Script
pub mod Prompt
pub mod System
pub mod Tests
