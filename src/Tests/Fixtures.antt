-- ===== src/Tests/Fixtures.antt =====
-- A program state and an operating system for the examples.
use auto_test_tools.Base.{
  true, ltb, length, [], ◌∷◌, ◌++◌, none, some, ◌==◌, if◌then◌else◌, refl, inl, inr, Bool-cases,
  arith,
}
use auto_test_tools.Base.Int.{pos}
use auto_test_tools.CString.Compare.{codes}
use auto_test_tools.Commands.Clients.Registry.{IsConsistent}
use auto_test_tools.Network.Config.{PtonLaws}
use auto_test_tools.System.Reach.{initial}
use auto_test_tools.World.State.{World, Os}

-- Every call succeeds, and an address is valid if it has at most 15 characters.
abbrev pub calm : Os
calm = record {
  inet_pton = λ s. if ltb (length s) 16 then pos 1 else pos 0;
  inet_aton = λ s. (pos 1, 7);
  socket = λ n. pos 5;
  msgsnd = λ n. pos 0;
  pthread_create = λ n. (pos 0, 9);
  open_msg_file = λ n. pos 4;
  ftok = λ n. pos 3;
  msgget = λ n. pos 2;
  rand = λ n. 26000000;
  ctime = λ n. codes "now\n";
  note_opens = λ n. true;
  fwrite = λ n. pos 27;
  log_opens = λ n. true;
  spare = true;
  file = λ name. none;
}

pub calm-PtonLaws : PtonLaws calm
calm-PtonLaws = record { dotted = λ s h. ground arith }

-- A client 3 is registered, and the send thread runs.
abbrev pub serving : World
serving = record initial {
  net = record {
    sockets = λ i. if i == 3 then pos 5 else pos 0;
    ip_addrs = λ i. if i == 3 then codes "192.168.10.101" else [];
    sock_addrs = λ i.
        if i == 3
        then record { family = 2; port = 5000; address = 7 }
        else record { family = 0; port = 0; address = 0 };
    flags = λ i. if i == 3 then pos 1 else pos 0;
  };
  threads = record { send_id = 8; rec_id = 0; script_ids = λ _. 0 };
}

pub serving-IsConsistent : IsConsistent calm serving.net
serving-IsConsistent i = elim (Bool-cases (i == 3)) [
  | inl e ↦ rw e (inl refl, omega arith, λ u. refl, λ u. cc)
  | inr e ↦ rw e (inr refl, omega arith, λ u. cc, λ u. cc)
]

-- Behind the line `ie 3 he,1,# p`.
abbrev pub typed_ioevt : World
typed_ioevt = record serving {
  params = record {
    buffer = codes "ie" ++ (0 ∷ (codes "3" ++ (0 ∷ (codes "he,1,#" ++ (0 ∷ codes "p")))));
    argv = λ i.
        if i == 0
        then some 0
        else if i == 1
        then some 3
        else if i == 2
        then some 5
        else if i == 3
        then some 12
        else none;
    param_num = pos 3;
  };
}
