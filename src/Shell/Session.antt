-- ===== src/Shell/Session.antt =====
-- A whole run of lab7-lyjae/mini-shell-2.c, from the start of the program to the end of its input.
use systemprogramming.Base.{false, List, [], none}
use systemprogramming.Shell.Vars.{Variable}
use systemprogramming.Shell.Exec.{Shell}

-- The globals of the program as it starts, with the environment of the process.
abbrev pub started : List Variable → Shell
started env = record {
  vars = record { locals = []; globals = []; env = env };
  jobs = [];
  fg_pid = none;
  open_fds = 0;
  has_exited = false;
  printed = [];
}
