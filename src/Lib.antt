-- ===== src/Lib.antt =====
-- Verification of the programs of the system programming labs (lab1 to lab9), one subtree for each
-- part, over a common library.
--
-- Base, Base.Tests, Base.Lists and Base.Window: shared names, Boolean tests, lists with an index,
-- and the window of a circular array. Ctype and CString: the functions of the C library that the
-- programs call (isalnum, isspace, strcmp, strchr, strncpy, strtok). A C string is the list of its
-- bytes before the terminator.
--
-- WordCount: the threaded word counters of lab8. WordCount.Mt is lab8-lyjae/wc_mt.c: slices of the
-- file whose limits are moved over a word, a count for each, and their sum. WordCount.Overlap is
-- lab8-lyjae/wc_mt_overlap.c: the chunks that the producer reads, and in Overlap.System the
-- producer, the consumers, the bounded buffer and the two condition variables as a step relation,
-- with signals that wake any waiter and wake-ups without a signal. A critical section is one step.
--
-- Shell: lab7-lyjae/mini-shell-2.c. Shell.Vars has the variables, Shell.Parse the expansion and the
-- splitting of a line, Shell.Exec the commands, the redirections and the jobs, Shell.Block the if
-- blocks and the loop of main; Shell.Assign follows a variable from one line to the next, and
-- Shell.Session and Shell.Table are whole runs. Files, fork, execvp and waitpid are a record of
-- functions on a state of the world (Exec.Os), so the theorems hold whatever these return; fork is told whether the child ignores
-- SIGINT, as it does in mini-shell-2.c and mini-shell-3.c and not in mini-shell-1.c. The input
-- is the list of the lines that fgets returns. main_loop has a round of fuel for each line. The
-- blocks and the loop stand over a record of what they call (Block.Program), which each of the three
-- shells of lab7 fills. Shell.Block.Checked has such a record stop at the first line that outgrows
-- buffer[1024] or varname[64] of expand_variables, of which nothing is said; whole runs are over it. Shell.MiniShell1 is lab7-lyjae/mini-shell-1.c, the shell without jobs, and
-- Shell.MiniShell3 is lab7-lyjae/mini-shell-3.c, the shell with the command fg, whose choice of the
-- job and effect on the jobs stand in Shell.Resume. They are compared with mini-shell-2.c, command
-- by command and, in their Session modules, script by script. Shell.Signals has the shell, its
-- children and the keys of the terminal as a step relation: what each process does about SIGINT and
-- SIGTSTP, where it is between fork and execvp, and where the shell is between fork, fg_pid = pid,
-- waitpid and fg_pid = -1.
--
-- WebServer: lab9. WebServer.Queue is the bounded queue of lab9-lyjae/webserver-mt.c with the
-- critical sections in any order; WebServer.Threads has the acceptor and the four workers with the
-- two condition variables as a step relation, where a critical section and an answer are one step
-- each, and a signal wakes any waiter; WebServer.Request is handle_request of lab9-lyjae/webserver.c
-- and of webserver-mt.c over a file system that is a parameter.
--
-- Pipe: lab9-lyjae/pipe.c. A process is its table of descriptors, and what it executes.
--
-- Syscall: what lab3 adds to the kernel in lab3-lyjae/xv6-riscv/kernel: syscall of syscall.c with
-- the count of the calls of a process, the calls hello and getsyscallcount of sysproc.c, and
-- allocproc and freeproc of proc.c, which the count depends on. The other calls are a parameter. The
-- count is a 64-bit word.
--
-- Ls: lab2-lyjae/ls3.c, the rows that it prints, over a file system that is a parameter.
--
-- Wait: lab6-lyjae/wait.c, what the parent prints of the status of its child.
--
-- Who: lab1-lyjae/utmplib.c, the reader that gets 16 login records at a time, and the loop of
-- lab1-lyjae/who4.c over it, and in Who.Show what who3.c and who4.c print, with the fields of a
-- record and the texts of a time as parameters. The loop has a round of fuel for each record and one
-- for the end.
--
-- Cp: lab1-lyjae/cp2.c. The system calls are a record of functions, and the theorem takes what POSIX
-- says of read and write for a regular file. The loop has a round of fuel for each byte and one
-- more.
--
-- Copy: lab2-lyjae/cpdr.c over a tree of files and directories, with the state of the destination as
-- an argument. Copy.Paths has both in one tree; the source is read as it was before the run, which is
-- what the program does only where neither path leads through the other and no link joins them. The
-- loop of cp_file has fuel for one read per byte and one more, and copy recurs on the source tree.
--
-- Prompt: lab6-lyjae/psh2.c and psh3.c, the shells that ask for one argument after the other, with
-- the command that leaves the shell and the success of fork as parameters.
--
-- Terminal: Terminal.Move and Terminal.Editor are lab5-lyjae/move.c and editor.c;
-- Terminal.Broadcaster, Terminal.Typer and Terminal.Password are lab4-lyjae/broadcaster.c, typer.c
-- and pw_input.c. Each is a loop over the list of what the program reads, or of that and the signals
-- in between. Terminal.Walls is what move.c draws, and Terminal.Echo what pw_input.c prints.
--
-- Snake: lab5-lyjae/snake.c: init_game, move_snake, handle_input, the handlers of signals and the
-- loop of main, with the values of rand and getch as arguments. Snake.Body and Snake.Play have the
-- move and the whole run of a game that is a list of cells, to compare the array with. Snake.Draw is
-- what a round draws, and Snake.Corner what a longer snake shows.
--
-- Curses: what the programs of lab5 call of curses, as a record of operations and of what the manual
-- says of them, and the border that snake.c and move.c draw.
--
-- Numbers are natural numbers. The counts of words of lab8 are of 32 bits and go around, with the
-- bound on the words in the theorems. Other sizes stay far below the bounds of int and size_t in these programs,
-- with the bounds that matter (the capacity of arrays) written out in the definitions.
--
-- Not modelled: timing, allocation that fails, and the set-up of sockets and terminals; the rest of
-- the kernel and the user programs of xv6 in lab3-lyjae, which are a copy of another project.
pub mod Base
pub mod CString
pub mod Copy
pub mod Cp
pub mod Ctype
pub mod Curses
pub mod Ls
pub mod Pipe
pub mod Prompt
pub mod Shell
pub mod Snake
pub mod Syscall
pub mod Terminal
pub mod Wait
pub mod WebServer
pub mod Who
pub mod WordCount
