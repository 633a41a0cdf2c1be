-- ===== src/Daemon.antt =====
-- daemon/daemon.go and daemon/logfile.go: what a process does to become a daemon. A process that the
-- daemon starts runs the same program with the environment that it is given.
pub mod Log
pub mod Supervisor
pub mod Loop
pub mod Setup
pub mod Launch
pub mod Handlers
use Prim.Native.String.{String}
use text.Mathlib.Text.{◌==◌ as str_eq}
use gbalancer.Prelude.{ℕ, Bool, false, List, [], ◌∷◌, ◌++◌, Option, none, some, if◌then◌else◌}
use gbalancer.Texts.{Text}
use gbalancer.Pidfile.{Os, Pid, written, failed, taken, write_pid}
use Log.{LogFile, create_logfile}

pub data Signal : Type 0 where
  hup interrupt quit term chld : Signal

-- the two variables of the environment that say which process this is; "" is an unset one
pub record Environ : Type 0 where
  pub daemon_mode : String
  pub supervisor_mode : String

abbrev pub clean : Environ
clean = record { daemon_mode = ""; supervisor_mode = "" }

-- A Daemon. `handled` says whether it has a handler, `command` is the path of the program to start.
pub record Daemon : Type 0 where
  pub pid_file : String
  pub foreground : Bool
  pub handled : Bool
  pub command : Option String
  pub log : LogFile

-- What the process finds: its pid and what os does with the pid file, whether the directory of a path
-- exists, filepath.Abs, os.Setenv, the start of a program and whether that ends with an error within a
-- fifth of a second, os.OpenFile of a log with the size that the
-- file has, and os.Args[0].
pub record System : Type 0 where
  pub os : Os
  pub own : ℕ
  pub has_dir : String → Bool
  pub abs : String → Option String
  pub can_setenv : Bool
  pub can_start : Bool
  pub quits : Bool
  pub open_log : String → Option ℕ
  pub program : String

-- What a process does besides, oldest first. A program is started with its output in a file, if there
-- is a log, and in a session of its own.
pub data Act : Type 0 where
  notify : List Signal → Act
  chdir : String → Act
  start : (path : String) → Environ → (output : Option String) → Act
  dump_log stop_handler : Act

-- how it goes on: it returns, with nil or an error, it ends with a status, or it supervises a worker
-- for good
pub data Fate : Type 0 where
  proceeds fails supervises : Fate
  exits : ℕ → Fate

abbrev pub Files : Type 0
Files = String → Option Text

-- a process at the end of a method
pub record Process : Type 0 where
  pub fate : Fate
  pub daemon : Daemon
  pub environ : Environ
  pub files : Files
  pub acts : List Act

abbrev pub ended : Fate → Process → Process
ended f p = record p { fate = f }

abbrev pub act : Act → Process → Process
act a p = record p { acts = p.acts ++ a ∷ [] }

infixl 5 ◌>>◌
-- one call after another, as long as the process proceeds
abbrev pub ◌>>◌ : Process → (Process → Process) → Process
p >> k = elim p.fate [ proceeds ↦ k p | fails ↦ p | supervises ↦ p | exits n ↦ p ]

abbrev pub put : Files → String → Option Text → Files
put files name content x = if str_eq name x then content else files x

-- NewDaemon
unfoldable pub new_daemon : Daemon
new_daemon = record {
  pid_file = "";
  foreground = false;
  handled = false;
  command = none;
  log = record { path = ""; offset = 0 };
}

abbrev after_pid : Pid → Process → Process
after_pid written p = p
after_pid failed p = ended (exits 1) p
after_pid (taken n) p = ended (exits 1) p

-- setupPidfile
unfoldable pub setup_pidfile : System → Process → Process
setup_pidfile sys p =
    if str_eq p.daemon.pid_file ""
    then p
    else (let (result, content) = write_pid sys.os sys.own (p.files p.daemon.pid_file) in
        after_pid result (record p { files = put p.files p.daemon.pid_file content }))

-- cleanPidfile, where an error of os.Remove is logged
unfoldable pub clean_pidfile : (String → Bool) → Process → Process
clean_pidfile can_remove p =
    if str_eq p.daemon.pid_file ""
    then p
    else if can_remove p.daemon.pid_file
    then record p { files = put p.files p.daemon.pid_file none }
    else p

-- UNSET_ENV of daemon/unsetenv_supported.go
abbrev pub unset_env : Bool
unset_env = false

-- unsetenv: the environment without the variable, if that is wanted
abbrev pub unsetenv : (Environ → Environ) → Environ → Environ
unsetenv without e = if unset_env then without e else e

-- child
unfoldable pub child : System → Process → Process
unfolding setup_pidfile
child sys p = setup_pidfile sys (act (chdir "/") p)

-- the file that takes the output of the child
abbrev pub output : LogFile × Bool → Option String
output (l, opened) = if opened then some l.path else none

-- parent, which always ends the process
unfoldable pub parent : System → Process → Process
unfolding create_logfile
parent sys p =
    let log = create_logfile sys.open_log sys.program p.daemon.log in
    let q = record (act (notify (chld ∷ [])) p) { daemon = record (p.daemon) { log = log.0 } } in
    elim q.daemon.command [
      | none ↦ ended (exits 1) q
      | some path ↦
          if sys.can_start
          then (let started = act (start path q.environ (output log)) q in
              ended (exits 0) (if sys.quits then act dump_log started else started))
          else ended (exits 1) q
    ]

-- the pid file's part of Sink
unfoldable pub resolve_pidfile : System → Process → Process
resolve_pidfile sys p =
    if str_eq p.daemon.pid_file ""
    then p
    else if sys.has_dir p.daemon.pid_file
    then elim (sys.abs p.daemon.pid_file) [
      | none ↦ ended (exits 1) p
      | some path ↦ record p { daemon = record (p.daemon) { pid_file = path } }
    ]
    else ended fails p

-- the part of Sink behind the foreground: the command, and the mode in the environment
unfoldable pub background : System → Process → Process
unfolding child parent
background sys p = elim (sys.abs sys.program) [
  | none ↦ ended (exits 1) p
  | some path ↦
      let q = record p { daemon = record (p.daemon) { command = some path } } in
      if str_eq q.environ.daemon_mode ""
      then (if sys.can_setenv
          then parent sys (record q { environ = record (q.environ) { daemon_mode = "child" } })
          else ended (exits 1) q)
      else if str_eq q.environ.daemon_mode "child"
      then child sys
          (record q { environ = unsetenv (λ e. record e { daemon_mode = "" }) q.environ })
      else ended (exits 1) q
]

-- Sink of a Daemon
unfoldable pub sink : System → Process → Process
unfolding resolve_pidfile background setup_pidfile
sink sys p =
    if p.daemon.handled
    then (resolve_pidfile sys (act (notify (hup ∷ interrupt ∷ quit ∷ term ∷ [])) p) >> λ q.
        if q.daemon.foreground then setup_pidfile sys q else background sys q)
    else ended fails p

-- WaitSignal once a signal has come
unfoldable pub wait_signal : (String → Bool) → Process → Process
unfolding clean_pidfile
wait_signal can_remove p = clean_pidfile can_remove (act stop_handler p)
