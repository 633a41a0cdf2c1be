-- ===== src/Daemon/Setup.antt =====
-- A process when it starts, and the first calls of its Sink.
use Prim.Native.String.{String}
use text.Mathlib.Text.{◌==◌ as str_eq}
use text.Mathlib.TextEquality.{eq_iff}
use gbalancer.Prelude.{◌≡◌, refl, Bool, true, false, [], ◌∷◌, Option, none, some}
use gbalancer.Texts.{Text}
use gbalancer.Decimal.{ℤ}
use gbalancer.Pidfile.{written, taken, write_pid}
use gbalancer.Daemon.{
  hup, interrupt, quit, term, Environ, Daemon, System, Act, notify, ended, put, proceeds, exits,
  Files, Process, setup_pidfile, resolve_pidfile,
}
use gbalancer.Daemon.Log.{LogFile}
use gbalancer.Daemon.Supervisor.{supervisor_sink}

-- a process that has just been started
abbrev pub born : Daemon → Environ → Files → Process
born d e files = record { fate = proceeds; daemon = d; environ = e; files = files; acts = [] }

abbrev pub as_child : Environ
as_child = record { daemon_mode = "child"; supervisor_mode = "" }

abbrev pub as_worker : Environ
as_worker = record { daemon_mode = "child"; supervisor_mode = "worker" }

abbrev pub signals : Act
signals = notify (hup ∷ interrupt ∷ quit ∷ term ∷ [])

-- a Daemon after Handle, with a pid file
abbrev pub configured : String → Bool → LogFile → Daemon
configured name foreground log = record {
  pid_file = name;
  foreground = foreground;
  handled = true;
  command = none;
  log = log;
}

-- A system on which the path of the pid file resolves to `path`.
pub record HasPidfile (sys : System) (name path : String) : Type 0 where
  pub named : str_eq name "" ≡ false
  pub has_dir : sys.has_dir name ≡ true
  pub resolved : sys.abs name ≡ some path
  pub proper : str_eq path "" ≡ false

-- A system on which the program resolves to `exe`, can be started, and does not end at once.
pub record CanFork (sys : System) (exe : String) : Type 0 where
  pub found : sys.abs sys.program ≡ some exe
  pub can_setenv : sys.can_setenv ≡ true
  pub can_start : sys.can_start ≡ true
  pub stays : sys.quits ≡ false

pub put_same : (files : Files) (name : String) (c : Option Text) → put files name c name ≡ c
put_same files name c = rw ((eq_iff name name).1 refl) refl

-- a worker returns from Sink at once
pub worker_lem :
    (sys : System) (d : Daemon) (files : Files)
    → supervisor_sink sys (born d as_worker files) ≡ born d as_worker files
unfolding supervisor_sink
worker_lem sys d files = refl

pub resolve_ok :
    (sys : System) (p : Process) (path : String)
    → HasPidfile sys p.daemon.pid_file path
    → resolve_pidfile sys p ≡ record p { daemon = record (p.daemon) { pid_file = path } }
unfolding resolve_pidfile
resolve_ok sys p path h = rw (h.named, resolve_pidfile, h.has_dir, h.resolved) refl

pub setup_ok :
    (sys : System) (p : Process) (content : Option Text)
    → str_eq p.daemon.pid_file "" ≡ false
    → write_pid sys.os sys.own (p.files p.daemon.pid_file) ≡ (written, content)
    → setup_pidfile sys p ≡ record p { files = put p.files p.daemon.pid_file content }
unfolding setup_pidfile
setup_ok sys p content named wrote = rw (named, setup_pidfile, wrote) refl

pub setup_taken :
    (sys : System) (p : Process) (content : Option Text) (n : ℤ)
    → str_eq p.daemon.pid_file "" ≡ false
    → write_pid sys.os sys.own (p.files p.daemon.pid_file) ≡ (taken n, content)
    → setup_pidfile sys p
      ≡ ended (exits 1) (record p { files = put p.files p.daemon.pid_file content })
unfolding setup_pidfile
setup_taken sys p content n named busy = rw (named, setup_pidfile, busy) refl
