-- ===== src/Streamd.antt =====
-- cmd/streamd: the agent that ends the tunnels of a balancer next to the service.
pub mod Laws
pub mod Streams
use Prim.Native.String.{String}
use text.Mathlib.Text.{◌==◌ as str_eq}
use gbalancer.Prelude.{
  ℕ, Bool, true, false, ◌||◌, List, [], ◌∷◌, ◌==◌, Option, none, some, if◌then◌else◌,
}
use gbalancer.Texts.{Text, bytes}
use gbalancer.Pidfile.{Os, Pid, written, failed, taken, write_pid}
use gbalancer.Daemon.{Files, put}

-- What the agent finds: its pid, what os does with the pid file, net.Listen, and os.Remove.
pub record Host : Type 0 where
  pub os : Os
  pub own : ℕ
  pub can_listen : String → Bool
  pub can_remove : Bool

-- how main goes on: it ends with the status 1, or accepts connections until a signal comes
pub data Agent : Type 0 where
  exits listens : Files → Agent

-- main from net.Listen on
unfoldable pub listen : Host → String → Files → Agent
listen host address files = if host.can_listen address then listens files else exits files

-- what follows WritePid: an error ends the process
unfoldable pub after_pid : Host → (pid_file address : String) → Files → Pid × Option Text → Agent
unfolding listen
after_pid host pid_file address files (written, content) =
    listen host address (put files pid_file content)
after_pid host pid_file address files (failed, content) = exits (put files pid_file content)
after_pid host pid_file address files (taken n, content) = exits (put files pid_file content)

-- main, with the flags -pidfile and -listen. The deferred removal does not run on os.Exit.
unfoldable pub main : Host → (pid_file address : String) → Files → Agent
unfolding after_pid listen
main host pid_file address files =
    if str_eq pid_file ""
    then listen host address files
    else after_pid host pid_file address files (write_pid host.os host.own (files pid_file))

-- the deferred removal, once a signal has come
unfoldable pub leave : Host → String → Files → Files
leave host pid_file files =
    if str_eq pid_file "" then files else if host.can_remove then put files pid_file none else files

-- strings.Contains of one character
abbrev pub contains : ℕ → Text → Bool
contains c [] = false
contains c (b ∷ t) = b == c || contains c t

-- one round of the loop: the spdy connection, nil if there is an error, on which Serve runs. An
-- error of Accept does not keep the round from going on with a nil connection.
unfoldable pub on_accept : (Option ℕ → Option ℕ) → Option ℕ → Option ℕ
on_accept new_connection accepted = new_connection accepted

-- What the handler of a stream does: the service cannot be reached, the reply fails, or bytes are
-- copied both ways. A number is the connection to the service.
pub data Handled : Type 0 where
  unreached : Handled
  unreplied copies : ℕ → Handled

-- AgentStreamHandler
unfoldable pub agent_stream_handler :
    (dial : (network address : Text) → Option ℕ) → (replies : Bool) → (service : Text) → Handled
agent_stream_handler dial replies service =
    elim (dial (if contains b':' service then bytes "tcp" else bytes "unix") service) [
      | none ↦ unreached
      | some c ↦ if replies then copies c else unreplied c
    ]
