-- ===== src/Main.antt =====
-- main.go, with Handle and Start of the package daemon: from the command line to a Server.
pub mod Roles
use Prim.Native.String.{String}
use gbalancer.Prelude.{Bool, true, ◌&&◌, not, ◌==◌, Option, none, some, if◌then◌else◌}
use gbalancer.Texts.{Text}
use gbalancer.Config.{ListenAddr, Configuration, load_config, check_file}
use gbalancer.Daemon.{
  Daemon, System, Fate, proceeds, fails, supervises, exits, Process, act, stop_handler, wait_signal,
}
use gbalancer.Daemon.Supervisor.{supervisor_sink}
use gbalancer.Engine.{Server, new_server, Flags, serve, stop}

-- The command line: the flags -version, -daemon, -config and -pidfile, and those of the engine.
pub record Command : Type 0 where
  pub print_version : Bool
  pub daemon_mode : Bool
  pub config_file : Text
  pub pid_file : String
  pub engine : Flags

-- What the process finds besides: os.Stat of a path, the configuration file as `load_config` takes it,
-- net.Listen of an address, and the string that bytes make.
pub record Host : Type 0 where
  pub stat : Text → Bool
  pub opened : Option (Configuration → Configuration × Bool)
  pub can_listen : ListenAddr → Bool
  pub string : Text → String

-- How main goes on: it prints the version, ends by log.Fatal, leaves Sink in a process that ends or
-- supervises, or waits for a signal while its Server runs.
pub data Main : Type 0 where
  printed failed : Main
  sunk : Process → Main
  serving : Process → Server → Main

-- Handle
unfoldable pub handle : String → Bool → Daemon → Daemon
handle pid_file foreground d = record d {
  pid_file = pid_file;
  foreground = foreground;
  handled = true;
}

-- Serve of the Server, after Sink
unfoldable pub serve_main : Host → Flags → Configuration → Process → Main
serve_main host flags c p =
    elim (serve flags host.can_listen (host.string c.addr) (host.string c.port) c.listen
      new_server) [ none ↦ failed | some s ↦ serving p s ]

-- what follows Sink in Start, up to WaitSignal
unfoldable pub after_sink : Host → Flags → Configuration → Fate → Process → Main
unfolding serve_main
after_sink host flags c proceeds q = serve_main host flags c q
after_sink host flags c fails q = failed
after_sink host flags c supervises q = sunk q
after_sink host flags c (exits n) q = sunk q

-- Start
unfoldable pub start : Host → Flags → Configuration → System → Process → Main
start host flags c sys p = let q = supervisor_sink sys p in after_sink host flags c q.fate q

unfoldable pub main : Command → Host → System → Process → Main
unfolding handle start
main cmd host sys p =
    if cmd.print_version
    then printed
    else if cmd.daemon_mode && not (check_file host.stat cmd.config_file)
    then failed
    else elim (load_config host.opened) [
      | none ↦ failed
      | some (c, good) ↦
          if good
          then start host cmd.engine c sys
              (record p { daemon = handle cmd.pid_file (not cmd.daemon_mode) p.daemon })
          else failed
    ]

-- WaitSignal after a signal: Stop of the Server closes `done` and waits for the WaitGroup, and the pid
-- file goes only after that. `goes_on` is what the goroutines do until Wait looks at the count.
unfoldable pub shut_down : (String → Bool) → (Server → Server) → Process → Server → Process × Server
shut_down can_remove goes_on p s =
    let t = goes_on (stop s) in
    (if t.count == 0 then wait_signal can_remove p else act stop_handler p, t)
