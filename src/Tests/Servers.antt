-- ===== src/Tests/Servers.antt =====
-- The theorems on the server and on main at concrete inputs.
use gbalancer.Prelude.{
  ℕ, zero, suc, ◌+◌, ◌≡◌, refl, subst, Bool, true, false, List, [], ◌∷◌, none, some, ◌==◌,
  if◌then◌else◌,
}
use mathlib.Core.Option.{some-injective}
use gbalancer.Prelude.Lists.{get_elem?}
use gbalancer.Texts.{bytes}
use gbalancer.Config.{
  ListenAddr, Configuration, get_listen_addrs, listen_addr, cut, load_config, add_listen,
  check_file,
}
use gbalancer.Decimal.{itoa}
use gbalancer.Pidfile.{write_pid, create}
use gbalancer.Daemon.{clean, new_daemon, Process}
use gbalancer.Daemon.Setup.{born}
use gbalancer.Engine.{
  Listener, Server, new_server, absent, Flags, serve, native_serve, listen_all, conn, temporary,
  failed, on_accept, close_listener, stop, accepts, closes, stops, Reaches, here, later,
}
use gbalancer.Engine.Stop.{loops, directors, stopped}
use gbalancer.Engine.Drain.{AllClosed, rounds, drains}
use gbalancer.Main.{Command, Host, main, serving, shut_down}
use gbalancer.Main.Roles.{IsReady, serves_alone}
use gbalancer.Tests.Processes.{quiet, machine, has_pidfile, no_files}

abbrev native : Flags
native = record { ipvs = false; remote = false }

abbrev home : ListenAddr
home = record { net = bytes "tcp"; addr = bytes "h:1" }

abbrev listening : Bool → Bool → Listener
listening is_open going = record { address = home; is_open = is_open; going = going }

abbrev server : Bool → Bool → Bool → ℕ → List ℕ → Server
server is_open going closed count jobs = record {
  listeners = listening is_open going ∷ [];
  director = absent;
  count = count;
  closed = closed;
  jobs = jobs;
}

abbrev served : Server
served = server true true false 1 []

abbrev closed_down : Server
closed_down = server false true true 1 (7 ∷ [])

abbrev drained : Server
drained = server false false true 0 (7 ∷ [])

served_so : serve native (λ a. true) "h" "1" (bytes "tcp://h:1" ∷ []) new_server ≡ some served
unfolding serve native_serve listen_all get_listen_addrs listen_addr cut
served_so = refl

-- a connection, an error of the network, Stop, and the listener is closed
closed-Reaches : Reaches served closed_down
unfolding on_accept close_listener stop
closed-Reaches =
    later
      (later
        (later (later here (accepts 0 (listening true true) (conn 7) refl refl (λ e. cc) refl))
          (accepts 0 (listening true true) temporary refl refl (λ e. cc) refl))
        (stops refl))
      (closes 0 (listening true true) refl refl refl)

abbrev last_round : Reaches closed_down drained
unfolding on_accept
last_round = later here (accepts 0 (listening false true) failed refl refl (λ e. refl) refl)

stopped_example :
    ((k : ℕ) (l : Listener) → get_elem? drained.listeners k ≡ some l → l.going ≡ false)
    × (directors drained.director ≡ 0)
    × (drained.jobs ≡ drained.jobs)
unfolding on_accept
stopped_example =
    stopped native (λ a. true) "h" "1" (bytes "tcp://h:1" ∷ []) served drained drained served_so
      (later closed-Reaches (accepts 0 (listening false true) failed refl refl (λ e. refl) refl))
      refl here

all_closed : AllClosed closed_down
all_closed zero l e =
    subst (λ x. x.is_open ≡ false) (some-injective (listening false true) l e) refl
all_closed (suc k) l e = cc

drains_example :
    (drained.count + rounds last_round ≡ closed_down.count) × (drained.jobs ≡ closed_down.jobs)
drains_example =
    drains native (λ a. true) "h" "1" (bytes "tcp://h:1" ∷ []) served closed_down drained served_so
      closed-Reaches all_closed last_round

abbrev command : Bool → Command
command daemon = record {
  print_version = false;
  daemon_mode = daemon;
  config_file = bytes "/c";
  pid_file = "/pid";
  engine = native;
}

-- the file holds only an address and a port
abbrev configuration : Configuration → Configuration × Bool
configuration c = (record c { addr = bytes "h"; port = bytes "1" }, true)

abbrev host : Host
host = record {
  stat = λ name. true;
  opened = some configuration;
  can_listen = λ a. true;
  string = λ t. "h";
}

abbrev settings : Configuration
settings = record {
  service = bytes "galera";
  ext_command = [];
  user = [];
  pass = [];
  addr = bytes "h";
  port = bytes "1";
  listen = bytes "tcp://h:1" ∷ [];
  backend = [];
}

ready : (daemon : Bool) → IsReady (command daemon) host settings served
unfolding serve native_serve listen_all get_listen_addrs listen_addr cut check_file load_config
    add_listen
ready daemon = record { runs = refl; stands = refl; loads = refl; starts = refl }

-- the goroutines once `done` is closed: the listener is closed, and its loop returns
abbrev quits : Server → Server
quits u = on_accept 0 (listening false true) failed (close_listener 0 (listening true true) u)

quits-Reaches : Reaches (stop served) (quits (stop served))
unfolding on_accept close_listener stop
quits-Reaches =
    later (later here (closes 0 (listening true true) refl refl refl))
      (accepts 0 (listening false true) failed refl refl (λ e. refl) refl)

serves_alone_example :
    (p : Process) × (main (command false) host (machine quiet 8) (born new_daemon clean no_files)
      ≡ serving p served)
    × (p.files "/pid" ≡ some (itoa 8))
    × (let (q, u) = shut_down (λ name. true) quits p served in
        (u.closed ≡ true)
        × (q.files "/pid"
            ≡ (if loops u.listeners + directors u.director == 0 then none else some (itoa 8))))
unfolding write_pid create itoa
serves_alone_example =
    serves_alone (command false) host settings served served (machine quiet 8) "/pid" no_files
      (some (bytes "8")) (λ name. true) quits refl (ready false) (has_pidfile quiet 8) refl refl
      here quits-Reaches
