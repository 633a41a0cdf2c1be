-- ===== src/Tests/Parts.antt =====
-- The other parts' theorems at concrete inputs.
use text.Mathlib.Text.{◌==◌ as str_eq}
use gbalancer.Prelude.{
  ℕ, ◌≤◌, ◌≡◌, refl, true, [], ◌∷◌, map, List, none, some, arith, Returns, if◌then◌else◌, Bool,
  ◌++◌,
}
use gbalancer.Texts.{bytes}
use gbalancer.Backend.{new_backend, refused, op_error, other_error}
use gbalancer.Heap.{add, up, down, take_top, remove}
use gbalancer.Heap.Contract.{InPool, IsOrdered, Taken}
use gbalancer.Heap.Remove.{take_top-Taken}
use gbalancer.Heap.View.{view, add-remove}
use gbalancer.Scheduler.Places.{unplaced_out}
use gbalancer.Pool.{push, pop, less, swap, rank}
use gbalancer.Shuffle.{sort_strings}
use gbalancer.Scheduler.{new_scheduler, dispatch, on_status}
use gbalancer.Scheduler.Serve.{on_job}
use gbalancer.Wrangler.Probe.{Network, new_http}
use gbalancer.Wrangler.{World, Settings, http, add_directors, choose_driver, build_active_backends}
use gbalancer.Wrangler.Drivers.{is_up, Reports, build_active_backends-Reports}
use gbalancer.Wrangler.Galera.{Cluster, Galera, probe_of, build_galera, rows}
use gbalancer.Wrangler.Galera.Laws.{Confirmed, build_galera-Confirmed}
use gbalancer.Config.{
  Configuration, defaults, load_config, add_listen, ListenAddr, get_listen_addrs,
}
use gbalancer.Config.Laws.{print, own, load_config-get_listen_addrs}
use gbalancer.Tests.States.{two_up, two_up-Inv}

take_top-Taken_example :
    Returns
      (λ (b, q).
        Taken two_up.pool b q
        × ((c : ℕ) → InPool two_up.pool c → rank two_up.pool b ≤ rank two_up.pool c))
      (take_top two_up.pool)
unfolding on_job dispatch on_status new_scheduler sort_strings add push up less new_backend take_top
    swap down pop
take_top-Taken_example = take_top-Taken two_up.pool two_up-Inv.places.ordered (omega arith)

add-remove_example :
    Returns
      (λ q.
        (i : ℕ) × ((q.mem 5).index ≡ some i)
        × Returns (λ (d, u). (d ≡ 5) × IsOrdered u × (view u ≡ view two_up.pool)) (remove q i))
      (add two_up.pool 5)
unfolding on_job dispatch on_status new_scheduler sort_strings add push up less new_backend take_top
    swap down pop
add-remove_example =
    add-remove two_up.pool 5 two_up-Inv.places.ordered (omega arith)
      (unplaced_out two_up.pool 5 two_up-Inv.places.ordered refl)

abbrev cluster : Cluster
cluster = record {
  ask = λ dsn. rows (("wsrep_incoming_addresses", "a,b") ∷ ("wsrep_connected", "ON") ∷ []);
  arrive = λ addrs. addrs;
}

abbrev nodes : Galera
nodes = record { user = "u"; pass = "p"; director = "a" ∷ [] }

build_galera-Confirmed_example : Confirmed (probe_of cluster nodes) (build_galera cluster nodes).1.0
build_galera-Confirmed_example = build_galera-Confirmed cluster nodes

abbrev network : Network
network = record {
  dial = λ a. refused (op_error "dial");
  get = λ a. none;
  command = λ c a. none;
  arrive = λ l. l;
}

-- only the first backend answers
abbrev web : World
web = record {
  network = record network { get = λ u. if str_eq u "http://a/" then none else some other_error };
  cluster = cluster;
}

abbrev web_settings : Settings
web_settings = record {
  service = "http";
  ext_command = "";
  user = "";
  pass = "";
  backend = "a" ∷ "b" ∷ [];
}

build_active_backends-Reports_example :
    Reports
      (is_up web_settings web.network)
      ("a" ∷ "b" ∷ [])
      (build_active_backends web (add_directors (http new_http) ("a" ∷ "b" ∷ []))).1
unfolding choose_driver
build_active_backends-Reports_example =
    build_active_backends-Reports web web_settings (http new_http) "a" ("b" ∷ []) refl refl refl
      (λ a. refl)

abbrev addresses : List ListenAddr
addresses =
    record { net = bytes "tcp"; addr = bytes "127.0.0.1:3306" }
    ∷ record { net = bytes "unix"; addr = bytes "/tmp/my.sock" }
    ∷ []

-- the file gives these addresses, and leaves the address and the port at their defaults
abbrev decoded : Configuration → Configuration × Bool
decoded c = (record c { listen = map print addresses }, true)

abbrev loaded : Configuration
loaded = record (decoded defaults).0 {
  listen = map print addresses ++ bytes "tcp://127.0.0.1:3306" ∷ [];
}

load_config-get_listen_addrs_example :
    get_listen_addrs loaded.listen ≡ (addresses ++ own (decoded defaults).0 ∷ [], true)
unfolding load_config add_listen
load_config-get_listen_addrs_example =
    load_config-get_listen_addrs decoded loaded addresses
      (((ground arith), refl), (((ground arith), refl), tt)) refl refl
