-- ===== src/Tests/Tools.antt =====
-- The theorems on commands, addresses and the kernel at concrete inputs.
use Prim.Native.String.{String}
use text.Mathlib.Text.{◌==◌ as str_eq}
use text.Mathlib.TextEquality.{eq_iff}
use gbalancer.Prelude.{
  ℕ, ◌≡◌, refl, Bool, true, false, not, ◌&&◌, ◌||◌, List, [], ◌∷◌, Option, none, some, arith, ◌==◌,
  if◌then◌else◌,
}
use gbalancer.Prelude.Dict.{Dict, has, insert, delete, lookup}
use gbalancer.Ipvs.{new_ipvs, event_loop}
use gbalancer.Ipvs.Kernel.{Kernel, run_all, event_loop-kernel}
use gbalancer.Pipeline.{in_order, monitor-kernel}
use gbalancer.Backend.{
  Backend, ConnTunnel, new_backend, forwarder_new_connection, refused, op_error, other_error,
}
use gbalancer.Backend.Forward.{
  AllWorn, AllBroken, Chosen, stream_or_dial, forwarder_new_connection-Chosen,
}
use gbalancer.Wrangler.{World, Settings, Wrangler, ext, new_wrangler, add_director, monitor}
use gbalancer.Wrangler.Probe.{add_ext, new_ext, build_ext}
use gbalancer.Wrangler.Galera.{rows}

abbrev Table : Type 0
Table = String → String → Bool

-- a virtual server's real servers, changed by the commands of six words or more
abbrev run_words : List String → Table → Table
run_words (p ∷ op ∷ f ∷ t ∷ r ∷ a ∷ rest) s =
    if str_eq op "-a"
    then (λ u x. (str_eq u t && str_eq a x) || s u x)
    else if str_eq op "-d"
    then (λ u x. not (str_eq u t && str_eq a x) && s u x)
    else s
run_words _ s = s

abbrev pub tables : Kernel
tables = record {
  State = Table;
  run = run_words;
  exists = λ k t. true;
  serves = λ k t a. k t a;
  add_exists = λ k t a up. refl;
  add_serves = λ k t a x up. rw ((eq_iff t t).1 refl) refl;
  delete_exists = λ k t a up. refl;
  delete_serves = λ k t a x up. rw ((eq_iff t t).1 refl) refl;
}

abbrev pub empty_table : Table
empty_table u x = false

abbrev first_message : Dict ℕ
first_message = ("10.0.0.1:80", 1) ∷ ("10.0.0.2:80", 1) ∷ []

abbrev second_message : Dict ℕ
second_message = ("10.0.0.2:80", 1) ∷ []

event_loop-kernel_example :
    run_all tables
      (event_loop (first_message ∷ second_message ∷ []) (new_ipvs "vip" "80" "wlc")).commands
      empty_table
      "vip:80"
      "10.0.0.1:80"
    ≡ false
unfolding new_ipvs lookup
event_loop-kernel_example =
    event_loop-kernel tables "vip" "80" "wlc" (first_message ∷ []) second_message empty_table
      "10.0.0.1:80" refl (λ x. refl)

abbrev pub settings : Settings
settings = record {
  service = "ext";
  ext_command = "/check";
  user = "";
  pass = "";
  backend = "10.0.0.1:80" ∷ "10.0.0.2:80" ∷ [];
}

-- the check fails for one backend
abbrev pub world : String → World
world broken = record {
  network = record {
    dial = λ a. refused (op_error "dial");
    get = λ a. none;
    command = λ c a. if str_eq a broken then some other_error else none;
    arrive = λ l. l;
  };
  cluster = record { ask = λ dsn. rows []; arrive = λ addrs. addrs };
}

abbrev pub wrangler : Wrangler
wrangler = record {
  health_exec =
      ext (record { ext_command = "/check"; director = "10.0.0.1:80" ∷ "10.0.0.2:80" ∷ [] });
  backends = [];
  sent = [];
}

monitor-kernel_example :
    run_all tables
      (event_loop
        (in_order (monitor (world "10.0.0.2:80" ∷ world "10.0.0.1:80" ∷ []) wrangler).sent)
        (new_ipvs "vip" "80" "wlc")).commands
      empty_table
      "vip:80"
      "10.0.0.1:80"
    ≡ has (
        lookup "10.0.0.1:80"
          (monitor (world "10.0.0.2:80" ∷ world "10.0.0.1:80" ∷ []) wrangler).backends)
unfolding new_ipvs lookup insert delete new_wrangler add_director monitor add_ext new_ext build_ext
monitor-kernel_example =
    monitor-kernel tables settings wrangler (world "10.0.0.2:80" ∷ world "10.0.0.1:80" ∷ []) "vip"
      "80" "wlc" empty_table "10.0.0.1:80" "10.0.0.2:80" refl refl refl (λ x. refl)

abbrev tunnel : ℕ → ConnTunnel
tunnel c = record { conn = some c; tcp_addr = none; switching = false }

-- the next round starts with the first tunnel, which makes no stream any more
abbrev tunnelled : Backend
tunnelled = record (new_backend "10.0.0.1:80" 2 0) { tunnel = tunnel 3 ∷ tunnel 4 ∷ [] }

abbrev second_only : ℕ → Option ℕ
second_only c = if c == 4 then some 9 else none

forwarder_new_connection-Chosen_example :
    let (d, after, failed) =
      forwarder_new_connection second_only (λ a. refused (op_error "dial")) tunnelled in
    (stream : Option ℕ) × (d ≡ stream_or_dial (λ a. refused (op_error "dial")) tunnelled stream)
    × Chosen second_only tunnelled 0 2 stream
    × AllWorn second_only tunnelled after
    × AllBroken second_only tunnelled failed
unfolding new_backend
forwarder_new_connection-Chosen_example =
    forwarder_new_connection-Chosen second_only (λ a. refused (op_error "dial")) tunnelled
      (λ e. omega arith)
