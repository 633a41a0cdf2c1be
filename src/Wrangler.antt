-- ===== src/Wrangler.antt =====
-- wrangler/wrangler.go: the monitor of the backends, over a driver that finds the active ones.
pub mod Probe
pub mod Galera
pub mod Drivers
pub mod Sync
use Prim.Native.String.{String}
use text.Mathlib.Text.{◌==◌ as str_eq}
use gbalancer.Prelude.{ℕ, zero, suc, List, [], ◌∷◌, ◌++◌, Option, none, some, if◌then◌else◌, ltb}
use gbalancer.Prelude.Dict.{Dict, lookup, insert, delete}
use gbalancer.Prelude.Lists.{length}
use Probe.{
  Network, Answer, Tcp, Http, Ext, new_tcp, new_http, new_ext, add_tcp, add_http, add_ext,
  build_tcp, build_http, build_ext,
}
use Galera.{Cluster, new_galera, add_galera, build_galera}

-- the implementations of healthDriver
pub data Driver : Type 0 where
  galera : Galera.Galera → Driver
  tcp : Tcp → Driver
  http : Http → Driver
  ext : Ext → Driver

-- what the drivers call
pub record World : Type 0 where
  pub network : Network
  pub cluster : Cluster

unfoldable pub add_director : Driver → String → Driver
add_director (galera c) b = galera (add_galera c b).0
add_director (tcp t) b = tcp (add_tcp t b).0
add_director (http t) b = http (add_http t b).0
add_director (ext t) b = ext (add_ext t b).0

unfoldable pub build_active_backends : World → Driver → Driver × Answer
build_active_backends w (galera c) =
    let (c', answer) = build_galera w.cluster c in (galera c', answer)
build_active_backends w (tcp t) = (tcp t, build_tcp w.network t)
build_active_backends w (http t) = (http t, build_http w.network t)
build_active_backends w (ext t) = (ext t, build_ext w.network t)

-- the part of a Configuration that NewWrangler reads
pub record Settings : Type 0 where
  pub service : String
  pub ext_command : String
  pub user : String
  pub pass : String
  pub backend : List String

-- A Wrangler with the maps that it has sent on BackChan, the latest first.
pub record Wrangler : Type 0 where
  pub health_exec : Driver
  pub backends : Dict ℕ
  pub sent : List (Dict ℕ)

unfoldable pub add_directors : Driver → List String → Driver
add_directors d [] = d
add_directors d (b ∷ bs) = add_directors (add_director d b) bs

-- the driver of a service; `none` where NewWrangler ends the process
unfoldable pub choose_driver : Settings → Option Driver
choose_driver c =
    if str_eq c.service "galera"
    then some (galera (new_galera c.user c.pass))
    else if str_eq c.service "tcp"
    then some (tcp new_tcp)
    else if str_eq c.service "http"
    then some (http new_http)
    else if str_eq c.service "ext"
    then (if str_eq c.ext_command "" then none else some (ext (new_ext c.ext_command)))
    else none

-- NewWrangler
unfoldable pub new_wrangler : Settings → Option Wrangler
unfolding choose_driver add_directors
new_wrangler c = elim (choose_driver c) [
  | none ↦ none
  | some d ↦ some (record { health_exec = add_directors d c.backend; backends = []; sent = [] })
]

-- the loop that removes the backends that are not active, over the ones of the map
unfoldable pub drop_failed : Dict ℕ → Dict ℕ → Dict ℕ → Dict ℕ
drop_failed active [] m = m
drop_failed active ((b, v) ∷ rest) m =
    drop_failed active rest (elim (lookup b active) [ none ↦ delete b m | some _ ↦ m ])

-- the loop that adds the new ones
unfoldable pub add_new : Dict ℕ → Dict ℕ → Dict ℕ
add_new [] m = m
add_new ((b, v) ∷ rest) m = add_new rest (elim (lookup b m) [ none ↦ insert b v m | some _ ↦ m ])

-- ValidBackends once the driver has answered
unfoldable pub take_answer : Wrangler → Answer → Wrangler
unfolding drop_failed add_new
take_answer w (active, some e) = w
take_answer w (active, none) =
    let backends = add_new active (drop_failed active w.backends w.backends) in
    let sent = if ltb 0 (length active) then active ∷ w.sent else w.sent in
    record w { backends = backends; sent = sent }

unfoldable pub valid_backends : World → Wrangler → Wrangler
unfolding take_answer build_active_backends
valid_backends world w =
    let (d, answer) = build_active_backends world w.health_exec in
    take_answer (record w { health_exec = d }) answer

-- The first loop of Monitor over the answers of the world, second by second: it ends once some
-- backend is up. What is left of the seconds is returned too.
unfoldable pub wait_first : List World → Wrangler → Wrangler × List World
unfolding valid_backends
wait_first [] w = (w, [])
wait_first (now ∷ later) w =
    let rest = wait_first later (valid_backends now w) in
    if ltb 0 (length (valid_backends now w).backends) then (valid_backends now w, later) else rest

-- the periodic check of Monitor, tick by tick
unfoldable pub watch : List World → Wrangler → Wrangler
unfolding valid_backends
watch [] w = w
watch (now ∷ later) w = watch later (valid_backends now w)

-- Monitor
unfoldable pub monitor : List World → Wrangler → Wrangler
unfolding wait_first watch
monitor worlds w = let (u, rest) = wait_first worlds w in watch rest u
