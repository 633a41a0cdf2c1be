-- ===== src/Ipvs.antt =====
-- engine/ipvs/ipvs.go: the director that keeps the kernel's virtual server in step.
pub mod Sync
pub mod Loop
pub mod Kernel
use Prim.Native.String.{String, ◌++◌ as ◌<>◌}
use text.Mathlib.Text.{◌==◌ as str_eq}
use gbalancer.Prelude.{ℕ, Bool, true, false, List, [], ◌∷◌, ◌++◌, Option, none, some, if◌then◌else◌}
use gbalancer.Prelude.Dict.{Dict, lookup, insert, delete}
use gbalancer.Texts.{fields}

-- An IPvs with the commands that it has run, oldest first, each as its words. `persist` is the
-- number 300 in decimal.
pub record Ipvs : Type 0 where
  pub addr : String
  pub port : String
  pub scheduler : String
  pub backends : Dict String
  pub persist : String
  pub commands : List (List String)

abbrev pub ipvs_local_addr : String
ipvs_local_addr = "127.1.1.1"

-- NewIPvs
unfoldable pub new_ipvs : String → String → String → Ipvs
new_ipvs addr port sch = record {
  addr = addr;
  port = port;
  scheduler = sch;
  backends = [];
  persist = "300";
  commands = [];
}

-- exec.Command; a failure is logged
abbrev pub exec : List String → Ipvs → Ipvs
exec words i = record i { commands = i.commands ++ words ∷ [] }

-- runCommand: strings.Fields of a line whose only white space is blanks
unfoldable pub run_command : String → Ipvs → Ipvs
run_command line i = exec (fields line) i

abbrev pub service : Ipvs → String
service i = i.addr <> ":" <> i.port

unfoldable pub add_backend : Ipvs → String → Ipvs
add_backend i addr =
    record (exec ("ipvsadm" ∷ "-a" ∷ "-t" ∷ service i ∷ "-r" ∷ addr ∷ "-m" ∷ []) i) {
      backends = insert addr addr i.backends;
    }

unfoldable pub remove_backend : Ipvs → String → Ipvs
remove_backend i addr = elim (lookup addr i.backends) [
  | none ↦ i
  | some _ ↦ record (exec ("ipvsadm" ∷ "-d" ∷ "-t" ∷ service i ∷ "-r" ∷ addr ∷ []) i) {
    backends = delete addr i.backends;
  }
]

-- the first loop of the status case, over the backends `known`, with the active ones that remain
unfoldable pub review : Dict String → Dict ℕ → Ipvs → Ipvs × Dict ℕ
review [] active i = (i, active)
review ((addr, _) ∷ known) active i = elim (lookup addr active) [
  | none ↦ review known active (remove_backend i addr)
  | some _ ↦ review known (delete addr active) i
]

unfoldable pub add_all : Dict ℕ → Ipvs → Ipvs
add_all [] i = i
add_all ((addr, _) ∷ rest) i = add_all rest (add_backend i addr)

-- the status case of eventLoop
unfoldable pub on_status : Ipvs → Dict ℕ → Ipvs
on_status i active = let (j, rest) = review i.backends active i in add_all rest j

-- eventLoop over the messages that arrive before `done` is closed
unfoldable pub event_loop : List (Dict ℕ) → Ipvs → Ipvs
unfolding on_status
event_loop [] i = i
event_loop (active ∷ later) i = event_loop later (on_status i active)

unfoldable pub add_local_route : String → String → Ipvs → Ipvs
unfolding run_command
add_local_route dst src i = run_command "ip route flush cache" (
    run_command
      ("ip route add table local " <> dst <> " dev lo proto kernel scope host src " <> src) i)

unfoldable pub delete_local_route : String → Ipvs → Ipvs
unfolding run_command
delete_local_route dst i =
    run_command "ip route flush cache" (run_command ("ip route delete table local " <> dst) i)

-- LocalSchedule from the start until `done` is closed, where the virtual server is removed. The
-- process ends if the first command fails.
unfoldable pub local_schedule : (List String → Bool) → String → List (Dict ℕ) → Ipvs → Option Ipvs
unfolding add_local_route run_command event_loop
local_schedule works first_ip messages i =
    let create = "ipvsadm" ∷ "-A" ∷ "-t" ∷ service i ∷ "-s" ∷ i.scheduler ∷ [] in
    let j = event_loop messages (add_local_route i.addr first_ip (exec create i)) in
    if works create then some (run_command ("ipvsadm -D -t " <> service i) j) else none

-- RemoteSchedule, which undoes its rule and its virtual server in the opposite order
unfoldable pub remote_schedule : (List String → Bool) → String → List (Dict ℕ) → Ipvs → Option Ipvs
unfolding run_command event_loop
remote_schedule works local_addr messages i =
    let forward = "sysctl" ∷ "-w" ∷ "net.ipv4.ip_forward=1" ∷ [] in
    let conntrack = "sysctl" ∷ "-w" ∷ "net.ipv4.vs.conntrack=1" ∷ [] in
    let create = "ipvsadm" ∷ "-A" ∷ "-t" ∷ service i ∷ "-s" ∷ i.scheduler ∷ "-p" ∷ i.persist ∷ [] in
    let rule =
      "POSTROUTING -m ipvs --vaddr " <> i.addr <> "/32 --vport " <> i.port <> " -j SNAT --to "
      <> local_addr in
    let ready = exec create (exec conntrack (exec forward i)) in
    let j = event_loop messages (run_command ("iptables -t nat -A " <> rule) ready) in
    let undone =
      run_command ("ipvsadm -D -t " <> service i) (run_command ("iptables -t nat -D " <> rule) j) in
    if works forward
    then (if works conntrack then (if works create then some undone else none) else none)
    else none
