-- ===== src/Libvirt.antt =====
-- utils/libvirt and cmd/virtnet: the networks that a host needs, over libvirt's connection, and the
-- sandbox that uses one of them.
pub mod Contract
pub mod Laws
use Prim.Native.String.{String, ◌++◌ as ◌<>◌}
use gbalancer.Prelude.{
  Bool, true, false, not, ◌&&◌, ◌||◌, List, [], ◌∷◌, Option, none, some, if◌then◌else◌,
}
use gbalancer.Prelude.Dict.{Dict, insert, delete, lookup, has}
use gbalancer.Shell.{Sandbox, new_sandbox, Ran, succeeded, failed, panicked, run}

-- A connection of libvirt-go, over the state of the host. A list that fails is empty, and every call
-- can change the state.
pub record Libvirt : Type 1 where
  pub State : Type 0
  pub Network : Type 0
  pub connects : State → Bool
  pub list_all_networks : (active : Bool) → State → List Network
  pub get_name : Network → Option String
  pub undefine : State → Network → State
  pub define_xml : State → String → State × Option Network
  pub create : State → Network → State

-- a net.Interface, as far as it is read
pub record Interface : Type 0 where
  pub name : String
  pub is_loopback : Bool
  pub is_point_to_point : Bool

-- VirNet with its VirNetInfo
pub record VirNet : Type 0 where
  pub name : String
  pub iface : Interface
  pub xml : String

-- VirtNetTemplate, executed for a name and an interface
unfoldable pub net_xml : String → Interface → String
net_xml name iface =
    "\n<network>\n  <name>" <> name <> "</name>\n  <forward mode=\"bridge\">\n    <interface dev=\""
    <> iface.name <> "\"/>\n  </forward>\n</network>\n"

-- the test on the flags of an interface
unfoldable pub is_eligible : Interface → Bool
is_eligible i = not (i.is_loopback || i.is_point_to_point)

unfoldable pub network_name : Interface → String
network_name i = "vnet-" <> i.name

unfoldable pub new_vir_net : Interface → VirNet
unfolding network_name net_xml
new_vir_net i = record { name = network_name i; iface = i; xml = net_xml (network_name i) i }

-- the loop that fills RequiredNetwork
unfoldable pub require_all : List Interface → Dict VirNet → Dict VirNet
unfolding is_eligible new_vir_net
require_all [] required = required
require_all (i ∷ ifaces) required =
    let more =
      if is_eligible i then insert (network_name i) (new_vir_net i) required else required in
    require_all ifaces more

module _ (L : Libvirt) where
  -- what GetName returns: the empty text with an error, which is only logged
  unfoldable pub name_of : L.Network → String
  name_of v = elim (L.get_name v) [ some name ↦ name | none ↦ "" ]

  -- the loop over the inactive networks
  unfoldable pub undefine_required : Dict VirNet → List L.Network → L.State → L.State
  unfolding name_of
  undefine_required required [] s = s
  undefine_required required (v ∷ nets) s =
      let t = if has (lookup (name_of v) required) then L.undefine s v else s in
      undefine_required required nets t

  -- the loop over the active networks
  unfoldable pub drop_active : List L.Network → Dict VirNet → Dict VirNet
  unfolding name_of
  drop_active [] required = required
  drop_active (v ∷ nets) required =
      let less =
        if has (lookup (name_of v) required) then delete (name_of v) required else required in
      drop_active nets less

  -- one round of the last loop
  unfoldable pub define_one : VirNet → L.State → L.State
  define_one v s =
      let (t, defined) = L.define_xml s v.xml in
      elim defined [ none ↦ t | some net ↦ L.create t net ]

  unfoldable pub define_all : Dict VirNet → L.State → L.State
  unfolding define_one
  define_all [] s = s
  define_all ((name, v) ∷ required) s = define_all required (define_one v s)

  -- CreateRequiredNetwork, given the interfaces if they can be listed, RequiredNetwork, and the order
  -- in which the last loop goes through it; `none` is log.Fatal
  unfoldable pub create_required_network :
      Option (List Interface)
      → (Dict VirNet → Dict VirNet)
      → Dict VirNet
      → L.State
      → Option (L.State × Dict VirNet)
  unfolding require_all undefine_required drop_active define_all
  create_required_network none order known s = none
  create_required_network (some ifaces) order known s =
      let required = require_all ifaces known in
      if L.connects s
      then (let t = undefine_required required (L.list_all_networks false s) s in
          let left = drop_active (L.list_all_networks true t) required in
          some (define_all (order left) t, left))
      else none

  -- what comes of RunSandbox: log.Fatal, with the networks created or not, or its end
  pub data Sandboxed : Type 0 where
    no_network : Sandboxed
    fatal ended crashed : L.State → List (List String) → Sandboxed

  -- the sandbox of RunSandbox
  unfoldable pub test_sandbox : String → Sandbox
  unfolding new_sandbox
  test_sandbox cmd = record (new_sandbox "test-sandbox" "vnet-eno16777736" cmd) {
    addr = "172.16.154.199";
  }

  unfoldable pub run_sandbox :
      Option (List Interface)
      → (Dict VirNet → Dict VirNet)
      → Dict VirNet
      → (List String → Bool)
      → String
      → L.State
      → Sandboxed
  unfolding create_required_network test_sandbox
  run_sandbox ifaces order known works cmd s = elim (create_required_network ifaces order known s) [
    | none ↦ no_network
    | some (t, left) ↦ elim (run works (test_sandbox cmd)) [
      | succeeded ran ↦ ended t ran
      | failed ran ↦ fatal t ran
      | panicked ran ↦ crashed t ran
    ]
  ]

  -- main of cmd/virtnet
  unfoldable pub main :
      Option (List Interface)
      → (Dict VirNet → Dict VirNet)
      → (List String → Bool)
      → L.State
      → Sandboxed
  unfolding run_sandbox
  main ifaces order works s = run_sandbox ifaces order [] works "/bin/bash" s
