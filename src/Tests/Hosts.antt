-- ===== src/Tests/Hosts.antt =====
-- The theorem on the networks of a host at a concrete one.
use Prim.Native.String.{String}
use text.Mathlib.Text.{◌==◌ as str_eq}
use text.Mathlib.TextEquality.{eq_iff}
use gbalancer.Prelude.{
  Bool, true, false, ◌&&◌, ◌≡◌, refl, ◌∙◌, List, [], ◌∷◌, Option, none, some, map, arith,
  if◌then◌else◌,
}
use gbalancer.Prelude.Dict.{Dict, insert, delete, lookup, has, lookup-insert, lookup-delete}
use gbalancer.Texts.{occurs}
use gbalancer.Libvirt.{
  Libvirt, Interface, VirNet, net_xml, network_name, is_eligible, name_of, create_required_network,
}
use gbalancer.Libvirt.Contract.{is, IsLibvirt, is_required}
use gbalancer.Libvirt.Laws.{create_required_network-active}

abbrev loopback : Interface
loopback = record { name = "lo"; is_loopback = true; is_point_to_point = false }

abbrev first : Interface
first = record { name = "eno16777736"; is_loopback = false; is_point_to_point = false }

abbrev second : Interface
second = record { name = "eth1"; is_loopback = false; is_point_to_point = false }

-- the names of the descriptions of the two networks
abbrev reads : String → Option String
reads xml =
    if str_eq (net_xml "vnet-eno16777736" first) xml
    then some "vnet-eno16777736"
    else if str_eq (net_xml "vnet-eth1" second) xml
    then some "vnet-eth1"
    else none

-- the networks of `rest` that are in the given state on the host
abbrev pick : Bool → Dict Bool → Dict Bool → List String
pick active host [] = []
pick active host ((n, up) ∷ rest) =
    if is active (lookup n host) then n ∷ pick active host rest else pick active host rest

abbrev define : Dict Bool → String → Dict Bool × Option String
define host xml = elim (reads xml) [
  | none ↦ (host, none)
  | some n ↦ elim (lookup n host) [ none ↦ (insert n false host, some n) | some up ↦ (host, none) ]
]

-- a host by its networks, with whether they are active
abbrev hosts : Libvirt
hosts = record {
  State = Dict Bool;
  Network = String;
  connects = λ host. true;
  list_all_networks = λ active host. pick active host host;
  get_name = λ n. some n;
  undefine = λ host n. if is false (lookup n host) then delete n host else host;
  define_xml = define;
  create = λ host n. insert n true host;
}

abbrev status : Dict Bool → String → Option Bool
status host n = lookup n host

occurs-pick :
    (active : Bool) (host rest : Dict Bool) (n : String)
    → occurs n (map (name_of hosts) (pick active host rest))
      ≡ (has (lookup n rest) && is active (lookup n host))
unfolding name_of lookup
occurs-pick active host [] n = refl
occurs-pick active host ((m, up) ∷ rest) n =
    ground (arith, occurs-pick active host rest n, eq_iff m n)

is_has : (active : Bool) (o : Option Bool) → (has o && is active o) ≡ is active o
is_has active none = refl
is_has active (some a) = refl

hosts-IsLibvirt : IsLibvirt hosts status reads
unfolding name_of
hosts-IsLibvirt = record {
  listed = λ active host n. occurs-pick active host host n ∙ is_has active (lookup n host);
  undefined = λ host v n. ground (arith, lookup-delete v n host, eq_iff v n);
  defined = λ host xml n e free. (
    insert n false host,
    (n, rw (e, define, free) refl, refl, λ x. lookup-insert n x false host),
  );
  created = λ host v x off. lookup-insert v x true host;
}

abbrev same_order : Dict VirNet → Dict VirNet
same_order d = d

abbrev interfaces : List Interface
interfaces = loopback ∷ first ∷ second ∷ []

abbrev host : Dict Bool
host = ("default", true) ∷ ("vnet-eth1", false) ∷ []

create_required_network-active_example :
    (t : Dict Bool) × ((left : Dict VirNet) × (create_required_network hosts
          (some interfaces)
          same_order
          []
          host
        ≡ some (t, left))
      × ((n : String)
          → status t n ≡ (if is_required interfaces n then some true else status host n)))
unfolding net_xml network_name is_eligible
create_required_network-active_example =
    create_required_network-active reads hosts status hosts-IsLibvirt interfaces same_order host
      ((λ e. cc), (λ e. refl, (λ e. refl, tt))) (record { distinct = λ d h. h; same = λ d n. refl })
      refl
