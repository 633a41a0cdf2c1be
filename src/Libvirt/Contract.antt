-- ===== src/Libvirt/Contract.antt =====
-- What CreateRequiredNetwork relies on in libvirt, and which networks it is to leave active.
use Prim.Native.String.{String}
use text.Mathlib.Text.{◌==◌ as str_eq}
use gbalancer.Prelude.{
  Bool, true, false, not, ◌&&◌, ◌||◌, ◌≡◌, List, [], ◌∷◌, Option, none, some, map, if◌then◌else◌,
}
use gbalancer.Prelude.Dict.{Dict, lookup, Distinct}
use gbalancer.Texts.{occurs}
use gbalancer.Libvirt.{Libvirt, Interface, VirNet, net_xml, network_name, is_eligible, name_of}

-- whether a network is there, and is active or not
abbrev pub is : Bool → Option Bool → Bool
is active none = false
is true (some a) = a
is false (some a) = not a

-- What libvirt documents. `status` says of a name whether a network has it, and if it is active, and
-- `reads` which name an XML description gives to a network.
pub record IsLibvirt (L : Libvirt) (status : L.State → String → Option Bool)
    (reads : String → Option String) : Type 0 where
  pub listed :
      (active : Bool) (s : L.State) (n : String)
      → occurs n (map (name_of L) (L.list_all_networks active s)) ≡ is active (status s n)
  pub undefined :
      (s : L.State) (v : L.Network) (n : String)
      → status (L.undefine s v) n
        ≡ (if str_eq (name_of L v) n && is false (status s n) then none else status s n)
  pub defined :
      (s : L.State) (xml n : String)
      → reads xml ≡ some n
      → status s n ≡ none
      → (t : L.State) × ((v : L.Network) × (L.define_xml s xml ≡ (t, some v))
          × (name_of L v ≡ n)
          × ((x : String) → status t x ≡ (if str_eq n x then some false else status s x)))
  pub created :
      (s : L.State) (v : L.Network) (x : String)
      → status s (name_of L v) ≡ some false
      → status (L.create s v) x ≡ (if str_eq (name_of L v) x then some true else status s x)

-- the network of some interface that is no loopback and not point to point
abbrev pub is_required : List Interface → String → Bool
is_required [] n = false
is_required (i ∷ ifaces) n = (is_eligible i && str_eq (network_name i) n) || is_required ifaces n

-- the descriptions of the networks that are required give them the names that they are meant to have
abbrev pub AllRead : (String → Option String) → List Interface → Type 0
AllRead reads [] = Unit {0}
AllRead reads (i ∷ ifaces) =
    (is_eligible i ≡ true → reads (net_xml (network_name i) i) ≡ some (network_name i))
    × AllRead reads ifaces

-- the order in which a map is gone through changes neither its keys nor its values
pub record IsOrder (order : Dict VirNet → Dict VirNet) : Type 0 where
  pub distinct : (d : Dict VirNet) → Distinct d → Distinct (order d)
  pub same : (d : Dict VirNet) (n : String) → lookup n (order d) ≡ lookup n d
