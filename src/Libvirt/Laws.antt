-- ===== src/Libvirt/Laws.antt =====
-- CreateRequiredNetwork leaves every network that is required active.
use Prim.Native.String.{String}
use mathlib.Core.Option.{some-injective}
use text.Mathlib.Text.{◌==◌ as str_eq}
use text.Mathlib.TextEquality.{eq_iff}
use gbalancer.Prelude.{
  Bool, true, false, ◌&&◌, ◌||◌, ◌≡◌, refl, sym, ap, ◌∙◌, List, [], ◌∷◌, Option, none, some, map,
  arith, inl, inr, Bool-cases, if◌then◌else◌,
}
use gbalancer.Prelude.Dict.{
  Dict, insert, delete, lookup, has, Distinct, lookup-insert, lookup-delete, insert-Distinct,
  delete-Distinct,
}
use gbalancer.Texts.{occurs}
use gbalancer.Libvirt.{
  Libvirt, Interface, VirNet, net_xml, network_name, is_eligible, new_vir_net, require_all, name_of,
  undefine_required, drop_active, define_one, define_all, create_required_network,
}
use gbalancer.Libvirt.Contract.{is, IsLibvirt, is_required, AllRead, IsOrder}

module _ (reads : String → Option String) where
  -- each network has its key as its name
  abbrev IsSound : Dict VirNet → Type 0
  IsSound d = (n : String) (v : VirNet) → lookup n d ≡ some v → reads v.xml ≡ some n

  require_one-IsSound :
      (i : Interface) (d : Dict VirNet)
      → reads (net_xml (network_name i) i) ≡ some (network_name i)
      → IsSound d
      → IsSound (insert (network_name i) (new_vir_net i) d)
  unfolding new_vir_net
  require_one-IsSound i d own sound n v e = elim (Bool-cases (str_eq (network_name i) n)) [
    | inl self ↦
        let put : some (new_vir_net i) ≡ some v =
          ground (arith, e, self, lookup-insert (network_name i) n (new_vir_net i) d) in
        let name : network_name i ≡ n = (eq_iff (network_name i) n).0 self in
        ap (λ w. reads w.xml) (sym (some-injective _ _ put)) ∙ own ∙ ap some name
    | inr other ↦ sound n v (ground (arith, e, lookup-insert (network_name i) n (new_vir_net i) d))
  ]

  require_all_lem :
      (ifaces : List Interface) (d : Dict VirNet)
      → AllRead reads ifaces
      → Distinct d
      → IsSound d
      → Distinct (require_all ifaces d)
        × IsSound (require_all ifaces d)
        × ((n : String)
            → has (lookup n (require_all ifaces d)) ≡ (has (lookup n d) || is_required ifaces n))
  unfolding require_all
  require_all_lem [] d own h sound = (h, sound, λ n. ground arith)
  require_all_lem (i ∷ ifaces) d own h sound = elim (Bool-cases (is_eligible i)) [
    | inl used ↦
        let (h', sound', keys) =
          require_all_lem ifaces (insert (network_name i) (new_vir_net i) d) own.1
            (insert-Distinct (network_name i) (new_vir_net i) d h)
            (require_one-IsSound i d (own.0 used) sound) in
        rw used (
          h',
          sound',
          λ n. ground (arith, keys n, lookup-insert (network_name i) n (new_vir_net i) d),
        )
    | inr unused ↦
        let (h', sound', keys) = require_all_lem ifaces d own.1 h sound in
        rw unused (h', sound', λ n. ground (arith, keys n))
  ]

  module _ (L : Libvirt) (status : L.State → String → Option Bool)
      (lib : IsLibvirt L status reads) where
    undefine_required_lem :
        (d : Dict VirNet) (nets : List L.Network) (s : L.State) (n : String)
        → status (undefine_required L d nets s) n ≡ (
            if (has (lookup n d) && occurs n (map (name_of L) nets)) && is false (status s n)
            then none
            else status s n)
    unfolding undefine_required
    undefine_required_lem d [] s n = ground arith
    undefine_required_lem d (v ∷ nets) s n = ground (
      arith,
      undefine_required_lem d nets s n,
      undefine_required_lem d nets (L.undefine s v) n,
      lib.undefined s v n,
      eq_iff (name_of L v) n,
    )

    drop_active_lem :
        (nets : List L.Network) (d : Dict VirNet) (n : String)
        → lookup n (drop_active L nets d)
          ≡ (if occurs n (map (name_of L) nets) then none else lookup n d)
    unfolding drop_active
    drop_active_lem [] d n = refl
    drop_active_lem (v ∷ nets) d n = ground (
      arith,
      drop_active_lem nets d n,
      drop_active_lem nets (delete (name_of L v) d) n,
      lookup-delete (name_of L v) n d,
      eq_iff (name_of L v) n,
    )

    drop_active-Distinct :
        (nets : List L.Network) (d : Dict VirNet) → Distinct d → Distinct (drop_active L nets d)
    unfolding drop_active
    drop_active-Distinct [] d h = h
    drop_active-Distinct (v ∷ nets) d h = elim (Bool-cases (has (lookup (name_of L v) d))) [
      | inl found ↦
          rw found
            (drop_active-Distinct nets (delete (name_of L v) d) (delete-Distinct (name_of L v) d h))
      | inr missing ↦ rw missing (drop_active-Distinct nets d h)
    ]

    define_one_lem :
        (v : VirNet) (n : String) (s : L.State)
        → reads v.xml ≡ some n
        → status s n ≡ none
        → (x : String)
        → status (define_one L v s) x ≡ (if str_eq n x then some true else status s x)
    unfolding define_one
    define_one_lem v n s own free x =
        let (t, (net, e, name, stays)) = lib.defined s v.xml n own free in
        rw (e, define_one) (ground (arith, name, stays x, stays n, lib.created t net x, eq_iff n n))

    define_all_lem :
        (d : Dict VirNet) (s : L.State)
        → Distinct d
        → IsSound d
        → ((n : String) → has (lookup n d) ≡ true → status s n ≡ none)
        → (n : String)
        → status (define_all L d s) n ≡ (if has (lookup n d) then some true else status s n)
    unfolding define_all lookup
    define_all_lem [] s h sound free n = refl
    define_all_lem ((name, v) ∷ d) s h sound free n =
        let self : str_eq name name ≡ true = ground (arith, eq_iff name name) in
        let one =
          define_one_lem v name s (sound name v (ground (arith, self)))
            (free name (ground (arith, self))) in
        rw
          (define_all_lem d (define_one L v s) h.1
            (λ m w e. sound m w (ground (arith, e, h.0, eq_iff name m)))
            (λ m found. ground (arith, free m, one m, found, h.0, eq_iff name m)) n)
          (ground (arith, one n, eq_iff name n, h.0))

    -- If the connection to libvirt can be made, its interfaces can be listed, and libvirt keeps to what
    -- it documents and reads from each description the name that it was given, CreateRequiredNetwork on
    -- an empty RequiredNetwork returns, in whatever order it goes through its map: then the network of
    -- each interface that is no loopback and not point to point is active, whether it was missing,
    -- inactive or active before, and every other network is as it was.
    pub create_required_network-active :
        (ifaces : List Interface) (order : Dict VirNet → Dict VirNet) (s : L.State)
        → AllRead reads ifaces
        → IsOrder order
        → L.connects s ≡ true
        → (t : L.State) × ((left : Dict VirNet) × (create_required_network L
                (some ifaces)
                order
                []
                s
              ≡ some (t, left))
            × ((n : String)
                → status t n ≡ (if is_required ifaces n then some true else status s n)))
    unfolding create_required_network lookup
    create_required_network-active ifaces order s own o connected =
        let (h, sound, keys) = require_all_lem ifaces [] own tt (λ n v e. cc) in
        let required = require_all ifaces [] in
        let idle = L.list_all_networks false s in
        let t = undefine_required L required idle s in
        let up = L.list_all_networks true t in
        let left = drop_active L up required in
        let free : (n : String) → has (lookup n (order left)) ≡ true → status t n ≡ none =
          λ n found. ground (
            arith,
            undefine_required_lem required idle s n,
            lib.listed false s n,
            lib.listed true t n,
            drop_active_lem up required n,
            o.same left n,
            found,
          ) in
        let all =
          define_all_lem (order left) t (o.distinct left (drop_active-Distinct up required h))
            (λ n v e. sound n v (ground (arith, e, o.same left n, drop_active_lem up required n)))
            free in
        rw connected (
          define_all L (order left) t,
          (
            left,
            refl,
            λ n. ground (
              arith,
              all n,
              undefine_required_lem required idle s n,
              lib.listed true t n,
              lib.listed false s n,
              drop_active_lem up required n,
              o.same left n,
              keys n,
            ),
          ),
        )
