-- ===== src/Net/Laws.antt =====
-- The searches for an address, as searches of one list.
use Prim.Native.String.{String}
use gbalancer.Prelude.{
  ◌≡◌, refl, ap, sym, ◌∙◌, true, false, List, [], ◌∷◌, ◌++◌, Option, none, some, if◌then◌else◌,
  Bool-cases, Option-cases, inl, inr,
}
use gbalancer.Net.{
  IfAddr, ip4, ip6, other, Interface, Search, missing, fatal, found, first_of, get_first_ip_addr,
  get_ip_addrs,
}

-- the addresses of the interfaces that are no loopbacks and have a list of them
abbrev pub usable : List Interface → List IfAddr
usable [] = []
usable (i ∷ ifaces) =
    if i.loopback
    then usable ifaces
    else elim i.addrs [ none ↦ usable ifaces | some addrs ↦ addrs ++ usable ifaces ]

-- the first search that finds anything
abbrev or_else : Search → Search → Search
or_else missing s = s
or_else fatal s = fatal
or_else (found a) s = found a

first_of-append : (xs ys : List IfAddr) → first_of (xs ++ ys) ≡ or_else (first_of xs) (first_of ys)
unfolding first_of
first_of-append [] ys = refl
first_of-append (other ∷ xs) ys = refl
first_of-append (ip6 ∷ xs) ys = first_of-append xs ys
first_of-append (ip4 true a ∷ xs) ys = first_of-append xs ys
first_of-append (ip4 false a ∷ xs) ys = refl

then_next :
    (x next : Search) (ys : List IfAddr)
    → next ≡ first_of ys
    → (elim x [ missing ↦ next | fatal ↦ fatal | found a ↦ found a ]) ≡ or_else x (first_of ys)
then_next missing next ys e = e
then_next fatal next ys e = refl
then_next (found a) next ys e = refl

get_first_lem : (ifaces : List Interface) → get_first_ip_addr ifaces ≡ first_of (usable ifaces)
unfolding get_first_ip_addr first_of
get_first_lem [] = refl
get_first_lem (i ∷ ifaces) = elim (Bool-cases i.loopback) [
  | inl loops ↦ rw (loops, get_first_ip_addr) (get_first_lem ifaces)
  | inr real ↦ elim (Option-cases i.addrs) [
    | inl unknown ↦ rw (real, unknown, get_first_ip_addr) (get_first_lem ifaces)
    | inr (addrs, known) ↦
        rw (real, known, get_first_ip_addr)
          (then_next (first_of addrs) (get_first_ip_addr ifaces) (usable ifaces)
              (get_first_lem ifaces)
            ∙ sym (first_of-append addrs (usable ifaces)))
  ]
]

-- the addresses that a search finds
abbrev pub listed : Search → Option (List String)
listed missing = some []
listed fatal = none
listed (found a) = some (a ∷ [])

get_ip_addrs_lem : (xs : List IfAddr) → get_ip_addrs xs ≡ listed (first_of xs)
unfolding get_ip_addrs first_of
get_ip_addrs_lem [] = refl
get_ip_addrs_lem (other ∷ xs) = refl
get_ip_addrs_lem (ip6 ∷ xs) = get_ip_addrs_lem xs
get_ip_addrs_lem (ip4 true a ∷ xs) = get_ip_addrs_lem xs
get_ip_addrs_lem (ip4 false a ∷ xs) = refl

-- GetIPAddrs, over the addresses of the interfaces that are no loopbacks and can list them, returns the one
-- address that GetFirstIPAddr finds on the same interfaces, and none if that finds none; both end the process
-- on the same addresses.
get_ip_addrs-usable :
    (ifaces : List Interface) → get_ip_addrs (usable ifaces) ≡ listed (get_first_ip_addr ifaces)
get_ip_addrs-usable ifaces =
    get_ip_addrs_lem (usable ifaces) ∙ ap listed (sym (get_first_lem ifaces))
