-- ===== src/Net.antt =====
-- utils/utils.go: GetFirstIPAddr and GetIPAddrs.
pub mod Laws
use Prim.Native.String.{String}
use gbalancer.Prelude.{List, [], ◌∷◌, Option, none, some, Bool, true, false, if◌then◌else◌}

-- An address of an interface: an IPNet with an IPv4 address, whether that is a loopback address and
-- how it is written, an IPNet without one, or something else.
pub data IfAddr : Type 0 where
  ip4 : (loopback : Bool) → String → IfAddr
  ip6 other : IfAddr

-- An interface, whether FlagLoopback is set, and what Addrs returns.
pub record Interface : Type 0 where
  pub loopback : Bool
  pub addrs : Option (List IfAddr)

-- what a search comes to; `fatal` is log.Fatal
pub data Search : Type 0 where
  missing fatal : Search
  found : String → Search

-- the loop over the addresses of one interface
unfoldable pub first_of : List IfAddr → Search
first_of [] = missing
first_of (other ∷ rest) = fatal
first_of (ip6 ∷ rest) = first_of rest
first_of (ip4 true a ∷ rest) = first_of rest
first_of (ip4 false a ∷ rest) = found a

-- GetFirstIPAddr
unfoldable pub get_first_ip_addr : List Interface → Search
unfolding first_of
get_first_ip_addr [] = missing
get_first_ip_addr (i ∷ ifaces) =
    let next = get_first_ip_addr ifaces in
    if i.loopback then next else elim i.addrs [
      | none ↦ next
      | some addrs ↦ elim (first_of addrs) [ missing ↦ next | fatal ↦ fatal | found a ↦ found a ]
    ]

-- GetIPAddrs over the addresses of all interfaces; `none` is log.Fatal
unfoldable pub get_ip_addrs : List IfAddr → Option (List String)
get_ip_addrs [] = some []
get_ip_addrs (other ∷ rest) = none
get_ip_addrs (ip6 ∷ rest) = get_ip_addrs rest
get_ip_addrs (ip4 true a ∷ rest) = get_ip_addrs rest
get_ip_addrs (ip4 false a ∷ rest) = some (a ∷ [])
