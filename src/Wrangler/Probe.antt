-- ===== src/Wrangler/Probe.antt =====
-- wrangler/wrangler_tcp.go, wrangler_http.go and wrangler_ext.go: the drivers that probe each
-- director by itself.
pub mod Laws
use Prim.Native.String.{String, ◌++◌ as ◌<>◌}
use gbalancer.Prelude.{ℕ, List, [], ◌∷◌, ◌++◌, Option, none, some, map}
use gbalancer.Prelude.Dict.{Dict, insert}
use gbalancer.Backend.{GoError, other_error, Dialed, connected, refused}

abbrev pub flag_down : ℕ
flag_down = 0

abbrev pub flag_up : ℕ
flag_up = 1

-- What the drivers call: net.DialTimeout, http.Get, a command, and the order in which the
-- results of the started probes arrive.
pub record Network : Type 0 where
  pub dial : String → Dialed
  pub get : String → Option GoError
  pub command : String → String → Option GoError
  pub arrive : List String → List String

-- what BuildActiveBackends returns
abbrev pub Answer : Type 0
Answer = Dict ℕ × Option GoError

-- The second loop of BuildActiveBackends over the results of the probes.
unfoldable pub receive : (String → Option GoError) → List String → Dict ℕ → Dict ℕ
receive probe [] active = active
receive probe (addr ∷ addrs) active =
    receive probe addrs (elim (probe addr) [ none ↦ insert addr flag_up active | some e ↦ active ])

-- BuildActiveBackends of the three drivers over their own probe. An empty list is an error.
unfoldable pub build : Network → (String → Option GoError) → List String → Answer
unfolding receive
build net probe [] = ([], some other_error)
build net probe (d ∷ ds) = (receive probe (net.arrive (d ∷ ds)) [], none)

pub record Tcp : Type 0 where
  pub director : List String

unfoldable pub new_tcp : Tcp
new_tcp = record { director = [] }

-- AddDirector, which returns an error though it adds the backend
unfoldable pub add_tcp : Tcp → String → Tcp × Option GoError
add_tcp t backend = (record t { director = t.director ++ backend ∷ [] }, some other_error)

unfoldable pub tcp_probe : Network → String → Option GoError
tcp_probe net addr = elim (net.dial addr) [ connected _ ↦ none | refused e ↦ some e ]

unfoldable pub build_tcp : Network → Tcp → Answer
unfolding build tcp_probe
build_tcp net t = build net (tcp_probe net) t.director

pub record Http : Type 0 where
  pub director : List String

unfoldable pub new_http : Http
new_http = record { director = [] }

unfoldable pub add_http : Http → String → Http × Option GoError
add_http t backend = (record t { director = t.director ++ backend ∷ [] }, some other_error)

unfoldable pub http_probe : Network → String → Option GoError
http_probe net addr = net.get ("http://" <> addr <> "/")

unfoldable pub build_http : Network → Http → Answer
unfolding build http_probe
build_http net t = build net (http_probe net) t.director

pub record Ext : Type 0 where
  pub director : List String
  pub ext_command : String

unfoldable pub new_ext : String → Ext
new_ext cmd = record { director = []; ext_command = cmd }

unfoldable pub add_ext : Ext → String → Ext × Option GoError
add_ext t backend = (record t { director = t.director ++ backend ∷ [] }, some other_error)

unfoldable pub ext_probe : Network → String → String → Option GoError
ext_probe net cmd addr = net.command cmd addr

unfoldable pub build_ext : Network → Ext → Answer
unfolding build ext_probe
build_ext net t = build net (ext_probe net t.ext_command) t.director
