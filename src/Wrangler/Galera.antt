-- ===== src/Wrangler/Galera.antt =====
-- wrangler/wrangler_galera.go: the driver that asks one node of a Galera cluster for the others.
pub mod Laws
use Prim.Native.String.{String, ◌++◌ as ◌<>◌}
use text.Mathlib.Text.{◌==◌ as str_eq}
use gbalancer.Prelude.{
  ℕ, ◌+◌, Bool, false, List, [], ◌∷◌, ◌++◌, Option, none, some, ◌==◌, if◌then◌else◌,
}
use gbalancer.Prelude.Dict.{Dict, lookup, insert}
use gbalancer.Prelude.Lists.{get_elem?, set}
use gbalancer.Texts.{split}
use gbalancer.Backend.{GoError, other_error}
use gbalancer.Wrangler.Probe.{Answer, flag_up, receive}

abbrev pub wsrep_addresses : String
wsrep_addresses = "wsrep_incoming_addresses"

abbrev pub wsrep_connected : String
wsrep_connected = "wsrep_connected"

-- what database/sql answers to `show status` for a data source: an error of Open, an error of
-- Query, or the rows
pub data Sql : Type 0 where
  open_failed query_failed : GoError → Sql
  rows : List (String × String) → Sql

-- The database, and the order in which the results of the started probes arrive.
pub record Cluster : Type 0 where
  pub ask : String → Sql
  pub arrive : List String → List String

pub record Galera : Type 0 where
  pub user : String
  pub pass : String
  pub director : List String

unfoldable pub new_galera : String → String → Galera
new_galera user pass = record { user = user; pass = pass; director = [] }

-- AddDirector, which returns an error though it adds the backend
unfoldable pub add_galera : Galera → String → Galera × Option GoError
add_galera c backend = (record c { director = c.director ++ backend ∷ [] }, some other_error)

abbrev pub no_status : Dict String
no_status = (wsrep_connected, "") ∷ (wsrep_addresses, "") ∷ []

-- the loop over the rows, which keeps the two keys that it knows
unfoldable pub scan : List (String × String) → Dict String → Dict String
scan [] status = status
scan ((key, value) ∷ more) status =
    scan more (elim (lookup key status) [ none ↦ status | some _ ↦ insert key value status ])

-- `val, ok := wsrep_status[WsrepConnected]; ok && val == "ON"`
unfoldable pub is_on : Option String → Bool
is_on none = false
is_on (some val) = str_eq val "ON"

unfoldable pub galera_probe : Cluster → String → String → String → Dict String × Option GoError
unfolding scan is_on
galera_probe net user pass host =
    elim (net.ask (user <> ":" <> pass <> "@tcp(" <> host <> ")/?timeout=1s")) [
      | open_failed e ↦ (no_status, some e)
      | query_failed e ↦ (no_status, some e)
      | rows rs ↦
          let status = scan rs no_status in
          (status, if is_on (lookup wsrep_connected status) then none else some other_error)
    ]

abbrev pub probe_of : Cluster → Galera → String → Option GoError
probe_of net c addr = (galera_probe net c.user c.pass addr).1

-- `c.Director[0], c.Director[i] = c.Director[i], c.Director[0]`
unfoldable pub swap_front : List String → ℕ → List String
swap_front ds i = elim (get_elem? ds 0) [
  | none ↦ ds
  | some first ↦ elim (get_elem? ds i) [ none ↦ ds | some other ↦ set (set ds 0 other) i first ]
]

-- the addresses to probe: all but the director's own
unfoldable pub others : String → List String → List String
others dir [] = []
others dir (a ∷ rest) = if str_eq a dir then others dir rest else a ∷ others dir rest

-- `val, ok := status[WsrepAddresses]; ok && val != ""`
unfoldable pub members : Dict String → Option (List String)
members status = elim (lookup wsrep_addresses status) [
  | none ↦ none
  | some val ↦ if str_eq val "" then none else some (split b',' val)
]

-- The loop over the directors from index `i` on, with the active backends found so far. A swap
-- changes no director behind `i`, so the ones that the range is still to visit are the tail.
unfoldable pub ask_directors : Cluster → List String → ℕ → Galera → Dict ℕ → Galera × Dict ℕ
ask_directors net [] i c active = (c, active)
ask_directors net (dir ∷ dirs) i c active = elim (galera_probe net c.user c.pass dir).1 [
  | some e ↦ ask_directors net dirs (i + 1) c active
  | none ↦
      let c' = if i == 0 then c else record c { director = swap_front c.director i } in
      elim (members (galera_probe net c.user c.pass dir).0) [
        | none ↦ ask_directors net dirs (i + 1) c' (insert dir flag_up active)
        | some addrs ↦ (
          c',
          receive (probe_of net c) (net.arrive (others dir addrs)) (insert dir flag_up active),
        )
      ]
]

-- BuildActiveBackends. An empty list of directors is an error.
unfoldable pub build_galera : Cluster → Galera → Galera × Answer
unfolding ask_directors
build_galera net c = elim c.director [
  | [] ↦ (c, ([], some other_error))
  | d ∷ ds ↦ let (c', active) = ask_directors net (d ∷ ds) 0 c [] in (c', (active, none))
]
