-- ===== src/Tests/Races.antt =====
-- Two goroutines fail on the connection of one tunnel.
use gbalancer.Prelude.{◌+◌, ◌≤◌, refl, [], ◌∷◌, none, some, arith, if◌then◌else◌}
use gbalancer.Prelude.Lists.{mult}
use gbalancer.Backend.Race.{
  Tunnel, start, Reaches, here, later, reads, fails, swaps, loses, reports, switch_reads,
  switch_closes, switch_writes,
}
use gbalancer.Backend.Race.Laws.{is_at, reported-once}

abbrev put_in : Tunnel
put_in = record start { conn = some 0; next = 1 }

abbrev both_failed : Tunnel
both_failed = record put_in { broken = 0 ∷ 0 ∷ [] }

abbrev settled : Tunnel
settled = record put_in { conn = none; closed = 0 ∷ []; reported = 0 ∷ [] }

to_put_in : Reaches start put_in
to_put_in =
    later (later (later here (switch_reads refl refl)) (switch_closes none refl refl))
      (switch_writes refl refl)

to_both_failed : Reaches start both_failed
to_both_failed =
    later
      (later (later (later to_put_in (reads 0 refl refl)) (reads 0 refl refl))
        (fails 0 (omega arith) refl))
      (fails 0 (omega arith) refl)

to_settled : Reaches start settled
to_settled =
    later
      (later (later to_both_failed (swaps 0 (omega arith) refl refl))
        (loses 0 (omega arith) (λ e. cc) refl))
      (reports 0 (omega arith) refl)

reported-once_example :
    mult 0 settled.reported + mult 0 settled.swapped + (if is_at settled.conn 0 then 1 else 0) ≤ 1
reported-once_example = reported-once settled 0 to_settled
