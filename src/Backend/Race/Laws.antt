-- ===== src/Backend/Race/Laws.antt =====
-- A connection that fails is reported once, however many goroutines fail on it.
use gbalancer.Prelude.{
  ℕ, ◌+◌, ◌≤◌, ◌≡◌, ◌<◌, refl, Bool, false, List, [], ◌∷◌, Option, none, some, arith, ◌==◌,
  if◌then◌else◌,
}
use gbalancer.Prelude.Lists.{mult}
use gbalancer.Backend.Race.{
  Tunnel, start, leave, Step, reads, creates, fails, swaps, loses, reports, switch_reads,
  switch_closes, switch_writes, Reaches, here, later,
}

abbrev pub is_at : Option ℕ → ℕ → Bool
is_at none c = false
is_at (some d) c = d == c

-- a connection in the tunnel, swapped out or reported
abbrev uses : Tunnel → ℕ → ℕ
uses s c = mult c s.reported + mult c s.swapped + (if is_at s.conn c then 1 else 0)

record Inv (s : Tunnel) : Type 0 where
  once : (c : ℕ) → uses s c ≤ 1
  unused : (c : ℕ) → s.next ≤ c → uses s c ≡ 0

mult-leave :
    (c x : ℕ) (xs : List ℕ)
    → 0 < mult c xs
    → (if c == x then 1 else 0) + mult x (leave c xs) ≡ mult x xs
mult-leave c x [] h = omega (arith, h)
mult-leave c x (y ∷ ys) h = ground (arith, mult-leave c x ys)

Step-Inv : (s t : Tunnel) → Inv s → Step s t → Inv t
Step-Inv s t h (reads c at to) = rw to (record { once = h.once; unused = h.unused })
Step-Inv s t h (creates c on to) = rw to (record { once = h.once; unused = h.unused })
Step-Inv s t h (fails c on to) = rw to (record { once = h.once; unused = h.unused })
Step-Inv s t h (swaps c on at to) = rw to (record {
  once = λ x. ground (arith, h.once x, at);
  unused = λ x n. ground (arith, h.unused x n, at);
})
Step-Inv s t h (loses c on off to) = rw to (record { once = h.once; unused = h.unused })
Step-Inv s t h (reports c on to) = rw to (record {
  once = λ x. ground (arith, h.once x, mult-leave c x s.swapped on);
  unused = λ x n. ground (arith, h.unused x n, mult-leave c x s.swapped on);
})
Step-Inv s t h (switch_reads at to) = rw to (record { once = h.once; unused = h.unused })
Step-Inv s t h (switch_closes from at to) = rw to (record { once = h.once; unused = h.unused })
Step-Inv s t h (switch_writes at to) = rw to (record {
  once = λ x. ground (arith, h.once x, h.unused x);
  unused = λ x n. ground (arith, h.unused x);
})

Reaches-Inv : (t : Tunnel) → Reaches start t → Inv t
Reaches-Inv t here = record { once = λ c. omega arith; unused = λ c n. refl }
Reaches-Inv t (later {t = s} before step) = Step-Inv s t (Reaches-Inv s before) step

-- However the goroutines and the scheduler interleave on a tunnel, a connection is at most once in one
-- of three places: in the tunnel, swapped out by a goroutine, or sent to `failChan`. So it is sent there
-- at most once, by however many goroutines it is found to be broken, and one that is in the tunnel has
-- not been sent.
pub reported-once :
    (t : Tunnel) (c : ℕ)
    → Reaches start t
    → mult c t.reported + mult c t.swapped + (if is_at t.conn c then 1 else 0) ≤ 1
reported-once t c r = (Reaches-Inv t r).once c
