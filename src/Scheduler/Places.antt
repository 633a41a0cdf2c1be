-- ===== src/Scheduler/Places.antt =====
-- What the calls of container/heap mean for the places of the backends, and what an assignment to
-- one backend leaves in order.
use gbalancer.Prelude.{
  ℕ, ◌-◌, ◌/◌, ◌<◌, ◌≡◌, inl, inr, none, some, arith, Option-cases, update, ℕ_discrete,
}
use gbalancer.Backend.{Backend}
use gbalancer.Pool.{Pool}
use gbalancer.Heap.Contract.{InPool, IsOrdered, Added, Taken}

-- a backend with a place is in the pool
abbrev pub IsPlaced : Pool → ℕ → Type 0
IsPlaced p b = (i : ℕ) → (p.mem b).index ≡ some i → InPool p b

pub InPool-index :
    (p : Pool) (b i : ℕ)
    → IsOrdered p
    → InPool p b
    → (p.mem b).index ≡ some i
    → (i < p.len) × (p.slots i ≡ b)
InPool-index p b i w (k, hk, e) h = ground (arith, w.indexed k hk)

pub unplaced_out : (p : Pool) (b : ℕ) → IsOrdered p → (p.mem b).index ≡ none → ¬ InPool p b
unplaced_out p b w h (k, hk, e) = ground (arith, w.indexed k hk)

pub Taken-IsPlaced :
    (p q : Pool) (b c : ℕ) → IsOrdered p → Taken p b q → IsPlaced p c → IsPlaced q c
Taken-IsPlaced p q b c w t h i e = elim (Option-cases (p.mem c).index) [
  | inl out ↦ absurd (ground (arith, t.others c (unplaced_out p c w out)))
  | inr (j, at) ↦ elim ((t.entries c).0 (h j at)) [
    | inl same ↦ absurd (ground (arith, t.unplaced))
    | inr still ↦ still
  ]
]

pub Added-IsPlaced :
    (p q : Pool) (b c : ℕ) → IsOrdered p → Added p b q → IsPlaced p c → IsPlaced q c
Added-IsPlaced p q b c w t h i e = elim (ℕ_discrete c b) [
  | yes same ↦ (t.entries c).1 (inl same)
  | no other ↦ elim (Option-cases (p.mem c).index) [
    | inl out ↦ absurd (ground (arith, t.others c other (unplaced_out p c w out)))
    | inr (j, at) ↦ (t.entries c).1 (inr (h j at))
  ]
]

-- an assignment to the object of `b`
abbrev pub assign : Pool → ℕ → Backend → Pool
assign p b v = record p { mem = update p.mem b v }

-- off the heap, an object may be replaced
pub replaced_out :
    (p : Pool) (b : ℕ) (v : Backend) → IsOrdered p → ¬ InPool p b → IsOrdered (assign p b v)
replaced_out p b v w out = record {
  fits = w.fits;
  indexed = λ i hi. ground (arith, w.indexed i, λ (e : p.slots i ≡ b). out (i, hi, e));
  heap = λ c h0 hc. ground (
    arith,
    w.heap c h0 hc,
    λ (e : p.slots c ≡ b). out (c, hc, e),
    λ (e : p.slots ((c - 1) / 2) ≡ b). out ((c - 1) / 2, omega arith, e),
  );
}

module _ (p : Pool) (b : ℕ) (v : Backend) (same : v.index ≡ (p.mem b).index) where
  pub assigned-IsPlaced : (c : ℕ) → IsPlaced p c → IsPlaced (assign p b v) c
  assigned-IsPlaced c h i e = h i (ground arith)

  -- on the heap, anything but the place and what the heap is ordered by
  pub assigned_in :
      IsOrdered p
      → v.ongoing ≡ (p.mem b).ongoing
      → v.weight ≡ (p.mem b).weight
      → IsOrdered (assign p b v)
  assigned_in w same_ongoing same_weight = record {
    fits = w.fits;
    indexed = λ i hi. ground (arith, w.indexed i);
    heap = λ c h0 hc. ground (arith, w.heap c h0 hc);
  }
