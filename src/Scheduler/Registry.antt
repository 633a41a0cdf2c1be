-- ===== src/Scheduler/Registry.antt =====
-- Backends that are registered, brought back and taken down keep their places.
use text.Mathlib.TextEquality.{eq_iff}
use gbalancer.Prelude.{ℕ, ◌+◌, ◌<◌, ◌≡◌, ◌≢◌, sym, inl, inr, none, some, arith, ℕ_discrete, subst}
use gbalancer.Prelude.Dict.{
  Dict, lookup, insert, delete, lookup-insert, lookup-delete, insert-Distinct, delete-Distinct,
}
use gbalancer.Backend.{Backend}
use gbalancer.Pool.{Pool}
use gbalancer.Heap.Contract.{InPool, Added}
use gbalancer.Scheduler.Places.{unplaced_out, Added-IsPlaced, assign, replaced_out}
use gbalancer.Scheduler.OffHeap.{Without}
use gbalancer.Scheduler.Invariant.{IsTracked, Places}

module _ (p : Pool) (names : Dict ℕ) (next b : ℕ) (h : Places p names next) where
  -- a registered backend is put on the heap
  pub Added-Places :
      (q : Pool) → lookup (p.mem b).address names ≡ some b → Added p b q → Places q names next
  Added-Places q listed a = record {
    ordered = a.ordered;
    placed = λ d tracked. Added-IsPlaced p q b d h.ordered a (h.placed d (before d tracked));
    listed = λ d i. elim ((a.entries d).0 i) [
      | inl e ↦ ground (arith, a.keeps.body d)
      | inr i' ↦ ground (arith, a.keeps.body d, h.listed d i')
    ];
    named = λ x d e. ground (arith, a.keeps.body d, h.named x d e);
    born = h.born;
    distinct = h.distinct;
  }
    where
      before : (d : ℕ) → IsTracked q names d → IsTracked p names d
      before d = ground (arith, a.keeps.body d)

  -- a new backend is registered under an address that is free
  pub insert-Added-Places :
      (q : Pool)
      → b < next
      → lookup (p.mem b).address names ≡ none
      → Added p b q
      → Places q (insert (p.mem b).address b names) next
  insert-Added-Places q old free a = record {
    ordered = a.ordered;
    placed = λ d tracked i e. elim (ℕ_discrete d b) [
      | yes self ↦ (a.entries d).1 (inl self)
      | no other ↦ Added-IsPlaced p q b d h.ordered a (h.placed d (before d other tracked)) i e
    ];
    listed = λ d i. elim ((a.entries d).0 i) [
      | inl e ↦ ground (
        arith,
        a.keeps.body d,
        lookup-insert (p.mem b).address (p.mem d).address b names,
        eq_iff (p.mem b).address (p.mem d).address,
      )
      | inr i' ↦ ground (
        arith,
        a.keeps.body d,
        h.listed d i',
        lookup-insert (p.mem b).address (p.mem d).address b names,
        eq_iff (p.mem b).address (p.mem d).address,
      )
    ];
    named = λ x d e. ground (
      arith,
      a.keeps.body d,
      h.named x d,
      lookup-insert (p.mem b).address x b names,
      eq_iff (p.mem b).address x,
    );
    born = λ x d e. ground (arith, h.born x d, lookup-insert (p.mem b).address x b names);
    distinct = insert-Distinct (p.mem b).address b names h.distinct;
  }
    where
      before :
          (d : ℕ) → d ≢ b → IsTracked q (insert (p.mem b).address b names) d → IsTracked p names d
      before d other =
          ground (arith, a.keeps.body d, lookup-insert (p.mem b).address (p.mem d).address b names)

  -- a backend off the heap is no longer registered
  pub delete-Without-Places :
      (q : Pool)
      → lookup (p.mem b).address names ≡ some b
      → Without p b q
      → Places q (delete (p.mem b).address names) next
  delete-Without-Places q listed w = record {
    ordered = w.ordered;
    placed = λ d tracked. w.placed d (h.placed d (before d tracked));
    listed = λ d i. ground (
      arith,
      w.body d,
      h.listed d (w.within d i),
      lookup-delete (p.mem b).address (p.mem d).address names,
      eq_iff (p.mem b).address (p.mem d).address,
      λ (e : d ≡ b). unplaced_out q b w.ordered w.unplaced (subst (InPool q) e i),
    );
    named = λ x d e. ground (arith, w.body d, h.named x d, lookup-delete (p.mem b).address x names);
    born = λ x d e. ground (arith, h.born x d, lookup-delete (p.mem b).address x names);
    distinct = delete-Distinct (p.mem b).address names h.distinct;
  }
    where
      before : (d : ℕ) → IsTracked q (delete (p.mem b).address names) d → IsTracked p names d
      before d = ground (arith, w.body d, lookup-delete (p.mem b).address (p.mem d).address names)

-- an object is allocated
pub new-Places :
    (p : Pool) (names : Dict ℕ) (next : ℕ) (v : Backend)
    → Places p names next
    → v.ongoing ≡ 0
    → Places (assign p next v) names (next + 1)
new-Places p names next v h free = record {
  ordered = replaced_out p next v h.ordered out;
  placed = λ d tracked i e. elim (ℕ_discrete next d) [
    | yes self ↦ absurd (fresh d self tracked)
    | no other ↦ h.placed d (before d other tracked) i (ground arith)
  ];
  listed = λ d i. elim (ℕ_discrete next d) [
    | yes self ↦ absurd (out (subst (InPool p) (sym self) i))
    | no other ↦ ground (arith, h.listed d i)
  ];
  named = λ x d e. ground (arith, h.named x d e, h.born x d e);
  born = λ x d e. omega (arith, h.born x d e);
  distinct = h.distinct;
}
  where
    out : ¬ InPool p next
    out i = absurd (omega (arith, h.born _ next (h.listed next i)))

    fresh : (d : ℕ) → next ≡ d → IsTracked (assign p next v) names d → ⊥
    fresh d self (inl busy) = ground arith
    fresh d self (inr found) = omega (arith, h.born _ d found)

    before : (d : ℕ) → next ≢ d → IsTracked (assign p next v) names d → IsTracked p names d
    before d other = ground arith
