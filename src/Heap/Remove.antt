-- ===== src/Heap/Remove.antt =====
-- heap.Pop and heap.Remove keep their promises.
use gbalancer.Prelude.{
  ℕ, zero, suc, ◌+◌, ◌-◌, ◌≤◌, ◌<◌, ◌≡◌, refl, sym, ◌∙◌, ◌⊎◌, ◌↔◌, inl, inr, none, arith, Returns,
  Bool-cases, ok, ◌>>=◌, ◌==◌, dec_lt,
}
use gbalancer.Pool.{Pool, rank, pop, exchange, set_index}
use gbalancer.Heap.{parent, down, down_loop, take_top, remove}
use gbalancer.Heap.Order.{key, IsHeapTo, Risen, Sunk, swap-ok, key-exchange}
use gbalancer.Heap.Sift.{Sift, Sift-refl, Sift-trans, Sift-widen, exchange-Sift}
use gbalancer.Heap.Up.{up_sorts}
use gbalancer.Heap.Down.{down_sorts}
use gbalancer.Heap.Contract.{InPool, IsOrdered, Taken}

module _ (p r : Pool) (n : ℕ) (w : IsOrdered p) (size : n + 1 ≡ p.len) (s : Sift (n + 1) p r)
    (h : IsHeapTo n r) where
  abbrev popped : Pool
  popped = record r { len = n; mem = set_index r.mem (r.slots n) none }

  pop-ok : pop r ≡ ok (r.slots n, popped)
  unfolding pop
  pop-ok = ground (arith, s.same_len)

  popped_was_in : InPool p (r.slots n)
  popped_was_in = let (k, hk, e) = s.comes n (omega arith) in (k, omega arith, e)

  popped_entries : (c : ℕ) → InPool p c ↔ ((c ≡ r.slots n) ⊎ InPool popped c)
  popped_entries c = (
    λ (i, hi, e).
        let (k, hk, e') = s.goes i (omega arith) in
        elim (dec_lt k n) [ yes low ↦ inr (k, low, e' ∙ e) | no top ↦ inl (ground arith) ],
    into,
  )
    where
      into : (c ≡ r.slots n) ⊎ InPool popped c → InPool p c
      into (inl e) = let (k, hk, e') = popped_was_in in (k, hk, e' ∙ sym e)
      into (inr (i, hi, e)) = let (k, hk, e') = s.comes i (omega arith) in (k, omega arith, e' ∙ e)

  popped-Taken : Taken p (r.slots n) popped
  popped-Taken = record {
    ordered = record {
      fits = omega (arith, w.fits, s.same_cap);
      indexed = λ i hi. ground (arith, s.indexed i, s.indexed n, s.same_len);
      heap = λ c h0 hc. ground (arith, h c h0 hc);
    };
    keeps = record {
      same_cap = s.same_cap;
      same_mode = s.same_mode;
      body = λ c. ground (arith, s.body c);
    };
    shorter = size;
    was_in = popped_was_in;
    is_out = λ (i, hi, e). ground (arith, s.indexed i, s.indexed n, s.same_len);
    unplaced = ground arith;
    entries = popped_entries;
    others = λ c out. ground (
      arith,
      s.others c (λ i hi e. out (i, omega arith, e)),
      λ (e : c ≡ r.slots n). out ((popped_entries c).1 (inl e)),
    );
  }

root_least_below : (k n : ℕ) (p : Pool) (i : ℕ) → IsHeapTo n p → i < k → i < n → key p 0 ≤ key p i
root_least_below zero n p i h f hi = absurd (omega arith)
root_least_below (suc k) n p i h f hi = ground (arith, h i, root_least_below k n p (parent i) h)

least-root :
    (p : Pool) (b : ℕ) → IsOrdered p → p.slots 0 ≡ b → (c : ℕ) → InPool p c → rank p b ≤ rank p c
least-root p b w e c (i, hi, e') = ground (arith, root_least_below (suc i) p.len p i w.heap)

-- the last entry moved to place `i`
module _ (p : Pool) (i n : ℕ) (w : IsOrdered p) (size : n + 1 ≡ p.len) (hi : i < n) where
  exchange-Sunk : Sunk n i i (exchange p i n)
  exchange-Sunk = record {
    edges = λ c h0 hc np ni.
        ground (arith, key-exchange p i n c, key-exchange p i n (parent c), w.heap c h0);
    bridge = λ c h0 hc e i0.
        ground
          (arith, key-exchange p i n c, key-exchange p i n (parent i), w.heap c h0, w.heap i i0);
  }

  -- it sinks, and the entry that was at `i` stays last
  down-exchange :
      Returns
        (λ q. Sift (n + 1) p q × Risen n i q × (q.slots n ≡ p.slots i))
        (down (exchange p i n) i n)
  down-exchange =
      let whole = exchange-Sift (n + 1) p i n (omega arith) (omega arith) (omega arith) w.indexed in
      let (q, run, (s, r)) =
        down_sorts n i (exchange p i n) hi (omega arith) whole.indexed exchange-Sunk in
      (
        q,
        run,
        (Sift-trans whole (Sift-widen (omega arith) s), r, s.above n (omega arith) ∙ ground arith),
      )

down_nothing : (p : Pool) → down p 0 0 ≡ ok p
unfolding down down_loop
down_nothing p = refl

-- heap.Pop on a pool in order that is not empty takes out exactly an entry of the least rank, and
-- leaves the pool in order.
pub take_top-Taken :
    (p : Pool)
    → IsOrdered p
    → 0 < p.len
    → Returns (λ (b, q). Taken p b q × ((c : ℕ) → InPool p c → rank p b ≤ rank p c)) (take_top p)
unfolding take_top
take_top-Taken p w h = elim (Bool-cases (p.len == 0)) [
  | inl zero_len ↦ absurd (ground arith)
  | inr some_len ↦ rw (some_len, swap-ok p 0 (p.len - 1) h (omega arith)) (several (p.len - 1) refl)
]
  where
    several :
        (n : ℕ)
        → n ≡ p.len - 1
        → Returns
            (λ (b, q). Taken p b q × ((c : ℕ) → InPool p c → rank p b ≤ rank p c))
            (down (exchange p 0 n) 0 n >>= λ r. pop r)
    several zero e =
        let s = exchange-Sift 1 p 0 0 (omega arith) (omega arith) (omega arith) w.indexed in
        let last : IsHeapTo 0 (exchange p 0 0) = λ c h0 hc. absurd (omega arith) in
        rw (down_nothing (exchange p 0 0), pop-ok p (exchange p 0 0) 0 w (omega arith) s last)
          (
            _,
            refl,
            (
              popped-Taken p (exchange p 0 0) 0 w (omega arith) s last,
              least-root p _ w (ground arith),
            ),
          )
    several (suc n) e =
        let (q, run, (s, r, top)) = down-exchange p 0 (suc n) w (omega arith) (omega arith) in
        let heap : IsHeapTo (suc n) q = λ c h0 hc. r.edges c h0 hc (omega arith) in
        rw (run, pop-ok p q (suc n) w (omega arith) s heap)
          (_, refl, (popped-Taken p q (suc n) w (omega arith) s heap, least-root p _ w (sym top)))

-- heap.Remove on a pool in order takes out exactly the entry at the place that it is given, if there
-- is one, and leaves the pool in order.
pub remove-Taken :
    (p : Pool) (i : ℕ)
    → IsOrdered p
    → i < p.len
    → Returns (λ (b, q). (b ≡ p.slots i) × Taken p b q) (remove p i)
unfolding remove
remove-Taken p i w hi = elim (Bool-cases (p.len == 0)) [
  | inl zero_len ↦ absurd (ground arith)
  | inr some_len ↦ elim (Bool-cases (p.len - 1 == i)) [
    | inl last ↦
        let size : i + 1 ≡ p.len = ground arith in
        let s = Sift-refl (i + 1) p w.indexed in
        let heap : IsHeapTo i p = λ c h0 hc. w.heap c h0 (omega arith) in
        rw (some_len, last, pop-ok p p i w size s heap)
          (_, refl, (refl, popped-Taken p p i w size s heap))
    | inr inner ↦
        let n = p.len - 1 in
        let size : n + 1 ≡ p.len = omega arith in
        let low : i < n = ground arith in
        let (q, run, (s, r, last)) = down-exchange p i n w size low in
        let (t, run', (s', heap)) = up_sorts n q i low (omega (arith, s.same_len)) s.indexed r in
        let whole = Sift-trans s (Sift-widen (omega arith) s') in
        rw
          (
            some_len,
            inner,
            swap-ok p i n hi (omega arith),
            run,
            run',
            pop-ok p t n w size whole heap,
          )
          (_, refl, (s'.above n (omega arith) ∙ last, popped-Taken p t n w size whole heap))
  ]
]
