-- ===== src/Heap/Add.antt =====
-- heap.Push keeps its promise.
use gbalancer.Prelude.{
  ℕ, ◌+◌, ◌-◌, ◌<◌, ◌≡◌, ◌∙◌, ◌≢◌, ◌⊎◌, inl, inr, some, arith, Returns, ok, update, dec_lt,
}
use gbalancer.Pool.{Pool, push, set_index}
use gbalancer.Heap.{add}
use gbalancer.Heap.Order.{IsIndexed, Risen}
use gbalancer.Heap.Sift.{Sift}
use gbalancer.Heap.Up.{up_sorts}
use gbalancer.Heap.Contract.{InPool, IsOrdered, Added}

module _ (p : Pool) (b : ℕ) (w : IsOrdered p) (room : p.len < p.cap) (fresh : ¬ InPool p b) where
  abbrev pushed : Pool
  pushed = record p {
    slots = update p.slots p.len b;
    len = p.len + 1;
    mem = set_index p.mem b (some p.len);
  }

  pushed-IsIndexed : IsIndexed pushed
  pushed-IsIndexed i hi =
      ground (arith, w.indexed i, λ (e : p.slots i ≡ b) (h : i < p.len). fresh (i, h, e))

  pushed-Risen : Risen (p.len + 1) p.len pushed
  pushed-Risen = record {
    edges = λ c h0 hc ne. ground (arith, w.heap c h0);
    bridge = λ c h0 hc e j0. absurd (omega arith);
  }

  push-ok : push p b ≡ ok pushed
  unfolding push
  push-ok = ground arith

  -- heap.Push on a pool in order with room, of an entry that is not in it, adds exactly the entry and
  -- restores the order.
  pub add-Added : Returns (Added p b) (add p b)
  unfolding add
  add-Added =
      let (q, run, (s, h)) =
        up_sorts (p.len + 1) pushed p.len (omega arith) (omega arith) pushed-IsIndexed
          pushed-Risen in
      let at : p.len + 1 - 1 ≡ p.len = omega arith in
      rw (push-ok, at)
        (
          q,
          run,
          record {
            ordered = record {
              fits = omega (arith, s.same_len, s.same_cap);
              indexed = s.indexed;
              heap = λ c h0 hc. h c h0 (omega (arith, s.same_len));
            };
            keeps = record {
              same_cap = s.same_cap;
              same_mode = s.same_mode;
              body = λ c. ground (arith, s.body c);
            };
            longer = s.same_len;
            entries = λ c. (from c q s, into c q s);
            others = λ c ne out. apart c q s ne out;
          },
        )
    where
      from : (c : ℕ) (q : Pool) → Sift (p.len + 1) pushed q → InPool q c → (c ≡ b) ⊎ InPool p c
      from c q s (i, hi, e) =
          let (k, hk, e') = s.comes i (omega (arith, s.same_len)) in
          elim (dec_lt k p.len) [
            | yes old ↦ inr (k, old, ground arith)
            | no new ↦ inl (ground arith)
          ]

      into : (c : ℕ) (q : Pool) → Sift (p.len + 1) pushed q → (c ≡ b) ⊎ InPool p c → InPool q c
      into c q s (inl e) =
          let (k, hk, e') = s.goes p.len (omega arith) in
          (k, omega (arith, s.same_len), ground arith)
      into c q s (inr (i, hi, e)) =
          let (k, hk, e') = s.goes i (omega arith) in (k, omega (arith, s.same_len), ground arith)

      apart :
          (c : ℕ) (q : Pool) → Sift (p.len + 1) pushed q → c ≢ b → ¬ InPool p c → q.mem c ≡ p.mem c
      apart c q s ne out =
          s.others c (λ i hi e. elim (dec_lt i p.len) [
            | yes old ↦ out (i, old, ground arith)
            | no new ↦ ne (ground arith)
          ])
          ∙ ground arith
