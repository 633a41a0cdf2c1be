-- ===== src/Scheduler/Readd.antt =====
-- A backend that is taken off the heap, has its count set, and is put back.
use gbalancer.Prelude.{
  ℕ, ◌<◌, ◌≡◌, ◌↔◌, inl, inr, arith, Returns, ◌==◌, update, if◌then◌else◌, refl, ◌∙◌, subst,
}
use gbalancer.Pool.{Pool}
use gbalancer.Heap.{add}
use gbalancer.Heap.Contract.{InPool, IsOrdered, Added, Taken}
use gbalancer.Heap.Add.{add-Added}
use gbalancer.Scheduler.Places.{IsPlaced, Taken-IsPlaced, Added-IsPlaced, replaced_out}

-- the pool `q` is `p` with the count of `b` set to `n`
pub record Recounted (p : Pool) (b n : ℕ) (q : Pool) : Type 0 where
  pub ordered : IsOrdered q
  pub same_len : q.len ≡ p.len
  pub same_cap : q.cap ≡ p.cap
  pub same_mode : q.leastweight ≡ p.leastweight
  pub body :
      (c : ℕ)
      → q.mem c ≡ record (p.mem c) {
        index = (q.mem c).index;
        ongoing = if b == c then n else (p.mem c).ongoing;
      }
  pub entries : (c : ℕ) → InPool q c ↔ InPool p c
  pub placed : (c : ℕ) → IsPlaced p c → IsPlaced q c

pub Recounted-cast : {p q : Pool} {b m n : ℕ} → m ≡ n → Recounted p b m q → Recounted p b n q
Recounted-cast {p} {q} {b} e = subst (λ k. Recounted p b k q) e

module _ (p p1 : Pool) (b : ℕ) (w : IsOrdered p) (t : Taken p b p1) where
  -- the pool `p2` is `p1` with the count of `b` set
  readd :
      (p2 : Pool) (n : ℕ)
      → IsOrdered p2
      → p2.len ≡ p1.len
      → p2.cap ≡ p1.cap
      → p2.leastweight ≡ p1.leastweight
      → ((c : ℕ) → InPool p2 c ↔ InPool p1 c)
      → ((c : ℕ)
          → p2.mem c ≡ record (p1.mem c) { ongoing = if b == c then n else (p1.mem c).ongoing })
      → Returns (Recounted p b n) (add p2 b)
  readd p2 n w2 len cap mode same body =
      let room : p2.len < p2.cap = omega (arith, w.fits, t.shorter, t.keeps.same_cap) in
      let (q, run, a) = add-Added p2 b w2 room (λ i. t.is_out ((same b).0 i)) in
      (
        q,
        run,
        record {
          ordered = a.ordered;
          same_len = omega (arith, a.longer, t.shorter);
          same_cap = a.keeps.same_cap ∙ cap ∙ t.keeps.same_cap;
          same_mode = a.keeps.same_mode ∙ mode ∙ t.keeps.same_mode;
          body = λ c. ground (arith, a.keeps.body c, body c, t.keeps.body c);
          entries = λ c. (back c q a, into c q a);
          placed = λ c h.
              Added-IsPlaced p2 q b c w2 a
                (λ i e. (same c).1 (Taken-IsPlaced p p1 b c w t h i (ground (arith, body c))));
        },
      )
    where
      back : (c : ℕ) (q : Pool) → Added p2 b q → InPool q c → InPool p c
      back c q a i = elim ((a.entries c).0 i) [
        | inl e ↦ (t.entries c).1 (inl e)
        | inr i' ↦ (t.entries c).1 (inr ((same c).0 i'))
      ]

      into : (c : ℕ) (q : Pool) → Added p2 b q → InPool p c → InPool q c
      into c q a i = elim ((t.entries c).0 i) [
        | inl e ↦ (a.entries c).1 (inl e)
        | inr i' ↦ (a.entries c).1 (inr ((same c).1 i'))
      ]

  -- put back as it was
  pub readd_same : Returns (Recounted p b (p.mem b).ongoing) (add p1 b)
  readd_same =
      readd p1 (p.mem b).ongoing t.ordered refl refl refl (λ c. (λ i. i, λ i. i))
        (λ c. ground (arith, t.keeps.body c))

  -- put back with another count
  pub readd_counted :
      (n : ℕ)
      → Returns
          (Recounted p b n)
          (add (record p1 { mem = update p1.mem b (record (p1.mem b) { ongoing = n }) }) b)
  readd_counted n =
      readd _ n (replaced_out p1 b _ t.ordered t.is_out) refl refl refl (λ c. (λ i. i, λ i. i))
        (λ c. ground arith)
