-- ===== src/Heap/Sift.antt =====
-- What moving entries about within the first `n` places leaves alone.
use gbalancer.Prelude.{ℕ, ◌≤◌, ◌<◌, ◌≡◌, refl, sym, ◌∙◌, ◌≢◌, arith, ◌==◌, if◌then◌else◌, dec_lt}
use gbalancer.Pool.{Pool, rank, exchange}
use gbalancer.Heap.Order.{IsIndexed}

pub record Sift (n : ℕ) (p q : Pool) : Type 0 where
  pub same_len : q.len ≡ p.len
  pub same_cap : q.cap ≡ p.cap
  pub same_mode : q.leastweight ≡ p.leastweight
  pub indexed : IsIndexed q
  pub body : (b : ℕ) → q.mem b ≡ record (p.mem b) { index = (q.mem b).index }
  pub above : (i : ℕ) → n ≤ i → q.slots i ≡ p.slots i
  pub goes : (i : ℕ) → i < n → (k : ℕ) × (k < n) × (q.slots k ≡ p.slots i)
  pub comes : (i : ℕ) → i < n → (k : ℕ) × (k < n) × (p.slots k ≡ q.slots i)
  pub others : (b : ℕ) → ((i : ℕ) → i < n → p.slots i ≢ b) → q.mem b ≡ p.mem b

pub Sift-refl : (n : ℕ) (p : Pool) → IsIndexed p → Sift n p p
Sift-refl n p h = record {
  same_len = refl;
  same_cap = refl;
  same_mode = refl;
  indexed = h;
  body = λ b. refl;
  above = λ i _. refl;
  goes = λ i hi. (i, hi, refl);
  comes = λ i hi. (i, hi, refl);
  others = λ b _. refl;
}

pub Sift-trans : {n : ℕ} {p q r : Pool} → Sift n p q → Sift n q r → Sift n p r
Sift-trans {n} {p} {q} {r} f g = record {
  same_len = g.same_len ∙ f.same_len;
  same_cap = g.same_cap ∙ f.same_cap;
  same_mode = g.same_mode ∙ f.same_mode;
  indexed = g.indexed;
  body = λ b. ground (arith, f.body b, g.body b);
  above = λ i h. g.above i h ∙ f.above i h;
  goes = λ i h. let (k, hk, e) = f.goes i h in let (l, hl, e') = g.goes k hk in (l, hl, e' ∙ e);
  comes = λ i h. let (k, hk, e) = g.comes i h in let (l, hl, e') = f.comes k hk in (l, hl, e' ∙ e);
  others = λ b h.
      g.others b (λ i hi e. let (k, hk, e') = f.comes i hi in h k hk (e' ∙ e)) ∙ f.others b h;
}

pub Sift-widen : {n m : ℕ} {p q : Pool} → n ≤ m → Sift n p q → Sift m p q
Sift-widen {n} {m} {p} {q} h f = record {
  same_len = f.same_len;
  same_cap = f.same_cap;
  same_mode = f.same_mode;
  indexed = f.indexed;
  body = f.body;
  above = λ i hi. f.above i (omega arith);
  goes = λ i hi. elim (dec_lt i n) [
    | yes low ↦ let (k, hk, e) = f.goes i low in (k, omega arith, e)
    | no high ↦ (i, hi, f.above i (omega arith))
  ];
  comes = λ i hi. elim (dec_lt i n) [
    | yes low ↦ let (k, hk, e) = f.comes i low in (k, omega arith, e)
    | no high ↦ (i, hi, sym (f.above i (omega arith)))
  ];
  others = λ b hb. f.others b (λ i hi. hb i (omega arith));
}

pub rank-Sift : {n : ℕ} {p q : Pool} (f : Sift n p q) (b : ℕ) → rank q b ≡ rank p b
rank-Sift f b = ground (arith, f.body b, f.same_mode)

module _ (n : ℕ) (p : Pool) (i j : ℕ) (hi : i < n) (hj : j < n) (hn : n ≤ p.len) where
  exchange-IsIndexed : IsIndexed p → IsIndexed (exchange p i j)
  exchange-IsIndexed h c hc = ground (arith, h i, h j, h c)

  -- where an entry goes
  abbrev other : ℕ → ℕ
  other c = if c == i then j else if c == j then i else c

  pub exchange-Sift : IsIndexed p → Sift n p (exchange p i j)
  exchange-Sift h = record {
    same_len = refl;
    same_cap = refl;
    same_mode = refl;
    indexed = exchange-IsIndexed h;
    body = λ b. ground arith;
    above = λ c hc. ground arith;
    goes = λ c hc. (other c, ground arith, ground arith);
    comes = λ c hc. (other c, ground arith, ground arith);
    others = λ b hb. ground (arith, hb i, hb j);
  }
