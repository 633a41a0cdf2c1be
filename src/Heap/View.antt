-- ===== src/Heap/View.antt =====
-- The pool as the set of its backends, without their places.
use gbalancer.Prelude.{
  ℕ, zero, suc, ◌<◌, ◌≡◌, refl, ap, sym, subst, ◌∙◌, inl, inr, ◌↔◌, Bool, true, false, ◌||◌, ◌==◌,
  ==_iff, some, arith, Returns, Bool-cases,
}
use gbalancer.Pool.{Pool}
use gbalancer.Heap.{add, remove}
use gbalancer.Heap.Contract.{InPool, IsOrdered}
use gbalancer.Heap.Add.{add-Added}
use gbalancer.Heap.Remove.{remove-Taken}

abbrev scan : (ℕ → ℕ) → ℕ → ℕ → Bool
scan slots zero c = false
scan slots (suc n) c = slots n == c || scan slots n c

-- two pools with the same backends have the same view, whatever the order of their entries
abbrev pub view : Pool → ℕ → Bool
view p = scan p.slots p.len

scan-found : (slots : ℕ → ℕ) (n c : ℕ) → scan slots n c ≡ true → (i : ℕ) × (i < n) × (slots i ≡ c)
scan-found slots zero c h = absurd (ground arith)
scan-found slots (suc n) c h = elim (Bool-cases (slots n == c)) [
  | inl here ↦ (n, omega arith, (==_iff (slots n) c).0 here)
  | inr other ↦
      let (i, hi, e) = scan-found slots n c (ground (arith, h, other)) in (i, omega (arith, hi), e)
]

found-scan : (slots : ℕ → ℕ) (n c i : ℕ) → i < n → slots i ≡ c → scan slots n c ≡ true
found-scan slots zero c i hi e = absurd (omega (arith, hi))
found-scan slots (suc n) c i hi e = elim (Bool-cases (i == n)) [
  | inl last ↦
      let self : (slots n == c) ≡ true =
        (==_iff (slots n) c).1 (ap slots (sym ((==_iff i n).0 last)) ∙ e) in
      ground (arith, self)
  | inr before ↦ ground (arith, found-scan slots n c i (ground (arith, hi, before)) e)
]

-- a backend is in the view if it is in the pool
pub view-InPool : (p : Pool) (c : ℕ) → (view p c ≡ true) ↔ InPool p c
view-InPool p c = (scan-found p.slots p.len c, λ (i, hi, e). found-scan p.slots p.len c i hi e)

same_tests : (a b : Bool) → (a ≡ true → b ≡ true) → (b ≡ true → a ≡ true) → a ≡ b
same_tests true true h k = refl
same_tests true false h k = sym (h refl)
same_tests false true h k = k refl
same_tests false false h k = refl

view_same :
    (p q : Pool)
    → ((c : ℕ) → InPool p c → InPool q c)
    → ((c : ℕ) → InPool q c → InPool p c)
    → view p ≡ view q
view_same p q h k = λ i c.
    same_tests (view p c) (view q c) (λ e. (view-InPool q c).1 (h c ((view-InPool p c).0 e)))
      (λ e. (view-InPool p c).1 (k c ((view-InPool q c).0 e))) i

-- On a pool in order with room, heap.Push of an entry that is not in it returns, and heap.Remove of the
-- place that the entry then has returns that entry, in a pool that is in order and has the same
-- set of backends as at the start.
pub add-remove :
    (p : Pool) (b : ℕ)
    → IsOrdered p
    → p.len < p.cap
    → ¬ InPool p b
    → Returns
        (λ q.
          (i : ℕ) × ((q.mem b).index ≡ some i)
          × Returns (λ (d, u). (d ≡ b) × IsOrdered u × (view u ≡ view p)) (remove q i))
        (add p b)
add-remove p b w room fresh =
    let (q, run, a) = add-Added p b w room fresh in
    let (i, hi, at) = (a.entries b).1 (inl refl) in
    let ((d, u), run', (top, t)) = remove-Taken q i a.ordered hi in
    let same : d ≡ b = top ∙ at in
    (
      q,
      run,
      (
        i,
        subst (λ x. (q.mem x).index ≡ some i) at (a.ordered.indexed i hi),
        (
          (d, u),
          run',
          (
            same,
            t.ordered,
            view_same u p
                (λ c inside. elim ((a.entries c).0 ((t.entries c).1 (inr inside))) [
                  | inl e ↦ absurd (t.is_out (subst (InPool u) (e ∙ sym same) inside))
                  | inr before ↦ before
                ])
                (λ c inside. elim ((t.entries c).0 ((a.entries c).1 (inr inside))) [
                  | inl e ↦ absurd (fresh (subst (InPool p) (e ∙ same) inside))
                  | inr after ↦ after
                ]),
          ),
        ),
      ),
    )
