-- ===== src/Shuffle/Laws.antt =====
-- Shuffle and sort.Strings keep every text as often as it stands in the list.
use Prim.Native.String.{String}
use gbalancer.Prelude.{
  ℕ, zero, suc, ◌+◌, ◌≤◌, ◌<◌, ◌≡◌, refl, sym, ap, ◌∙◌, subst, List, [], ◌∷◌, arith, Bool-cases,
  inl, inr, ◌==◌, if◌then◌else◌, ltb,
}
use gbalancer.Prelude.Lists.{length, set, replicate, mult, length-set}
use gbalancer.Texts.{hit, tally}
use gbalancer.Shuffle.{shuffle, shuffle_loop, sort_strings, insert_sorted, str_le}

-- the texts at the places, counted from `i`, that are not written any more
abbrev settled : String → List ℕ → ℕ → List String → ℕ
settled a perm i [] = 0
settled a perm i (x ∷ xs) = (if mult i perm == 0 then hit a x else 0) + settled a perm (i + 1) xs

settled_skip :
    (a : String) (perm : List ℕ) (j i : ℕ) (xs : List String)
    → j < i
    → settled a (j ∷ perm) i xs ≡ settled a perm i xs
settled_skip a perm j i [] h = refl
settled_skip a perm j i (x ∷ xs) h = ground (arith, settled_skip a perm j (i + 1) xs)

settled-set :
    (a : String) (perm : List ℕ) (i k : ℕ) (xs : List String) (x : String)
    → mult (i + k) perm ≡ 0
    → k < length xs
    → settled a perm i (set xs k x) ≡ hit a x + settled a ((i + k) ∷ perm) i xs
settled-set a perm i k [] x h lt = absurd (omega arith)
settled-set a perm i zero (y ∷ ys) x h lt = ground (arith, settled_skip a perm (i + 0) (i + 1) ys)
settled-set a perm i (suc k) (y ∷ ys) x h lt = ground (arith, settled-set a perm (i + 1) k ys x)

settled_all : (a : String) (i : ℕ) (xs : List String) → settled a [] i xs ≡ tally a xs
settled_all a i [] = refl
settled_all a i (x ∷ xs) = ground (arith, settled_all a (i + 1) xs)

settled_none :
    (a : String) (perm : List ℕ) (i : ℕ) (xs : List String)
    → ((j : ℕ) → i ≤ j → j < i + length xs → 0 < mult j perm)
    → settled a perm i xs ≡ 0
settled_none a perm i [] h = refl
settled_none a perm i (x ∷ xs) h =
    ground (arith, h i, settled_none a perm (i + 1) xs (λ j lo hi. h j (omega arith) (omega arith)))

-- no place is written twice, and all are below `n`
abbrev Writes : ℕ → List ℕ → Type 0
Writes n [] = Unit {0}
Writes n (v ∷ perm) = (v < n) × (mult v perm ≡ 0) × Writes n perm

tally-shuffle_loop :
    (a : String) (perm : List ℕ) (src dst : List String)
    → length perm ≡ length src
    → Writes (length dst) perm
    → tally a (shuffle_loop perm src dst) ≡ tally a src + settled a perm 0 dst
unfolding shuffle_loop
tally-shuffle_loop a [] [] dst e w = ground (arith, settled_all a 0 dst)
tally-shuffle_loop a [] (x ∷ src) dst e w = absurd (omega arith)
tally-shuffle_loop a (v ∷ perm) [] dst e w = absurd (omega arith)
tally-shuffle_loop a (v ∷ perm) (x ∷ src) dst e w =
    let same = length-set dst v x in
    let later = subst (λ n. Writes n perm) (sym same) w.2 in
    let at : 0 + v ≡ v = omega arith in
    let step =
      subst (λ k. settled a perm 0 (set dst v x) ≡ hit a x + settled a (k ∷ perm) 0 dst) at
        (settled-set a perm 0 v dst x (rw at w.1) w.0) in
    omega (arith, tally-shuffle_loop a perm src (set dst v x) (omega arith) later, step)

-- what rand.Perm(n) returns: each number below `n` once
pub record IsPermutation (n : ℕ) (perm : List ℕ) : Type 0 where
  pub size : length perm ≡ n
  pub each : (j : ℕ) → mult j perm ≡ (if ltb j n then 1 else 0)

Writes-once :
    (n : ℕ) (perm : List ℕ) → ((j : ℕ) → mult j perm ≤ (if ltb j n then 1 else 0)) → Writes n perm
Writes-once n [] h = tt
Writes-once n (v ∷ perm) h =
    (ground (arith, h v), ground (arith, h v), Writes-once n perm (λ j. ground (arith, h j)))

length-replicate : (n : ℕ) (x : String) → length (replicate n x) ≡ n
length-replicate zero x = refl
length-replicate (suc n) x = ap suc (length-replicate n x)

-- Shuffle keeps each text as often as it stands in the list, if rand.Perm returns a permutation.
pub tally-shuffle :
    (perm : ℕ → List ℕ) (src : List String)
    → IsPermutation (length src) (perm (length src))
    → (a : String) → tally a (shuffle perm src) ≡ tally a src
unfolding shuffle
tally-shuffle perm src h a =
    let n = length-replicate (length src) "" in
    let once = Writes-once (length src) (perm (length src)) (λ j. ground (arith, h.each j)) in
    omega (
      arith,
      tally-shuffle_loop a (perm (length src)) src (replicate (length src) "") h.size
          (subst (λ k. Writes k (perm (length src))) (sym n) once),
      settled_none a (perm (length src)) 0 (replicate (length src) "")
          (λ j lo hi. ground (arith, h.each j, n)),
    )

tally-insert_sorted :
    (a x : String) (xs : List String) → tally a (insert_sorted x xs) ≡ hit a x + tally a xs
unfolding insert_sorted
tally-insert_sorted a x [] = refl
tally-insert_sorted a x (y ∷ ys) = elim (Bool-cases (str_le x y)) [
  | inl first ↦ rw (first, insert_sorted)
  | inr later ↦ rw (later, insert_sorted) (omega (arith, tally-insert_sorted a x ys))
]

pub tally-sort_strings : (a : String) (xs : List String) → tally a (sort_strings xs) ≡ tally a xs
unfolding sort_strings
tally-sort_strings a [] = refl
tally-sort_strings a (x ∷ xs) =
    omega (arith, tally-insert_sorted a x (sort_strings xs), tally-sort_strings a xs)

length-shuffle_loop :
    (perm : List ℕ) (src dst : List String) → length (shuffle_loop perm src dst) ≡ length dst
unfolding shuffle_loop
length-shuffle_loop [] src dst = refl
length-shuffle_loop (v ∷ perm) [] dst = refl
length-shuffle_loop (v ∷ perm) (x ∷ src) dst =
    length-shuffle_loop perm src (set dst v x) ∙ length-set dst v x

pub length-shuffle :
    (perm : ℕ → List ℕ) (src : List String) → length (shuffle perm src) ≡ length src
unfolding shuffle
length-shuffle perm src =
    length-shuffle_loop (perm (length src)) src (replicate (length src) "")
    ∙ length-replicate (length src) ""

length-insert_sorted :
    (x : String) (xs : List String) → length (insert_sorted x xs) ≡ suc (length xs)
unfolding insert_sorted
length-insert_sorted x [] = refl
length-insert_sorted x (y ∷ ys) = elim (Bool-cases (str_le x y)) [
  | inl first ↦ rw (first, insert_sorted)
  | inr later ↦ rw (later, insert_sorted) (ap suc (length-insert_sorted x ys))
]

pub length-sort_strings : (xs : List String) → length (sort_strings xs) ≡ length xs
unfolding sort_strings
length-sort_strings [] = refl
length-sort_strings (x ∷ xs) =
    length-insert_sorted x (sort_strings xs) ∙ ap suc (length-sort_strings xs)
