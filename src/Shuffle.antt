-- ===== src/Shuffle.antt =====
-- utils/utils.go: Shuffle; and sort.Strings, which the scheduler calls when it does not shuffle.
pub mod Laws
use Prim.Native.String.{String, compare}
use Prim.Native.Nat.{Ordering}
use gbalancer.Prelude.{ℕ, List, [], ◌∷◌, Bool, true, false, if◌then◌else◌}
use gbalancer.Prelude.Lists.{length, set, replicate}

-- `for i, v := range perm { dst[v] = src[i] }`. rand.Perm gives each index once, so that no index
-- is out of range.
shuffle_loop {ℓ} : {A : Type ℓ} → List ℕ → List A → List A → List A
shuffle_loop [] src dst = dst
shuffle_loop (v ∷ perm) [] dst = dst
shuffle_loop (v ∷ perm) (x ∷ src) dst = shuffle_loop perm src (set dst v x)

-- Shuffle, with rand.Perm as an argument
unfoldable pub shuffle : (ℕ → List ℕ) → List String → List String
unfolding shuffle_loop
shuffle perm src = shuffle_loop (perm (length src)) src (replicate (length src) "")

-- `<=` of strings, byte by byte
abbrev pub str_le : String → String → Bool
str_le a b = elim (compare a b) [ Ordering.gt ↦ false | _ ↦ true ]

insert_sorted : String → List String → List String
insert_sorted a [] = a ∷ []
insert_sorted a (b ∷ bs) = if str_le a b then a ∷ b ∷ bs else b ∷ insert_sorted a bs

unfoldable pub sort_strings : List String → List String
unfolding insert_sorted
sort_strings [] = []
sort_strings (a ∷ rest) = insert_sorted a (sort_strings rest)
