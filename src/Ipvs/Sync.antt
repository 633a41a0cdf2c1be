-- ===== src/Ipvs/Sync.antt =====
-- The director's backends follow the messages of the wrangler.
use Prim.Native.String.{String}
use text.Mathlib.Text.{◌==◌ as str_eq}
use text.Mathlib.TextEquality.{eq_iff}
use gbalancer.Prelude.{
  ℕ, ◌≡◌, refl, not, ◌&&◌, ◌||◌, [], ◌∷◌, none, arith, if◌then◌else◌, Option-cases, inl, inr,
}
use gbalancer.Prelude.Dict.{Dict, lookup, delete, has, Distinct, lookup-insert, lookup-delete}
use gbalancer.Ipvs.{Ipvs, add_backend, remove_backend, review, add_all, on_status}

lookup-remove_backend :
    (i : Ipvs) (addr a : String)
    → lookup a (remove_backend i addr).backends
      ≡ (if str_eq addr a then none else lookup a i.backends)
unfolding remove_backend lookup
lookup-remove_backend i addr a = elim (Option-cases (lookup addr i.backends)) [
  | inl out ↦ ground (arith, eq_iff addr a)
  | inr (v, inside) ↦
      rw (inside, remove_backend, lookup-delete addr a i.backends) (ground (arith, eq_iff addr a))
]

-- what the first loop keeps, and the active backends that it leaves for the second
review_lem :
    (known : Dict String) (active : Dict ℕ) (i : Ipvs) (a : String)
    → Distinct known
    → (lookup a (review known active i).0.backends ≡ (
        if has (lookup a known) && not (has (lookup a active)) then none else lookup a i.backends))
      × (lookup a (review known active i).1
          ≡ (if has (lookup a known) then none else lookup a active))
unfolding review lookup
review_lem [] active i a d = (refl, refl)
review_lem ((k, v) ∷ known) active i a d = elim (Option-cases (lookup k active)) [
  | inl gone ↦
      rw (gone, review)
        (ground (
          arith,
          eq_iff k a,
          review_lem known active (remove_backend i k) a d.1,
          lookup-remove_backend i k a,
        ))
  | inr (u, there) ↦
      rw (there, review)
        (ground
          (arith, eq_iff k a, review_lem known (delete k active) i a d.1, lookup-delete k a active))
]

has-add_all :
    (rest : Dict ℕ) (i : Ipvs) (a : String)
    → has (lookup a (add_all rest i).backends) ≡ (has (lookup a i.backends) || has (lookup a rest))
unfolding add_all lookup add_backend
has-add_all [] i a = ground arith
has-add_all ((k, v) ∷ rest) i a =
    rw (has-add_all rest (add_backend i k) a)
      (ground (arith, eq_iff k a, lookup-insert k a k i.backends))

-- After a message the director has exactly the backends of the message.
pub on_status_keys :
    (i : Ipvs) (active : Dict ℕ) (a : String)
    → Distinct i.backends
    → has (lookup a (on_status i active).backends) ≡ has (lookup a active)
unfolding on_status
on_status_keys i active a d =
    let (j, rest) = review i.backends active i in
    rw (has-add_all rest j a) (ground (arith, review_lem i.backends active i a d))
