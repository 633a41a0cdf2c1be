-- ===== src/Shell/Laws.antt =====
-- EnsureCommands stops at the first command that fails.
use Prim.Native.String.{String}
use gbalancer.Prelude.{
  ◌≡◌, refl, ap, ◌∙◌, ◌⊎◌, inl, inr, true, false, ◌&&◌, List, [], ◌∷◌, ◌++◌, map, Bool, Bool-cases,
}
use gbalancer.Texts.{fields}
use gbalancer.Shell.{Ran, succeeded, failed, panicked, run_command, put_before, ensure_commands}

-- every command of the list works
abbrev pub all_work : (List String → Bool) → List String → Bool
all_work works [] = true
all_work works (c ∷ cmds) = works (fields c) && all_work works cmds

-- Nil: all commands ran, in order, and worked. An error or a panic: those before one of them ran and
-- worked, and that one ran and failed, or is blank; none after it ran.
abbrev pub Stopped : (List String → Bool) → List String → Ran → Type 0
Stopped works cmds (succeeded ran) = (ran ≡ map fields cmds) × (all_work works cmds ≡ true)
Stopped works cmds (failed ran) =
    (before : List String) × (c : String) × (rest : List String) × (cmds ≡ before ++ c ∷ rest)
    × (ran ≡ map fields before ++ fields c ∷ [])
    × (all_work works before ≡ true)
    × (works (fields c) ≡ false)
Stopped works cmds (panicked ran) =
    (before : List String) × (c : String) × (rest : List String) × (cmds ≡ before ++ c ∷ rest)
    × (ran ≡ map fields before)
    × (all_work works before ≡ true)
    × (fields c ≡ [])

words-cases :
    (ws : List String) → (ws ≡ []) ⊎ ((w : String) × (rest : List String) × (ws ≡ w ∷ rest))
words-cases [] = inl refl
words-cases (w ∷ ws) = inr (w, ws, refl)

-- a command that worked, before the others
worked-Stopped :
    (works : List String → Bool) (c : String) (cmds : List String) (r : Ran)
    → works (fields c) ≡ true
    → Stopped works cmds r
    → Stopped works (c ∷ cmds) (put_before (fields c ∷ []) r)
unfolding put_before
worked-Stopped works c cmds (succeeded ran) up (all, good) =
    (ap (λ x. fields c ∷ x) all, rw (up, good) refl)
worked-Stopped works c cmds (failed ran) up (before, d, rest, cut, all, good, bad) =
    (c ∷ before, d, rest, ap (λ x. c ∷ x) cut, ap (λ x. fields c ∷ x) all, rw (up, good) refl, bad)
worked-Stopped works c cmds (panicked ran) up (before, d, rest, cut, all, good, blank) = (
  c ∷ before,
  d,
  rest,
  ap (λ x. c ∷ x) cut,
  ap (λ x. fields c ∷ x) all,
  rw (up, good) refl,
  blank,
)

-- EnsureCommands runs its commands in order as long as they work, and returns nil only if all of
-- them did; it runs none after one that fails, and panics at a blank one.
pub ensure_commands-Stopped :
    (works : List String → Bool) (cmds : List String)
    → Stopped works cmds (ensure_commands works cmds)
unfolding ensure_commands run_command
ensure_commands-Stopped works [] = (refl, refl)
ensure_commands-Stopped works (c ∷ cmds) = elim (words-cases (fields c)) [
  | inl blank ↦
      let r : ensure_commands works (c ∷ cmds) ≡ panicked [] =
        rw (ensure_commands, run_command, blank) refl in
      rw r ([], c, cmds, refl, refl, refl, blank)
  | inr (w, ws, e) ↦ elim (Bool-cases (works (w ∷ ws))) [
    | inl up ↦
        let r : ensure_commands works (c ∷ cmds)
            ≡ put_before (fields c ∷ []) (ensure_commands works cmds) =
          rw (ensure_commands, run_command, e, up) refl in
        rw r (
          worked-Stopped works c cmds (ensure_commands works cmds) (ap works e ∙ up)
            (ensure_commands-Stopped works cmds))
    | inr down ↦
        let r : ensure_commands works (c ∷ cmds) ≡ failed (fields c ∷ []) =
          rw (ensure_commands, run_command, e, down) refl in
        rw r ([], c, cmds, refl, refl, refl, ap works e ∙ down)
  ]
]
