-- ===== src/Pidfile/Laws.antt =====
-- A pid file keeps a second process out while the first one is alive.
use gbalancer.Prelude.{
  ℕ, zero, suc, ◌≤◌, ◌<◌, ◌≡◌, refl, ap, sym, ◌∙◌, true, [], none, ◌∷◌, Option, some, arith,
}
use gbalancer.Prelude.Lists.{length}
use gbalancer.Texts.{Text}
use gbalancer.Decimal.{pos, itoa, atoi}
use gbalancer.Decimal.Laws.{power, atoi-itoa, length-itoa, itoa-HasDigit}
use gbalancer.Pidfile.{Os, written, taken, read, create, write_pid}

read_all : (n : ℕ) (t : Text) → length t ≤ n → read n t ≡ t
read_all zero [] h = refl
read_all (suc n) [] h = refl
read_all zero (c ∷ t) h = absurd (omega arith)
read_all (suc n) (c ∷ t) h = ap (λ r. c ∷ r) (read_all n t (omega arith))

create-written :
    (os : Os) (own : ℕ) (file file' : Option Text)
    → create os own file ≡ (written, file')
    → file' ≡ some (itoa own)
unfolding create
create-written os own file file' h = ground arith

-- a successful call leaves the own pid in the file
pub write_pid-written :
    (os : Os) (own : ℕ) (file file' : Option Text)
    → write_pid os own file ≡ (written, file')
    → file' ≡ some (itoa own)
unfolding write_pid
write_pid-written os own none file' h = create-written os own none file' h
write_pid-written os own (some []) file' h = ground arith
write_pid-written os own (some (c ∷ t)) file' h =
    ground (arith, create-written os own (some (c ∷ t)) file')

-- the file of a live process keeps another one out
taken_by :
    (os : Os) (own p : ℕ)
    → p < power 8
    → os.can_open ≡ true
    → os.alive (pos p) ≡ true
    → write_pid os own (some (itoa p)) ≡ (taken (pos p), some (itoa p))
unfolding write_pid
taken_by os own p small open_ok up =
    let (c, rest, e, big) = itoa-HasDigit p in
    let whole : read 8 (itoa p) ≡ c ∷ rest = read_all 8 (itoa p) (length-itoa 7 p small) ∙ e in
    let number : atoi (c ∷ rest) ≡ some (pos p) = ap atoi (sym e) ∙ atoi-itoa p (omega arith) in
    rw (write_pid, open_ok, whole, number, up) refl

-- After a process with a pid of at most eight digits has written its pid file, and as long as it is
-- alive, every other call that can open the file reports it and leaves the file alone.
pub write_pid-excludes :
    (os later : Os) (own other : ℕ) (file file' : Option Text)
    → own < power 8
    → write_pid os own file ≡ (written, file')
    → later.can_open ≡ true
    → later.alive (pos own) ≡ true
    → write_pid later other file' ≡ (taken (pos own), file')
write_pid-excludes os later own other file file' small first open_ok up =
    rw (write_pid-written os own file file' first) (taken_by later other own small open_ok up)
