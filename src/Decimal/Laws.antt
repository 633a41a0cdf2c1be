-- ===== src/Decimal/Laws.antt =====
-- Atoi reads back what Itoa prints, and how long that is.
use gbalancer.Prelude.{
  ℕ, zero, suc, ◌+◌, ◌*◌, ◌/◌, ◌%◌, ◌≤◌, ◌<◌, ◌≡◌, refl, ◌∙◌, [], ◌∷◌, some, arith, ◌==◌,
  Bool-cases, inl, inr,
}
use gbalancer.Prelude.Lists.{length}
use gbalancer.Texts.{Text}
use gbalancer.Decimal.{pos, digits, itoa, value, atoi}

abbrev pub power : ℕ → ℕ
power zero = 1
power (suc k) = 10 * power k

value-digits : (k n : ℕ) (acc : Text) → n < power k → value (digits k n acc) 0 ≡ value acc n
unfolding digits value
value-digits zero n acc h = ground arith
value-digits (suc k) n acc h = elim (Bool-cases (n / 10 == 0)) [
  | inl last ↦ rw (last, digits) (ground arith)
  | inr more ↦
      rw (more, digits) (value-digits k (n / 10) ((48 + n % 10) ∷ acc) (omega arith) ∙ ground arith)
]

length-digits :
    (k j n : ℕ) (acc : Text) → n < power (suc j) → length (digits k n acc) ≤ suc j + length acc
unfolding digits
length-digits zero j n acc h = omega arith
length-digits (suc k) zero n acc h = ground arith
length-digits (suc k) (suc j) n acc h = elim (Bool-cases (n / 10 == 0)) [
  | inl last ↦ rw (last, digits) (omega arith)
  | inr more ↦ rw (more, digits) (omega (arith, length-digits k j (n / 10) ((48 + n % 10) ∷ acc)))
]

-- a text that begins with a digit
abbrev pub HasDigit : Text → Type 0
HasDigit t = (c : ℕ) × (rest : Text) × (t ≡ c ∷ rest) × (48 ≤ c)

digits_more : (k n c : ℕ) (acc : Text) → 48 ≤ c → HasDigit (digits k n (c ∷ acc))
unfolding digits
digits_more zero n c acc h = (c, acc, refl, h)
digits_more (suc k) n c acc h = elim (Bool-cases (n / 10 == 0)) [
  | inl last ↦ rw (last, digits) (_, _, refl, omega arith)
  | inr more ↦ rw (more, digits) (digits_more k (n / 10) (48 + n % 10) (c ∷ acc) (omega arith))
]

digits-HasDigit : (k n : ℕ) (acc : Text) → HasDigit (digits (suc k) n acc)
unfolding digits
digits-HasDigit k n acc = elim (Bool-cases (n / 10 == 0)) [
  | inl last ↦ rw (last, digits) (_, _, refl, omega arith)
  | inr more ↦ rw (more, digits) (digits_more k (n / 10) (48 + n % 10) acc (omega arith))
]

pub itoa-HasDigit : (n : ℕ) → HasDigit (itoa n)
unfolding itoa
itoa-HasDigit n = digits-HasDigit 19 n []

pub length-itoa : (j n : ℕ) → n < power (suc j) → length (itoa n) ≤ suc j
unfolding itoa
length-itoa j n h = omega (arith, length-digits 20 j n [] h)

-- Atoi reads back what Itoa prints of every number that fits into an int.
pub atoi-itoa : (n : ℕ) → n < 9223372036854775808 → atoi (itoa n) ≡ some (pos n)
unfolding atoi value
atoi-itoa n h =
    let (c, rest, e, big) = itoa-HasDigit n in
    let read : value (itoa n) 0 ≡ some n = unfold itoa in value-digits 20 n [] (omega (arith, h)) in
    rw e (ground (arith, e, read, h))
