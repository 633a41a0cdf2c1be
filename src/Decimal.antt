-- ===== src/Decimal.antt =====
-- The decimal numbers of strconv: Itoa for a number that is not negative, and Atoi.
pub mod Laws
use gbalancer.Prelude.{
  ℕ, zero, suc, ◌+◌, ◌-◌, ◌*◌, ◌/◌, ◌%◌, Bool, true, false, ◌&&◌, List, [], ◌∷◌, Option, none, some,
  leb, ◌==◌, if◌then◌else◌,
}
use gbalancer.Texts.{Text}

pub data ℤ : Type 0 where
  pos negsuc : ℕ → ℤ

abbrev pub neg : ℕ → ℤ
neg zero = pos zero
neg (suc n) = negsuc n

-- the digits of `n` in front of `acc`, from the last one on, in at most `k` rounds
pub digits : ℕ → ℕ → Text → Text
digits zero n acc = acc
digits (suc k) n acc = elim (n / 10 == 0) [
  | true ↦ (48 + n % 10) ∷ acc
  | false ↦ digits k (n / 10) ((48 + n % 10) ∷ acc)
]

-- A number below 2 ^ 64 has at most 20 digits.
unfoldable pub itoa : ℕ → Text
unfolding digits
itoa n = digits 20 n []

-- the number that the digits make, after `n`
unfoldable pub value : Text → ℕ → Option ℕ
value [] n = some n
value (c ∷ t) n = if leb b'0' c && leb c b'9' then value t (n * 10 + (c - 48)) else none

-- at least one digit
abbrev pub natural : Text → Option ℕ
natural [] = none
natural (c ∷ t) = value (c ∷ t) 0

abbrev pub signed : (ℕ → ℤ) → Option ℕ → Option ℤ
signed f none = none
signed f (some n) = some (f n)

-- a number that is at most `limit`, which fits into an int of 64 bits
abbrev pub within : ℕ → Option ℕ → Option ℕ
within limit none = none
within limit (some n) = if leb n limit then some n else none

-- Atoi: a sign, and digits; a number out of range is an error
unfoldable pub atoi : Text → Option ℤ
unfolding value
atoi [] = none
atoi (c ∷ t) =
    if c == b'-'
    then signed neg (within 9223372036854775808 (natural t))
    else if c == b'+'
    then signed pos (within 9223372036854775807 (natural t))
    else signed pos (within 9223372036854775807 (natural (c ∷ t)))
