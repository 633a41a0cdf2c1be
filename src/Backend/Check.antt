-- ===== src/Backend/Check.antt =====
-- What SpdyCheckStreamId leaves alone.
use gbalancer.Prelude.{ℕ, ◌≡◌, arith}
use gbalancer.Backend.{Backend, spdy_check_stream_id}

pub record SameEntry (b v : Backend) : Type 0 where
  pub index : v.index ≡ b.index
  pub ongoing : v.ongoing ≡ b.ongoing
  pub weight : v.weight ≡ b.weight
  pub address : v.address ≡ b.address

pub check-SameEntry :
    (peek : ℕ → ℕ) (now last : ℕ) (b : Backend)
    → SameEntry b (spdy_check_stream_id peek now last b).0
unfolding spdy_check_stream_id
check-SameEntry peek now last b = ground arith
