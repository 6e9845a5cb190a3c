-- ===== src/RateLimit.antt =====
-- backend/ledgerloop/api/ratelimit.py: the fixed window of writes. Redis is an argument: its state, and
-- `hit time key ttl`, the pipeline of INCR and EXPIRE, which is none where it raises. A key is a bucket
-- with the start of a window; times are whole seconds.
pub mod Window
use ledger_loop.Prelude.{
  ℕ, ◌+◌, ◌-◌, ◌%◌, String, Bool, true, false, Option, none, some, List, [], ◌∷◌, leb,
  if◌then◌else◌,
}

pub record RateLimitVerdict : Type 0 where
  pub allowed : Bool
  pub retry_after_s : ℕ
  pub limit : ℕ
  pub remaining : ℕ

abbrev pub window_s : ℕ
window_s = 60

unfoldable pub window_start : ℕ → ℕ
window_start now = now - now % window_s

module _ {R : Type 0} (hit : ℕ → String × ℕ → ℕ → R → Option ℕ × R) where
  -- The verdict on the count, and the one when Redis is out of reach.
  unfoldable pub verdict : ℕ → ℕ → Option ℕ → RateLimitVerdict
  verdict now limit none = record {
    allowed = true;
    retry_after_s = 0;
    limit = limit;
    remaining = limit;
  }
  verdict now limit (some count) = record {
    allowed = leb count limit;
    retry_after_s = window_start now + window_s - now;
    limit = limit;
    remaining = limit - count;
  }

  unfoldable pub check : ℕ → String → ℕ → R → RateLimitVerdict × R
  check now bucket limit redis =
      let (count, redis') = hit now (bucket, window_start now) window_s redis in
      (verdict now limit count, redis')

  -- Requests of one bucket, one after the other: how many are allowed.
  unfoldable pub allowed_of : List ℕ → String → ℕ → R → ℕ
  allowed_of [] bucket limit redis = 0
  allowed_of (now ∷ later) bucket limit redis =
      let (verdict, redis') = check now bucket limit redis in
      let rest = allowed_of later bucket limit redis' in if verdict.allowed then rest + 1 else rest
