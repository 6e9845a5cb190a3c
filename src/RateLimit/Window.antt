-- ===== src/RateLimit/Window.antt =====
-- What the limiter of backend/ledgerloop/api/ratelimit.py admits in one window, and when it says to
-- come back.
use ledger_loop.Prelude.{
  ℕ, ◌+◌, ◌-◌, ◌≤◌, ◌<◌, ◌≡◌, refl, ap, ◌∙◌, min, String, Option, some, List, [], ◌∷◌, leb,
  if◌then◌else◌, length, arith,
}
use ledger_loop.RateLimit.{window_s, window_start, verdict, check, allowed_of}

-- When Redis answers, a refused or admitted caller is told the seconds to the start of the next window, at most a minute.
pub check-retry_after :
    {R : Type 0} (hit : ℕ → String × ℕ → ℕ → R → Option ℕ × R) (now : ℕ) (bucket : String)
    (limit : ℕ) (redis : R) (count : ℕ)
    → (hit now (bucket, window_start now) window_s redis).0 ≡ some count
    → (window_start (now + (check hit now bucket limit redis).0.retry_after_s)
        ≡ now + (check hit now bucket limit redis).0.retry_after_s)
      × (window_start now < now + (check hit now bucket limit redis).0.retry_after_s)
      × ((check hit now bucket limit redis).0.retry_after_s ≤ window_s)
unfolding check verdict window_start
check-retry_after hit now bucket limit redis count e =
    rw (check, e, verdict) (omega arith, omega arith, omega arith)

-- Requests that come one after the other in one window.
abbrev pub InWindow : ℕ → ℕ → List ℕ → Type 0
InWindow w before [] = Unit
InWindow w before (t ∷ ts) = (before ≤ t) × (window_start t ≡ w) × InWindow w t ts

same_window : (t u w : ℕ) → window_start t ≡ w → window_start u ≡ w → u < t + window_s
unfolding window_start
same_window t u w p q = omega (arith, p, q)

module _ {R : Type 0} (hit : ℕ → String × ℕ → ℕ → R → Option ℕ × R) (value : ℕ → String × ℕ → R → ℕ)
    (counts : (t : ℕ) (key : String × ℕ) (ttl : ℕ) (redis : R)
      → (hit t key ttl redis).0 ≡ some (value t key redis + 1))
    (holds : (t u : ℕ) (key : String × ℕ) (ttl : ℕ) (redis : R)
      → t ≤ u
      → u < t + ttl
      → value u key (hit t key ttl redis).1 ≡ value t key redis + 1)
    (bucket : String) (limit w : ℕ) where
  one_more :
      (t : ℕ) (ts : List ℕ) (redis : R)
      → window_start t ≡ w
      → allowed_of hit (t ∷ ts) bucket limit redis ≡ (
          if leb (value t (bucket, w) redis + 1) limit
          then allowed_of hit ts bucket limit (hit t (bucket, w) window_s redis).1 + 1
          else allowed_of hit ts bucket limit (hit t (bucket, w) window_s redis).1)
  unfolding allowed_of check verdict
  one_more t ts redis e = rw (e, counts t (bucket, w) window_s redis, verdict) refl

  -- While Redis answers, a window admits exactly the first `limit` requests of a bucket, those before
  -- the given ones counted.
  pub allowed_of-limit :
      (ts : List ℕ) (before n : ℕ) (redis : R)
      → InWindow w before ts
      → ((u : ℕ) → before ≤ u → window_start u ≡ w → value u (bucket, w) redis ≡ n)
      → allowed_of hit ts bucket limit redis ≡ min (length ts) (limit - n)
  unfolding allowed_of
  allowed_of-limit [] before n redis inside held = omega arith
  allowed_of-limit (t ∷ ts) before n redis inside held =
      let now_n = held t inside.0 inside.1 in
      let rest =
        allowed_of-limit ts t (n + 1) (hit t (bucket, w) window_s redis).1 inside.2 (λ u le e.
          holds t u (bucket, w) window_s redis le (same_window t u w inside.1 e)
          ∙ ap (λ c. c + 1) now_n) in
      one_more t ts redis inside.1 ∙ ground (arith, now_n, rest)
