-- ===== src/Tests/RateLimit.antt =====
-- The limiter over a table of counters with their expiry.
use ledger_loop.Prelude.{
  ℕ, ◌+◌, ◌-◌, ◌≡◌, ◌≤◌, ◌<◌, refl, min, String, Bool, true, Option, some, [], ◌∷◌, ltb, ◌==◌, ◌&&◌,
  if◌then◌else◌, str_eq, eq→str_eq, arith,
}
use ledger_loop.RateLimit.{window_s, window_start, verdict, check, allowed_of}
use ledger_loop.RateLimit.Window.{check-retry_after, allowed_of-limit}

abbrev Key : Type 0
Key = String × ℕ

abbrev Counters : Type 0
Counters = Key → ℕ × ℕ

abbrev key_eq : Key → Key → Bool
key_eq a b = str_eq a.0 b.0 && (a.1 == b.1)

abbrev count_at : ℕ → Key → Counters → ℕ
count_at t key c = if ltb t (c key).1 then (c key).0 else 0

abbrev incr : ℕ → Key → ℕ → Counters → Option ℕ × Counters
incr t key ttl c = (
  some (count_at t key c + 1),
  λ k. if key_eq k key then (count_at t key c + 1, t + ttl) else c k,
)

same_key : (key : Key) → key_eq key key ≡ true
same_key (b, i) = let e = eq→str_eq b b refl in ground (arith, e)

incr_holds :
    (t u : ℕ) (key : Key) (ttl : ℕ) (c : Counters)
    → t ≤ u
    → u < t + ttl
    → count_at u key (incr t key ttl c).1 ≡ count_at t key c + 1
incr_holds t u key ttl c le lt =
    let live : ltb u (t + ttl) ≡ true = ground (arith, lt) in rw (same_key key, live) refl

abbrev fresh : Counters
fresh k = (0, 0)

-- What a run computes with.
unfoldable limiting : Unit {0}
unfolding window_start verdict check allowed_of str_eq
limiting = tt

start : window_start 121 ≡ 120
unfolding limiting
start = refl

start_2 : window_start 130 ≡ 120
unfolding limiting
start_2 = refl

no_count : (u : ℕ) → count_at u ("ip", 120) fresh ≡ 0
no_count u = ground arith

allowed_of-limit_example : allowed_of incr (121 ∷ 121 ∷ 130 ∷ []) "ip" 2 fresh ≡ min 3 (2 - 0)
allowed_of-limit_example =
    allowed_of-limit incr count_at (λ t key ttl c. refl) incr_holds "ip" 2 120
      (121 ∷ 121 ∷ 130 ∷ []) 120 0 fresh
      (omega arith, start, (omega arith, start, (omega arith, start_2, tt))) (λ u le e. no_count u)

check-retry_after_example :
    (window_start (121 + (check incr 121 "ip" 2 fresh).0.retry_after_s)
      ≡ 121 + (check incr 121 "ip" 2 fresh).0.retry_after_s)
    × (window_start 121 < 121 + (check incr 121 "ip" 2 fresh).0.retry_after_s)
    × ((check incr 121 "ip" 2 fresh).0.retry_after_s ≤ window_s)
check-retry_after_example = check-retry_after incr 121 "ip" 2 fresh 1 refl
