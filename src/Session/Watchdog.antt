-- ===== src/Session/Watchdog.antt =====
-- autotrader/watchdog.py. The attempts sleep whole seconds, since `base` and `cap` keep their defaults;
-- `healthy k` is the answer of the k-th health check. The callbacks raise nothing here; a reconcile
-- that raises is in the runner's own check of the health (Runner/Jobs).
use autotrader_ai.Prelude.{
  ℕ, zero, suc, ◌+◌, ◌-◌, ◌*◌, ◌^◌, ◌≤◌, ◌≡◌, refl, Bool, true, false, not, ◌&&◌, ◌||◌, List, [],
  ◌∷◌, arith, ltb, if◌then◌else◌,
}
use autotrader_ai.Prelude.Int.{ℤ, pos, pos_part, ltb_ℤ}
use autotrader_ai.Float.{fixed_float}

-- `min(cap, base * 2 ** (attempt - 1))`, with attempts below 1 taken as 1
unfoldable pub backoff_seconds : ℤ → ℕ → ℕ → ℕ
backoff_seconds attempt base limit =
    let n = if ltb_ℤ attempt (pos 1) then 1 else pos_part attempt in
    let delay = base * 2 ^ (n - 1) in if ltb delay limit then delay else limit

-- What the watchdog does to its surroundings, in order.
pub data Action : Type 0 where
  probed : Bool → Action
  slept : ℕ → Action
  reconciled : Action

-- The rounds `attempt .. attempt + left - 1` of the loop.
retry : (healthy : ℕ → Bool) (left attempt : ℕ) → Bool × List Action
retry healthy zero attempt = (false, [])
retry healthy (suc left) attempt =
    let rest = retry healthy left (suc attempt) in
    let wait = Action.slept (backoff_seconds (pos attempt) 1 30) in
    if healthy attempt
    then (true, wait ∷ probed true ∷ reconciled ∷ [])
    else (rest.0, wait ∷ probed false ∷ rest.1)

unfoldable pub ensure_healthy : (healthy : ℕ → Bool) (attempts : ℕ) → Bool × List Action
unfolding retry
ensure_healthy healthy attempts =
    let rest = retry healthy attempts 1 in
    if healthy 0 then (true, probed true ∷ []) else (rest.0, probed false ∷ rest.1)

-- The answers of the checks from one on: does some one of the next `n` pass?
abbrev pub any_from : (ℕ → Bool) → ℕ → ℕ → Bool
any_from healthy zero k = false
any_from healthy (suc n) k = healthy k || any_from healthy n (suc k)

abbrev is_reconcile : Action → Bool
is_reconcile reconciled = true
is_reconcile _ = false

-- Is the last action a reconcile? The first argument answers for the empty list.
abbrev pub ends_reconciled : Bool → List Action → Bool
ends_reconciled b [] = b
ends_reconciled b (a ∷ more) = ends_reconciled (is_reconcile a) more

abbrev pub reconciles : List Action → ℕ
reconciles [] = 0
reconciles (reconciled ∷ more) = suc (reconciles more)
reconciles (a ∷ more) = reconciles more

abbrev pub total_sleep : List Action → ℕ
total_sleep [] = 0
total_sleep (slept n ∷ more) = n + total_sleep more
total_sleep (a ∷ more) = total_sleep more

-- A sleep is never longer than the cap.
backoff-le-cap : (k : ℕ) → backoff_seconds (pos k) 1 30 ≤ 30
unfolding backoff_seconds
backoff-le-cap k = ground arith

retry_result : (healthy : ℕ → Bool) (n k : ℕ) → (retry healthy n k).0 ≡ any_from healthy n k
unfolding retry
retry_result healthy zero k = refl
retry_result healthy (suc n) k = ground (arith, retry_result healthy n (suc k))

reconciles-retry :
    (healthy : ℕ → Bool) (n k : ℕ)
    → reconciles (retry healthy n k).1 ≡ (if (retry healthy n k).0 then 1 else 0)
unfolding retry
reconciles-retry healthy zero k = refl
reconciles-retry healthy (suc n) k = ground (arith, reconciles-retry healthy n (suc k))

retry_ends :
    (healthy : ℕ → Bool) (n k : ℕ)
    → ends_reconciled false (retry healthy n k).1 ≡ (retry healthy n k).0
unfolding retry
retry_ends healthy zero k = refl
retry_ends healthy (suc n) k = ground (arith, retry_ends healthy n (suc k))

retry_sleep : (healthy : ℕ → Bool) (n k : ℕ) → total_sleep (retry healthy n k).1 ≤ 30 * n
unfolding retry
retry_sleep healthy zero k = omega arith
retry_sleep healthy (suc n) k = ground (arith, retry_sleep healthy n (suc k), backoff-le-cap k)

-- With callbacks that raise nothing, the watchdog reports a healthy connection exactly when the first check or one of the checks
-- after its sleeps passes; where the first check failed it has then run one reconcile, as its
-- last action, and it runs none in any other case. It sleeps at most the cap for each attempt.
pub ensure_healthy_lem :
    (healthy : ℕ → Bool) (attempts : ℕ)
    → let (up, actions) = ensure_healthy healthy attempts in
      (up ≡ (healthy 0 || any_from healthy attempts 1))
      × (reconciles actions ≡ (if up && not (healthy 0) then 1 else 0))
      × (ends_reconciled false actions ≡ (up && not (healthy 0)))
      × (total_sleep actions ≤ 30 * attempts)
unfolding ensure_healthy
ensure_healthy_lem healthy attempts = ground (
  arith,
  retry_result healthy attempts 1,
  reconciles-retry healthy attempts 1,
  retry_ends healthy attempts 1,
  retry_sleep healthy attempts 1,
)
