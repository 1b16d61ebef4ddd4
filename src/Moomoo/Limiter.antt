-- ===== src/Moomoo/Limiter.antt =====
-- autotrader/rate_limiter.py: the token bucket before the broker's metered queries. The lock is left
-- out: the trader's loop is the only thread that acquires.
use autotrader_ai.Prelude.{
  ◌≡◌, ℕ, zero, suc, Bool, true, false, ◌||◌, Option, none, some, refl, inl, inr, arith, Bool-cases,
  if◌then◌else◌, is_some,
}
use autotrader_ai.Float.{Float, fone, fmin, fixed_float}

pub record Bucket (W : Type 0) : Type 0 where
  pub capacity : W
  pub refill_rate : W
  pub tokens : W
  pub last : W

-- `time.monotonic()` and `time.sleep(0.02)`
pub record Timer (W S : Type 0) : Type 0 where
  pub monotonic : S → W × S
  pub doze : S → S

module _ {W : Type 0} ⦃f : Float W⦄ where
  unfoldable pub new_bucket : W → W → W → Bucket W
  new_bucket capacity refill_rate now = record {
    capacity = capacity;
    refill_rate = refill_rate;
    tokens = capacity;
    last = now;
  }

  -- The tokens at a later time.
  unfoldable pub refilled : Bucket W → W → W
  refilled b now = fmin b.capacity (f.add b.tokens (f.mul (f.sub now b.last) b.refill_rate))

  -- The part under the lock.
  unfoldable pub take_token : Bucket W → W → Bool × Bucket W
  unfolding refilled
  take_token b now =
      let tokens = refilled b now in
      if f.le fone tokens
      then (true, record b { tokens = f.sub tokens fone; last = now })
      else (false, record b { tokens = tokens; last = now })

  module _ {S : Type 0} (timer : Timer W S) where
    -- The loop, with as many rounds at most as there is fuel; `none` means that it ran out.
    unfoldable pub wait_token : ℕ → W → Bucket W → S → Option Bool × Bucket W × S
    unfolding take_token
    wait_token zero deadline b s = (none, b, s)
    wait_token (suc fuel) deadline b s =
        let (now, s1) = timer.monotonic s in
        let (got, b') = take_token b now in
        let (later, s2) = timer.monotonic s1 in
        let rest = wait_token fuel deadline b' (timer.doze s2) in
        if got
        then (some true, b', s1)
        else if f.le deadline later
        then (some false, b', s2)
        else rest

    unfoldable pub acquire : ℕ → W → Bucket W → S → Option Bool × Bucket W × S
    unfolding wait_token
    acquire fuel timeout b s =
        let (start, s1) = timer.monotonic s in wait_token fuel (f.add start timeout) b s1

    -- The timer passes the deadline within so many rounds of the loop.
    unfoldable pub passes_deadline : ℕ → W → S → Bool
    passes_deadline zero deadline s = false
    passes_deadline (suc rounds) deadline s =
        let (later, s2) = timer.monotonic (timer.monotonic s).1 in
        f.le deadline later || passes_deadline rounds deadline (timer.doze s2)

    -- The loop answers where the timer passes the deadline within the rounds that the fuel gives,
    -- whatever is in the bucket.
    pub wait_token-answers :
        (fuel : ℕ) (deadline : W) (b : Bucket W) (s : S)
        → passes_deadline fuel deadline s ≡ true
        → is_some (wait_token fuel deadline b s).0 ≡ true
    unfolding wait_token passes_deadline
    wait_token-answers zero deadline b s h = h
    wait_token-answers (suc fuel) deadline b s h =
        let now = (timer.monotonic s).0 in
        let read = timer.monotonic (timer.monotonic s).1 in
        elim (Bool-cases (take_token b now).0) [
          | inl got ↦ rw got refl
          | inr empty ↦ rw empty (elim (Bool-cases (f.le deadline read.0)) [
            | inl late ↦ rw late refl
            | inr early ↦ rw early (
                wait_token-answers fuel deadline (take_token b now).1 (timer.doze read.1)
                  (ground arith))
          ])
        ]
