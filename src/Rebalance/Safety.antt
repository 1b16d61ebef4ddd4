-- ===== src/Rebalance/Safety.antt =====
-- autotrader/rebalance.py: what a whole plan keeps to.
use mathlib.Core.Option.{some-injective}
use mathlib.Core.Path.{subst}
use autotrader_ai.Prelude.{
  ℕ, ◌+◌, Bool, ◌≡◌, refl, ap, ◌∙◌, ◌⊎◌, inl, inr, some, List, [], ◌∷◌, ◌++◌, map, arith,
  Bool-cases, Option-cases, All, All-append, All-mono,
}
use autotrader_ai.Prelude.Tally.{tally, map-append, tally-append, tally-last, tally-cons}
use autotrader_ai.Prelude.Text.{Text}
use autotrader_ai.Float.{Float, fzero, fixed_float}
use autotrader_ai.Domain.{AccountSnapshot, gross_exposure}
use autotrader_ai.Config.{RiskConfig}
use autotrader_ai.Rebalance.Defs.{
  TradeAction, trim, topup, SkipReason, no_equity, RebalanceTrade, RebalancePlan, sort_keys,
  insert_sorted, target_fractions, Outcome, traded, skip, plan_symbol, Progress, record_outcome,
  plan_symbols, compute_plan,
}
use autotrader_ai.Rebalance.Trades.{IsSound, plan_symbol-IsSound}

action_cases : (a : TradeAction) → (a ≡ trim) ⊎ (a ≡ topup)
action_cases trim = inl refl
action_cases topup = inr refl

abbrev pub traded_symbols : List RebalanceTrade → List Text
traded_symbols = map (λ t. t.symbol)

-- The symbols of entries under a symbol each.
abbrev pub keys_of : {V : Type 0} → List (Text × V) → List Text
keys_of = map (λ e. e.0)

module _ {W : Type 0} ⦃f : Float W⦄ (snapshot : AccountSnapshot W) (cfg : RiskConfig W)
    (test : Text → Bool) where
  abbrev HasAction : TradeAction → RebalanceTrade → Type 0
  HasAction a t = IsSound snapshot cfg t × (t.action ≡ a)

  -- What the loop keeps: sound trims and sound top-ups, and one entry under each symbol passed; `n` counts
  -- those that satisfy the test.
  record Keeps (n : ℕ) (p : Progress W) : Type 0 where
    trims_sound : All (HasAction trim) p.trims
    topups_sound : All (HasAction topup) p.topups
    counted :
        tally test (traded_symbols p.trims)
          + tally test (traded_symbols p.topups)
          + tally test (keys_of p.skips)
        ≡ n

  record_outcome-Keeps :
      (n : ℕ) (prices : List (Text × W)) (symbol : Text) (o : Outcome) (p : Progress W)
      → ((t : RebalanceTrade) → o ≡ traded t → IsSound snapshot cfg t × (t.symbol ≡ symbol))
      → Keeps n p
      → Keeps (n + tally test (symbol ∷ [])) (record_outcome prices symbol o p)
  unfolding record_outcome
  record_outcome-Keeps n prices symbol (skip r) p sound k = record {
    trims_sound = k.trims_sound;
    topups_sound = k.topups_sound;
    counted = omega (arith, k.counted, tally-last test (λ e. e.0) p.skips (symbol, r));
  }
  record_outcome-Keeps n prices symbol (traded t) p sound k =
      let (good, named) = sound t refl in
      let here = ap (λ x. tally test (x ∷ [])) named in
      elim (action_cases t.action) [
        | inl e ↦ rw e (record {
          trims_sound = All-append (HasAction trim) p.trims (t ∷ []) k.trims_sound ((good, e), tt);
          topups_sound = k.topups_sound;
          counted = omega (arith, k.counted, here, tally-last test (λ t. t.symbol) p.trims t);
        })
        | inr e ↦ rw e (record {
          trims_sound = k.trims_sound;
          topups_sound =
              All-append (HasAction topup) p.topups (t ∷ []) k.topups_sound ((good, e), tt);
          counted = omega (arith, k.counted, here, tally-last test (λ t. t.symbol) p.topups t);
        })
      ]

  plan_symbols-Keeps :
      (n : ℕ) (prices : List (Text × W)) (es : List (Text × W)) (p q : Progress W)
      → Keeps n p
      → plan_symbols snapshot prices cfg es p ≡ some q
      → Keeps (n + tally test (keys_of es)) q
  unfolding plan_symbols
  plan_symbols-Keeps n prices [] p q k h =
      let zero_more : n ≡ n + tally test [] = unfold tally in omega arith in
      subst (Keeps (n + tally test [])) (some-injective _ _ h) (subst (λ m. Keeps m p) zero_more k)
  plan_symbols-Keeps n prices (e ∷ es) p q k h =
      elim (Option-cases (plan_symbol snapshot prices cfg p.running_gross e)) [
        | inl fault ↦ absurd (ground arith)
        | inr (o, r) ↦
            let next =
              record_outcome-Keeps n prices e.0 o p
                (λ t et.
                  plan_symbol-IsSound snapshot cfg prices p.running_gross e t (r ∙ ap some et))
                k in
            let rest =
              plan_symbols-Keeps (n + tally test (e.0 ∷ [])) prices es
                (record_outcome prices e.0 o p) q next (rw r at h) in
            let one_more : n + tally test (e.0 ∷ []) + tally test (keys_of es)
                ≡ n + tally test (e.0 ∷ keys_of es) =
              omega (arith, tally-cons test e.0 (keys_of es)) in
            subst (λ m. Keeps m q) one_more rest
      ]

  drop_action :
      (a : TradeAction) (ts : List RebalanceTrade)
      → All (HasAction a) ts
      → All (IsSound snapshot cfg) ts
  drop_action a ts h = All-mono (HasAction a) (IsSound snapshot cfg) ts (λ t s. s.0) h

-- All trims stand before all top-ups.
abbrev pub SellsFirst : List RebalanceTrade → Type 0
SellsFirst ts =
    (sells : List RebalanceTrade) × (buys : List RebalanceTrade) × (ts ≡ sells ++ buys)
    × All (λ t. t.action ≡ trim) sells
    × All (λ t. t.action ≡ topup) buys

tally-insert_sorted :
    {V : Type 0} (test : Text → Bool) (e : Text × V) (ds : List (Text × V))
    → tally test (keys_of (insert_sorted e ds)) ≡ tally test (e.0 ∷ keys_of ds)
unfolding insert_sorted tally
tally-insert_sorted test e [] = refl
tally-insert_sorted test e (d ∷ ds) = ground (arith, tally-insert_sorted test e ds)

tally-sort_keys :
    {V : Type 0} (test : Text → Bool) (d : List (Text × V))
    → tally test (keys_of (sort_keys d)) ≡ tally test (keys_of d)
unfolding sort_keys tally
tally-sort_keys test [] = refl
tally-sort_keys test (e ∷ d) =
    tally-insert_sorted test e (sort_keys d) ∙ ground (arith, tally-sort_keys test d)

keys-unfunded :
    {V : Type 0} (d : List (Text × V))
    → keys_of (map {B = Text × SkipReason} (λ e. (e.0, no_equity)) d) ≡ keys_of d
keys-unfunded [] = refl
keys-unfunded (e ∷ d) = ap (λ l. e.0 ∷ l) (keys-unfunded d)

module _ {W : Type 0} ⦃f : Float W⦄ (snapshot : AccountSnapshot W) (cfg : RiskConfig W)
    (scores prices : List (Text × W)) (test : Text → Bool) where
  abbrev targets : List (Text × W)
  targets = target_fractions scores cfg.allowed_symbols cfg.rebalance_cash_buffer_pct

  abbrev PlanIsSound : RebalancePlan → Type 0
  PlanIsSound plan =
      All (IsSound snapshot cfg) plan.trades
      × SellsFirst plan.trades
      × (tally test (traded_symbols plan.trades) + tally test (keys_of plan.skipped)
          ≡ tally test (keys_of targets))

  finish-IsSound :
      (n : ℕ) (p : Progress W)
      → Keeps snapshot cfg test n p
      → n ≡ tally test (keys_of targets)
      → PlanIsSound (record { trades = p.trims ++ p.topups; skipped = p.skips })
  finish-IsSound n p k e = (
    All-append (IsSound snapshot cfg) p.trims p.topups
        (drop_action snapshot cfg test trim p.trims k.trims_sound)
        (drop_action snapshot cfg test topup p.topups k.topups_sound),
    (
      p.trims,
      p.topups,
      refl,
      All-mono (HasAction snapshot cfg test trim) (λ t. t.action ≡ trim) p.trims (λ t s. s.1)
          k.trims_sound,
      All-mono (HasAction snapshot cfg test topup) (λ t. t.action ≡ topup) p.topups (λ t s. s.1)
          k.topups_sound,
    ),
    omega (
      arith,
      k.counted,
      e,
      ap (tally test) (map-append (λ t. t.symbol) p.trims p.topups),
      tally-append test (traded_symbols p.trims) (traded_symbols p.topups),
    ),
  )

  -- Every trade of a plan has a positive quantity. A trim sells part of a holding and leaves at
  -- least the shares that open short calls pledge; a top-up buys up to the position cap; each
  -- announces the position that it leads to. All trims stand before all top-ups. Whatever test the
  -- symbols are put to, as many entries of the plan, trades and skips together, have a symbol that
  -- satisfies it as targets do: every target has exactly one entry, under its own symbol.
  pub compute_plan-IsSound :
      (plan : RebalancePlan)
      → compute_plan snapshot scores prices cfg ≡ some plan
      → All (IsSound snapshot cfg) plan.trades
        × SellsFirst plan.trades
        × (tally test (traded_symbols plan.trades) + tally test (keys_of plan.skipped)
            ≡ tally test (
                keys_of
                  (target_fractions scores cfg.allowed_symbols cfg.rebalance_cash_buffer_pct)))
  unfolding compute_plan tally
  compute_plan-IsSound plan h =
      let fractions = target_fractions scores cfg.allowed_symbols cfg.rebalance_cash_buffer_pct in
      let start : Progress W = record {
        trims = [];
        topups = [];
        skips = [];
        running_gross = gross_exposure snapshot;
      } in
      elim (Bool-cases (f.le snapshot.total_assets fzero)) [
        | inl broke ↦ subst PlanIsSound (some-injective _ _ (rw broke at h)) (
          tt,
          ([], [], refl, tt, tt),
          ap (λ l. 0 + tally test l) (keys-unfunded fractions) ∙ omega arith,
        )
        | inr rich ↦
            elim (Option-cases (plan_symbols snapshot prices cfg (sort_keys fractions) start)) [
              | inl fault ↦ absurd (ground arith)
              | inr (p, e) ↦
                  let k =
                    plan_symbols-Keeps snapshot cfg test 0 prices (sort_keys fractions) start p
                      (record { trims_sound = tt; topups_sound = tt; counted = omega arith }) e in
                  subst PlanIsSound (some-injective _ _ (rw (rich, e) at h)) (
                    finish-IsSound (0 + tally test (keys_of (sort_keys fractions))) p k
                      (omega (arith, tally-sort_keys test fractions)))
            ]
      ]
