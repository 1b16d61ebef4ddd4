-- ===== src/Rebalance/Defs.antt =====
-- autotrader/rebalance.py: the drift-band plan. The outer option is the exception that `int` raises
-- at a NaN or an infinity.
use autotrader_ai.Prelude.{
  ℕ, ◌*◌, not, ◌&&◌, ◌||◌, Option, none, some, List, [], ◌∷◌, ◌++◌, map, foldl, if◌then◌else◌,
  or_default, length, null,
}
use autotrader_ai.Prelude.Int.{ℤ, pos, ◌+ℤ◌, ◌-ℤ◌, leb_ℤ, min_ℤ, max_ℤ}
use autotrader_ai.Prelude.Text.{Text, text_eq, contains, upper, text_lt}
use autotrader_ai.Float.{Float, fzero, fone, fmax, fixed_float}
use autotrader_ai.Domain.{
  Side, OptionRight, AccountSnapshot, position_qty, short_option_contracts, gross_exposure,
}
use autotrader_ai.Config.{RiskConfig}

abbrev pub shares_per_contract : ℕ
shares_per_contract = 100

pub data TradeAction : Type 0 where
  trim topup : TradeAction

pub data SkipReason : Type 0 where
  no_equity no_price within_band covered_floor min_notional capped : SkipReason

pub record RebalanceTrade : Type 0 where
  pub symbol : Text
  pub side : Side
  pub qty : ℤ
  pub action : TradeAction
  pub new_total_qty : ℤ

pub record RebalancePlan : Type 0 where
  pub trades : List RebalanceTrade
  pub skipped : List (Text × SkipReason)

infixl 5 ◌>>=◌
abbrev pub ◌>>=◌ : {A B : Type 0} → Option A → (A → Option B) → Option B
none >>= k = none
some a >>= k = k a

-- A dict from texts, in insertion order: `d[k] = v`, and `d.get(k)`.
module _ {V : Type 0} where
  unfoldable pub set_key : Text → V → List (Text × V) → List (Text × V)
  unfolding text_eq
  set_key k v [] = (k, v) ∷ []
  set_key k v (e ∷ d) = if text_eq e.0 k then (k, v) ∷ d else e ∷ set_key k v d

  unfoldable pub get_key : Text → List (Text × V) → Option V
  unfolding text_eq
  get_key k [] = none
  get_key k (e ∷ d) = if text_eq e.0 k then some e.1 else get_key k d

  -- `sorted(d)`, with the values
  unfoldable pub insert_sorted : Text × V → List (Text × V) → List (Text × V)
  unfolding text_lt
  insert_sorted e [] = e ∷ []
  insert_sorted e (d ∷ ds) = if text_lt d.0 e.0 then d ∷ insert_sorted e ds else e ∷ d ∷ ds

  unfoldable pub sort_keys : List (Text × V) → List (Text × V)
  unfolding insert_sorted
  sort_keys [] = []
  sort_keys (e ∷ d) = insert_sorted e (sort_keys d)

-- What the loop does for one symbol: a trade, or a reason to skip it.
pub data Outcome : Type 0 where
  traded : RebalanceTrade → Outcome
  skip : SkipReason → Outcome

abbrev trim_trade : Text → ℤ → ℤ → RebalanceTrade
trim_trade s qty total = record {
  symbol = s;
  side = Side.sell;
  qty = qty;
  action = trim;
  new_total_qty = total;
}

abbrev topup_trade : Text → ℤ → ℤ → RebalanceTrade
topup_trade s qty total = record {
  symbol = s;
  side = Side.buy;
  qty = qty;
  action = topup;
  new_total_qty = total;
}

module _ {W : Type 0} ⦃f : Float W⦄ where
  -- `{s.upper(): v for s, v in scores.items() if s.upper() in allowed and v > 0}`
  unfoldable pub positive_scores : List (Text × W) → List Text → List (Text × W)
  unfolding set_key upper contains
  positive_scores scores allowed =
      foldl
        (λ d e.
          if contains (upper e.0) allowed && f.lt fzero e.1 then set_key (upper e.0) e.1 d else d)
        [] scores

  unfoldable pub target_fractions : List (Text × W) → List Text → W → List (Text × W)
  unfolding positive_scores
  target_fractions scores allowed cash_buffer_pct =
      let scored = positive_scores scores allowed in
      let total = foldl (λ t e. f.add t e.1) (f.of_int (pos 0)) scored in
      let investable = fmax fzero (f.sub fone (f.div cash_buffer_pct (f.lit 100 0))) in
      let for_scored =
        f.mul investable
          (f.div (f.of_int (pos (length scored))) (f.of_int (pos (length allowed)))) in
      if null allowed || null scored
      then []
      else map (λ e. (e.0, f.mul (f.div e.1 total) for_scored)) scored

  -- `int(amount // price)`
  unfoldable pub whole_shares : W → W → Option ℤ
  whole_shares amount price = f.trunc (f.floordiv amount price)

  -- The shares of a symbol that open short calls pledge.
  unfoldable pub covered_shares : AccountSnapshot W → Text → ℤ
  covered_shares snapshot symbol =
      pos (short_option_contracts snapshot symbol OptionRight.call * shares_per_contract)

  -- Overweight: `excess` is the value to sell.
  unfoldable pub plan_trim : Text → AccountSnapshot W → RiskConfig W → W → W → Option Outcome
  unfolding whole_shares
  plan_trim symbol snapshot cfg price excess = do
    shares ← whole_shares excess price
    let current_qty = position_qty snapshot symbol
    let wanted = min_ℤ shares current_qty
    let free = max_ℤ (pos 0) (current_qty -ℤ covered_shares snapshot symbol)
    let qty = min_ℤ wanted free
    some (
        if leb_ℤ wanted (pos 0)
        then skip within_band
        else if leb_ℤ qty (pos 0)
        then skip covered_floor
        else if f.lt (f.mul (f.of_int qty) price) cfg.rebalance_min_notional
        then skip min_notional
        else traded (trim_trade symbol qty (current_qty -ℤ qty)))

  -- Underweight: `shortfall` is the value to buy, and `running_gross` the exposure so far.
  unfoldable pub plan_topup : Text → AccountSnapshot W → RiskConfig W → W → W → W → Option Outcome
  unfolding whole_shares
  plan_topup symbol snapshot cfg price shortfall running_gross =
      whole_shares shortfall price >>= λ wanted.
      if leb_ℤ wanted (pos 0) then some (skip within_band) else (do
        notional_cap_qty ← whole_shares cfg.max_order_notional price
        gross_room_qty ←
            whole_shares (fmax fzero (f.sub cfg.max_gross_exposure running_gross)) price
        let current_qty = position_qty snapshot symbol
        let room = max_ℤ (pos 0) (cfg.max_position_qty -ℤ current_qty)
        let qty = min_ℤ (min_ℤ (min_ℤ wanted notional_cap_qty) room) gross_room_qty
        some (
            if leb_ℤ qty (pos 0)
            then skip capped
            else if f.lt (f.mul (f.of_int qty) price) cfg.rebalance_min_notional
            then skip min_notional
            else traded (topup_trade symbol qty (current_qty +ℤ qty))))

  -- The body of the loop for one symbol with its target weight.
  unfoldable pub plan_symbol :
      AccountSnapshot W → List (Text × W) → RiskConfig W → W → Text × W → Option Outcome
  plan_symbol snapshot prices cfg running_gross (symbol, target_weight) =
      elim (get_key symbol prices) [
        | none ↦ some (skip no_price)
        | some price ↦
            let total = snapshot.total_assets in
            let current_value = f.mul (f.of_int (position_qty snapshot symbol)) price in
            let drift = f.sub (f.div current_value total) target_weight in
            let band = f.div cfg.rebalance_band_pct (f.lit 100 0) in
            let target_value = f.mul target_weight total in
            if not (f.is_finite price) || f.le price fzero
            then some (skip no_price)
            else if f.le (f.abs drift) band
            then some (skip within_band)
            else if f.lt band drift
            then plan_trim symbol snapshot cfg price (f.sub current_value target_value)
            else plan_topup symbol snapshot cfg price (f.sub target_value current_value)
                running_gross
      ]

-- The trims, the top-ups and the skips so far, and the exposure with the top-ups.
pub record Progress (W : Type 0) : Type 0 where
  pub trims : List RebalanceTrade
  pub topups : List RebalanceTrade
  pub skips : List (Text × SkipReason)
  pub running_gross : W

module _ {W : Type 0} ⦃f : Float W⦄ where
  unfoldable pub record_outcome : List (Text × W) → Text → Outcome → Progress W → Progress W
  record_outcome prices symbol (skip r) p = record p { skips = p.skips ++ (symbol, r) ∷ [] }
  record_outcome prices symbol (traded t) p = elim t.action [
    | trim ↦ record p { trims = p.trims ++ t ∷ [] }
    | topup ↦ record p {
      topups = p.topups ++ t ∷ [];
      running_gross =
          f.add p.running_gross (f.mul (f.of_int t.qty) (or_default (get_key symbol prices) fzero));
    }
  ]

  unfoldable pub plan_symbols :
      AccountSnapshot W
      → List (Text × W)
      → RiskConfig W
      → List (Text × W)
      → Progress W
      → Option (Progress W)
  plan_symbols snapshot prices cfg [] p = some p
  plan_symbols snapshot prices cfg (e ∷ es) p =
      plan_symbol snapshot prices cfg p.running_gross e >>= λ o.
      plan_symbols snapshot prices cfg es (record_outcome prices e.0 o p)

  unfoldable pub compute_plan :
      AccountSnapshot W → List (Text × W) → List (Text × W) → RiskConfig W → Option RebalancePlan
  compute_plan snapshot scores prices cfg =
      let fractions = target_fractions scores cfg.allowed_symbols cfg.rebalance_cash_buffer_pct in
      let start : Progress W = record {
        trims = [];
        topups = [];
        skips = [];
        running_gross = gross_exposure snapshot;
      } in
      if f.le snapshot.total_assets fzero
      then some (record { trades = []; skipped = map (λ e. (e.0, no_equity)) fractions })
      else (plan_symbols snapshot prices cfg (sort_keys fractions) start >>= λ p.
          some (record { trades = p.trims ++ p.topups; skipped = p.skips }))
