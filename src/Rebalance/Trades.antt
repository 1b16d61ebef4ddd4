-- ===== src/Rebalance/Trades.antt =====
-- autotrader/rebalance.py: what each trade that `compute_plan` makes keeps to.
use autotrader_ai.Prelude.{◌≡◌, inl, inr, some, List, arith, Option-cases}
use autotrader_ai.Prelude.Int.{ℤ, pos, ◌+ℤ◌, ◌-ℤ◌, ◌≤ℤ◌, ◌<ℤ◌, min_ℤ, max_ℤ, +ℤ_parts, -ℤ_parts}
use autotrader_ai.Prelude.Text.{Text}
use autotrader_ai.Float.{Float, fzero, fmax, fixed_float}
use autotrader_ai.Domain.{Side, AccountSnapshot, position_qty}
use autotrader_ai.Config.{RiskConfig}
use autotrader_ai.Rebalance.Defs.{
  TradeAction, trim, topup, RebalanceTrade, get_key, traded, covered_shares, whole_shares,
  plan_trim, plan_topup, plan_symbol,
}

-- The clamps of a trim: a positive quantity leaves the covered shares.
trim_room :
    (shares current covered : ℤ)
    → let qty = min_ℤ (min_ℤ shares current) (max_ℤ (pos 0) (current -ℤ covered)) in
      pos 0 <ℤ qty → covered ≤ℤ current -ℤ qty
unfolding min_ℤ max_ℤ
trim_room shares current covered h = ground (
  arith,
  -ℤ_parts current covered,
  -ℤ_parts current (min_ℤ (min_ℤ shares current) (max_ℤ (pos 0) (current -ℤ covered))),
)

topup_room :
    (wanted by_notional limit current by_exposure : ℤ)
    → let qty =
        min_ℤ (min_ℤ (min_ℤ wanted by_notional) (max_ℤ (pos 0) (limit -ℤ current))) by_exposure in
      pos 0 <ℤ qty → current +ℤ qty ≤ℤ limit
unfolding min_ℤ max_ℤ
topup_room wanted by_notional limit current by_exposure h = ground (
  arith,
  -ℤ_parts limit current,
  +ℤ_parts current
      (min_ℤ (min_ℤ (min_ℤ wanted by_notional) (max_ℤ (pos 0) (limit -ℤ current))) by_exposure),
)

module _ {W : Type 0} ⦃f : Float W⦄ (snapshot : AccountSnapshot W) (cfg : RiskConfig W) where
  -- A trim sells part of a holding and keeps the shares that open short calls pledge; a top-up buys
  -- and stays under the position cap. Either announces the position that it leads to.
  abbrev pub KeepsBounds : TradeAction → RebalanceTrade → Type 0
  KeepsBounds trim t =
      (t.side ≡ Side.sell)
      × (t.new_total_qty ≡ position_qty snapshot t.symbol -ℤ t.qty)
      × (covered_shares snapshot t.symbol ≤ℤ t.new_total_qty)
  KeepsBounds topup t =
      (t.side ≡ Side.buy)
      × (t.new_total_qty ≡ position_qty snapshot t.symbol +ℤ t.qty)
      × (t.new_total_qty ≤ℤ cfg.max_position_qty)

  abbrev pub IsSound : RebalanceTrade → Type 0
  IsSound t = (pos 0 <ℤ t.qty) × KeepsBounds t.action t

  plan_trim-IsSound :
      (symbol : Text) (price excess : W) (t : RebalanceTrade)
      → plan_trim symbol snapshot cfg price excess ≡ some (traded t)
      → IsSound t × (t.symbol ≡ symbol)
  unfolding plan_trim
  plan_trim-IsSound symbol price excess t h = elim (Option-cases (whole_shares excess price)) [
    | inl e ↦ absurd (ground arith)
    | inr (shares, e) ↦
        ground
          (arith, trim_room shares (position_qty snapshot symbol) (covered_shares snapshot symbol))
  ]

  plan_topup-IsSound :
      (symbol : Text) (price shortfall running : W) (t : RebalanceTrade)
      → plan_topup symbol snapshot cfg price shortfall running ≡ some (traded t)
      → IsSound t × (t.symbol ≡ symbol)
  unfolding plan_topup
  plan_topup-IsSound symbol price shortfall running t h =
      elim (Option-cases (whole_shares shortfall price)) [
        | inl e ↦ absurd (ground arith)
        | inr (wanted, e) ↦ elim (Option-cases (whole_shares cfg.max_order_notional price)) [
          | inl e2 ↦ absurd (ground arith)
          | inr (by_notional, e2) ↦
              elim (Option-cases
                (whole_shares (fmax fzero (f.sub cfg.max_gross_exposure running)) price)) [
                  | inl e3 ↦ absurd (ground arith)
                  | inr (by_exposure, e3) ↦ ground (
                    arith,
                    topup_room wanted by_notional cfg.max_position_qty
                        (position_qty snapshot symbol) by_exposure,
                  )
                ]
        ]
      ]

  pub plan_symbol-IsSound :
      (prices : List (Text × W)) (running : W) (e : Text × W) (t : RebalanceTrade)
      → plan_symbol snapshot prices cfg running e ≡ some (traded t)
      → IsSound t × (t.symbol ≡ e.0)
  unfolding plan_symbol
  plan_symbol-IsSound prices running (symbol, target_weight) t h =
      elim (Option-cases (get_key symbol prices)) [
        | inl e ↦ absurd (ground arith)
        | inr (price, e) ↦
            let value = f.mul (f.of_int (position_qty snapshot symbol)) price in
            let target_value = f.mul target_weight snapshot.total_assets in
            ground (
              arith,
              λ (k : plan_trim symbol snapshot cfg price (f.sub value target_value)
                    ≡ some (traded t)).
                  (plan_trim-IsSound symbol price (f.sub value target_value) t k),
              λ (k : plan_topup symbol snapshot cfg price (f.sub target_value value) running
                    ≡ some (traded t)).
                  (plan_topup-IsSound symbol price (f.sub target_value value) running t k),
            )
      ]
