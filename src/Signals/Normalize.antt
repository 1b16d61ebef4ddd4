-- ===== src/Signals/Normalize.antt =====
-- autotrader/signals/normalize.py, on the payload that autotrader/signals/schema.py validates: the changes
-- of a routine become signals.
use autotrader_ai.Prelude.{
  ℕ, ◌+◌, Bool, false, not, ◌&&◌, ◌||◌, Option, none, some, List, [], ◌∷◌, ◌++◌, map, leb, ◌==◌,
  if◌then◌else◌, is_some, any, null,
}
use autotrader_ai.Prelude.Int.{ℤ, abs_ℤ}
use autotrader_ai.Prelude.Text.{Text, text, contains, upper, strip_prefix}
use autotrader_ai.Float.{Float, fzero, fone, fmin, fmax, fixed_float}
use autotrader_ai.Domain.{Side, OverlayType, Signal, finite_pos}
use autotrader_ai.Rebalance.{set_key, get_key}

pub data Direction : Type 0 where
  up down : Direction

pub record SignalChange : Type 0 where
  pub ticker : Text
  pub direction : Direction
  pub transition : List Text
  pub points_delta : ℤ
  pub driver : Text
  pub overlay : Option OverlayType

-- The fields of a payload that the normalisation reads.
pub record Payload (W : Type 0) : Type 0 where
  pub signal_changes : List SignalChange
  pub hard_stops : List (Text × W)

abbrev pub direction_text : Direction → Text
direction_text Direction.up = text "UP"
direction_text Direction.down = text "DOWN"

abbrev side_of : Direction → Side
side_of Direction.up = Side.buy
side_of Direction.down = Side.sell

-- `s.lower()`
unfoldable pub lower : Text → Text
lower = map λ c. if leb b'A' c && leb c b'Z' then c + 32 else c

-- `p in s`
unfoldable pub has_part : Text → Text → Bool
has_part p [] = is_some (strip_prefix p [])
has_part p (c ∷ s) = is_some (strip_prefix p (c ∷ s)) || has_part p s

-- the whitespace of `str.strip` in ASCII
abbrev is_space : ℕ → Bool
is_space c = c == 32 || (leb 9 c && leb c 13) || (leb 28 c && leb c 31)

unfoldable pub lstrip : Text → Text
lstrip [] = []
lstrip (c ∷ s) = let rest = lstrip s in if is_space c then rest else c ∷ s

unfoldable pub rstrip : Text → Text
rstrip [] = []
rstrip (c ∷ s) = let rest = rstrip s in if is_space c && null rest then [] else c ∷ rest

-- `'/'.join(parts)`
unfoldable pub join_slash : List Text → Text
join_slash [] = []
join_slash (s ∷ []) = s
join_slash (s ∷ t ∷ rest) = s ++ b'/' ∷ join_slash (t ∷ rest)

unfoldable pub last_of : List Text → Option Text
last_of [] = none
last_of (s ∷ []) = some s
last_of (s ∷ t ∷ rest) = last_of (t ∷ rest)

-- `s or t`
abbrev or_text : Text → Text → Text
or_text s t = if null s then t else s

unfoldable pub overlay_intended : SignalChange → Bool
overlay_intended change =
    has_part (text "overlay") (lower change.driver) || elim (last_of change.transition) [
      | none ↦ false
      | some s ↦ contains (upper s) (text "HEDGE" ∷ text "INCOME" ∷ text "BULLISH" ∷ [])
    ]

unfoldable pub normalize_symbol : Text → Text
normalize_symbol ticker =
    let t = upper (rstrip (lstrip ticker)) in if any (λ c. c == b'.') t then t else text "US." ++ t

module _ {W : Type 0} ⦃f : Float W⦄ where
  unfoldable pub confidence_of : ℤ → W → W
  confidence_of points_delta scale =
      if f.le scale fzero
      then fzero
      else fmax fzero (fmin fone (f.div (f.of_int (abs_ℤ points_delta)) scale))

  unfoldable pub normalize_change : SignalChange → W → Option W → Signal W
  normalize_change change confidence_scale stop_price = record {
    symbol = normalize_symbol change.ticker;
    direction = side_of change.direction;
    confidence = confidence_of change.points_delta confidence_scale;
    rationale =
        or_text change.driver (text "external")
        ++ text ": "
        ++ or_text (join_slash change.transition) (direction_text change.direction);
    stop_price = stop_price;
    overlay = change.overlay;
  }

  -- The stops under their normalised symbols; a bad price is dropped.
  unfoldable pub usable_stops : List (Text × W) → List (Text × W) → List (Text × W)
  usable_stops [] stops = stops
  usable_stops (e ∷ es) stops =
      usable_stops es (if finite_pos e.1 then set_key (normalize_symbol e.0) e.1 stops else stops)

  unfoldable pub normalize_changes : List SignalChange → List (Text × W) → W → List (Signal W)
  normalize_changes [] stops scale = []
  normalize_changes (c ∷ cs) stops scale =
      let rest = normalize_changes cs stops scale in
      if overlay_intended c && not (is_some c.overlay)
      then rest
      else normalize_change c scale (get_key (normalize_symbol c.ticker) stops) ∷ rest

  unfoldable pub normalize_payload : Payload W → W → List (Signal W)
  normalize_payload payload confidence_scale =
      normalize_changes payload.signal_changes (usable_stops payload.hard_stops []) confidence_scale
