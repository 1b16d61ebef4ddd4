-- ===== src/Signals/Json.antt =====
-- The values that Python's `json.loads` gives, as autotrader/signals/coerce.py and
-- autotrader/signals/routine_adapter.py read them.
use autotrader_ai.Prelude.{Bool, Option, none, some, if◌then◌else◌}
use autotrader_ai.Prelude.Int.{ℤ}
use autotrader_ai.Prelude.Text.{Text, text_eq}
use autotrader_ai.Float.{fixed_float}

-- The lists and objects are types of their own. An object names each key once.
mutual
  pub data Json (W : Type 0) : Type 0 where
    missing : Json W
    bool : Bool → Json W
    int : ℤ → Json W
    real : W → Json W
    str : Text → Json W
    arr : Items W → Json W
    obj : Fields W → Json W

  pub data Items (W : Type 0) : Type 0 where
    nil : Items W
    cons : Json W → Items W → Items W

  pub data Fields (W : Type 0) : Type 0 where
    end : Fields W
    field : Text → Json W → Fields W → Fields W

-- `d.get(key)`; `missing` is Python's None, also where a key is null.
unfoldable pub get_field : {W : Type 0} → Text → Fields W → Option (Json W)
unfolding text_eq
get_field k end = none
get_field k (field j v fs) = if text_eq j k then some v else get_field k fs
