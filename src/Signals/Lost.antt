-- ===== src/Signals/Lost.antt =====
-- autotrader/signals/webhook.py and autotrader/signals/coerce.py: a score that no whole number is near
-- to, such as the NaN and the infinities that `json.loads` accepts.
use autotrader_ai.Prelude.{◌≡◌, refl, ap, ◌∙◌, arith, true, false, none, some, [], ◌∷◌, null}
use autotrader_ai.Prelude.Text.{Text, text, upper}
use autotrader_ai.Float.{Float, fzero, fixed_float}
use autotrader_ai.Engine.World.{Fault, Result, ok, err}
use autotrader_ai.Signals.Normalize.{lstrip, rstrip}
use autotrader_ai.Signals.Json.{
  Json, missing, bool, int, real, str, arr, obj, Items, cons, Fields, end, field, get_field,
}
use autotrader_ai.Signals.Coerce.{
  Coerced, skipped, label, label_of, num, direction_of, conviction, score_or_zero, named_id,
  or_json, truth, given, raw_changes,
}
use autotrader_ai.Signals.Coerce.Document.{
  coerce_change, coerce_items, coerce_doc, coerce_payload, identified, finish_doc, salvage,
}
use autotrader_ai.Signals.Webhook.{
  Server, Request, Folders, crashed, auth_failure, repaired, handle_sweep,
}

module _ {W : Type 0} where
  -- A BUY with a score.
  abbrev pub rated : Text → W → Fields W
  rated ticker score =
      field (text "ticker") (str ticker)
        (field (text "new_signal") (str (text "BUY")) (field (text "new_score") (real score) end))

  -- A document whose first change it is.
  abbrev pub sweep_of : Text → Json W → Fields W → Items W → Fields W
  sweep_of id stamp item items = field (text "routine_id") (str id) (
      field (text "timestamp") stamp
        (field (text "signal_changes") (arr (cons (obj item) items)) end))

named_lem :
    (W : Type 0) ⦃f : Float W⦄ (id : Text)
    → null (rstrip (lstrip id)) ≡ false
    → named_id (or_json {W = W} (str id) missing) ≡ some id
unfolding named_id or_json truth
named_lem W [] h = absurd (unfold lstrip rstrip in ground arith)
named_lem W (c ∷ id) h = rw h refl

module _ {W : Type 0} ⦃f : Float W⦄ where
  kept : (j : Json W) → truth j ≡ true → or_json j missing ≡ j
  unfolding or_json
  kept j h = rw h refl

  given-some : (j : Json W) → truth j ≡ true → given j ≡ some j
  unfolding given truth
  given-some missing h = absurd (ground arith)
  given-some (bool b) h = refl
  given-some (int n) h = refl
  given-some (real x) h = refl
  given-some (str t) h = refl
  given-some (arr xs) h = refl
  given-some (obj fs) h = refl

  given_lem : (j : Json W) → truth j ≡ true → given (or_json (or_json j missing) missing) ≡ some j
  given_lem j h = ap given (ap (λ x. or_json x missing) (kept j h) ∙ kept j h) ∙ given-some j h

module _ {W : Type 0} ⦃f : Float W⦄ (show : Json W → Text) (ticker : Text) (score : W)
    (nonzero : f.eq score fzero ≡ false)
    (unrounded : f.round (f.div score (f.lit 10 0)) ≡ none) where
  conviction_fails : conviction (score_or_zero (some score)) ≡ none
  conviction_fails =
      let same : score_or_zero (some score) ≡ score = unfold score_or_zero in rw nonzero refl in
      ap conviction same ∙ (unfold conviction in rw (unrounded, conviction) refl)

  direction_fails : direction_of (some (text "BUY")) none (some score) none ≡ err Fault.not_finite
  unfolding direction_of
  direction_fails = rw (conviction_fails, direction_of) refl

  change_fails : coerce_change show (obj (rated ticker score)) ≡ err Fault.not_finite
  unfolding coerce_change get_field label label_of num upper lstrip rstrip
  change_fails =
      ap
        (λ a. elim a as (λ _. Result Coerced) [
          | err e ↦ err e
          | ok none ↦ ok skipped
          | ok (some (d, points)) ↦
              ok (salvage show (rated ticker score) none (some (text "BUY")) d points)
        ])
        direction_fails

  items_fail :
      (items : Items W)
      → coerce_items show (cons (obj (rated ticker score)) items) ≡ err Fault.not_finite
  unfolding coerce_items
  items_fail items = rw (change_fails, coerce_items) refl

  document_fails :
      (id : Text) (stamp : Json W) (items : Items W)
      → null (rstrip (lstrip id)) ≡ false
      → truth stamp ≡ true
      → coerce_payload show (some (obj (sweep_of id stamp (rated ticker score) items)))
        ≡ err Fault.not_finite
  unfolding coerce_payload coerce_doc raw_changes get_field
  document_fails id stamp items h k =
      let doc = sweep_of id stamp (rated ticker score) items in
      ap (λ o. identified show doc o (given (or_json (or_json stamp missing) missing)))
        (named_lem W id h)
      ∙ ap (identified show doc (some id)) (given_lem stamp k)
      ∙ ap (finish_doc show doc id stamp) (items_fail items)

  -- A request that knows the secret makes the handler raise, so that its body is neither put into
  -- the inbox nor kept among the rejected ones, where the body is not valid as it is, has a routine's
  -- id that is not blank, a time stamp that is not empty and a list of changes, and no other field,
  -- and where its first change has a ticker, the label BUY and a score that is not zero and cannot be
  -- rounded, and no other field. The repair of the body raises at the rounding, where the handler
  -- expects no exception.
  pub unrounded_score_lost :
      (s : Server W) (r : Request) (d : Folders) (id : Text) (stamp : Json W) (items : Items W)
      → s.show ≡ show
      → null (rstrip (lstrip id)) ≡ false
      → truth stamp ≡ true
      → auth_failure s r ≡ none
      → s.is_valid r.body ≡ false
      → s.loads r.body ≡ some (obj (sweep_of id stamp (rated ticker score) items))
      → handle_sweep s r d ≡ (crashed, d)
  unfolding handle_sweep
  unrounded_score_lost s r d id stamp items shown h k auth invalid loaded =
      let doc = obj (sweep_of id stamp (rated ticker score) items) in
      let fails : coerce_payload s.show (s.loads r.body) ≡ err Fault.not_finite =
        ap (λ j. coerce_payload s.show j) loaded
        ∙ ap (λ g. coerce_payload g (some doc)) shown
        ∙ document_fails id stamp items h k in
      rw (auth, handle_sweep) (rw invalid (ap (λ c. repaired s r.body c d) fails))
