-- ===== src/Signals/Webhook.antt =====
-- autotrader/signals/webhook.py: the handler of `POST /webhook/sweep` on the folders that it writes.
-- The disk takes every file; the texts of a header are ASCII, which the digest's comparison wants.
use autotrader_ai.Prelude.{
  ◌≡◌, refl, ap, ◌∙◌, ◌⊎◌, inl, inr, Bool, true, false, not, Option, none, some, List, [], ◌∷◌,
  ◌++◌, arith, Bool-cases, Option-cases, if◌then◌else◌, null, All, or_default,
}
use autotrader_ai.Prelude.Text.{Text, text}
use autotrader_ai.Float.{Float, fixed_float}
use autotrader_ai.Engine.World.{Result, ok, err}
use autotrader_ai.Signals.Json.{Json}
use autotrader_ai.Signals.Coerce.{Canonical}
use autotrader_ai.Signals.Coerce.Document.{coerce_payload}

-- `_auth_failure_reason`
pub data AuthFailure : Type 0 where
  server_secret_unset missing_token missing_signature token_mismatch bad_signature : AuthFailure

-- The statuses 202, with `coerced`, 401 and 400, and 500 where the handler raises.
pub data Answer : Type 0 where
  accepted : Bool → Answer
  unauthorized invalid crashed : Answer

-- The bodies in the inbox and in its folder `rejected`, and the lines of the audit of refused
-- requests, the newest first.
pub record Folders : Type 0 where
  pub inbox : List Text
  pub rejected : List Text
  pub refusals : List AuthFailure

-- What the server is given: its secret, the digests of `hmac`, the validation of a body against the
-- schema, the JSON library and `str`.
pub record Server (W : Type 0) : Type 0 where
  pub secret : Text
  pub compare_digest : Text → Text → Bool
  pub hex_digest : Text → Text → Text
  pub is_valid : Text → Bool
  pub loads : Text → Option (Json W)
  pub dumps : Canonical W → Text
  pub show : Json W → Text

pub record Request : Type 0 where
  pub body : Text
  pub token : Option Text
  pub signature : Option Text

module _ {W : Type 0} ⦃f : Float W⦄ (s : Server W) where
  unfoldable pub auth_failure : Request → Option AuthFailure
  auth_failure r =
      let token = or_default r.token [] in
      let signature = or_default r.signature [] in
      if null s.secret
      then some server_secret_unset
      else if null token
      then some missing_token
      else if null signature
      then some missing_signature
      else if not (s.compare_digest token s.secret)
      then some token_mismatch
      else if not (s.compare_digest signature (text "sha256=" ++ s.hex_digest s.secret r.body))
      then some bad_signature
      else none

  unfoldable pub enqueue : Text → Folders → Folders
  enqueue body d = record d { inbox = body ∷ d.inbox }

  unfoldable pub quarantine : Text → Folders → Folders
  quarantine body d = record d { rejected = body ∷ d.rejected }

  -- With what the repair of a body gives.
  unfoldable pub repaired : Text → Result (Option (Canonical W)) → Folders → Answer × Folders
  unfolding enqueue quarantine
  repaired body (err e) d = (crashed, d)
  repaired body (ok none) d = (invalid, quarantine body d)
  repaired body (ok (some doc)) d =
      let canonical = s.dumps doc in
      if s.is_valid canonical
      then (accepted true, enqueue canonical d)
      else (invalid, quarantine body d)

  unfoldable pub handle_sweep : Request → Folders → Answer × Folders
  unfolding auth_failure repaired
  handle_sweep r d = elim (auth_failure r) [
    | some reason ↦ (unauthorized, record d { refusals = reason ∷ d.refusals })
    | none ↦
        if s.is_valid r.body
        then (accepted false, enqueue r.body d)
        else repaired r.body (coerce_payload s.show (s.loads r.body)) d
  ]

  unfoldable pub serve_requests : List Request → Folders → Folders
  unfolding handle_sweep
  serve_requests [] d = d
  serve_requests (r ∷ rs) d = serve_requests rs (handle_sweep r d).1

  abbrev pub AllValid : List Text → Type 0
  AllValid = All (λ body. s.is_valid body ≡ true)

  repaired-AllValid :
      (body : Text) (c : Result (Option (Canonical W))) (d : Folders)
      → AllValid d.inbox
      → AllValid (repaired body c d).1.inbox
  unfolding repaired
  repaired-AllValid body (err e) d h = h
  repaired-AllValid body (ok none) d h = h
  repaired-AllValid body (ok (some doc)) d h = elim (Bool-cases (s.is_valid (s.dumps doc))) [
    | inl v ↦ rw v (v, h)
    | inr v ↦ rw v h
  ]

  handle_sweep-AllValid :
      (r : Request) (d : Folders) → AllValid d.inbox → AllValid (handle_sweep r d).1.inbox
  unfolding handle_sweep
  handle_sweep-AllValid r d h = elim (Option-cases (auth_failure r)) [
    | inr e ↦ rw (e.1, handle_sweep) h
    | inl e ↦ elim (Bool-cases (s.is_valid r.body)) [
      | inl v ↦ rw (e, handle_sweep) (rw v (v, h))
      | inr v ↦ rw (e, handle_sweep) (rw v (repaired-AllValid r.body _ d h))
    ]
  ]

  -- Every body that requests bring into the inbox passes the validation against the schema, the
  -- repaired ones included, whatever the requests carry: with an inbox of valid bodies the server
  -- ends with one.
  pub serve_requests-AllValid :
      (rs : List Request) (d : Folders) → AllValid d.inbox → AllValid (serve_requests rs d).inbox
  unfolding serve_requests
  serve_requests-AllValid [] d h = h
  serve_requests-AllValid (r ∷ rs) d h =
      serve_requests-AllValid rs (handle_sweep r d).1 (handle_sweep-AllValid r d h)

  -- The caller knows the secret, and signed this very body with it.
  pub record IsAuthentic (r : Request) : Type 0 where
    pub has_secret : null s.secret ≡ false
    pub token_is_secret : r.token ≡ some s.secret
    pub signed : r.signature ≡ some (text "sha256=" ++ s.hex_digest s.secret r.body)

  given_text : (o : Option Text) → null (or_default o []) ≡ false → o ≡ some (or_default o [])
  given_text none h = absurd (ground arith)
  given_text (some t) h = refl

  module _ (equal : (a b : Text) → s.compare_digest a b ≡ true → a ≡ b) where
    authentic : (r : Request) → auth_failure r ≡ none → IsAuthentic r
    unfolding auth_failure
    authentic r h =
        let token : null (or_default r.token []) ≡ false = ground arith in
        let signature : null (or_default r.signature []) ≡ false = ground arith in
        record {
          has_secret = ground arith;
          token_is_secret = given_text r.token token ∙ ap some (equal _ _ (ground arith));
          signed = given_text r.signature signature ∙ ap some (equal _ _ (ground arith));
        }

    repaired_lem :
        (r : Request) (d : Folders) (c : Result (Option (Canonical W)))
        → IsAuthentic r
        → ((repaired r.body c d).1.inbox ≡ d.inbox)
          ⊎ (IsAuthentic r
              × (body : Text) × ((repaired r.body c d).1.inbox ≡ body ∷ d.inbox)
              × (s.is_valid body ≡ true))
    unfolding repaired
    repaired_lem r d (err e) a = inl refl
    repaired_lem r d (ok none) a = inl refl
    repaired_lem r d (ok (some doc)) a = elim (Bool-cases (s.is_valid (s.dumps doc))) [
      | inl v ↦ rw v (inr (a, s.dumps doc, refl, v))
      | inr v ↦ rw v (inl refl)
    ]

    -- A request leaves the inbox as it was, unless its token is the secret and its signature is the
    -- digest of its body under the secret, which is not empty; such a request adds one valid body at
    -- most. The comparison of digests holds for equal texts only.
    pub handle_sweep_lem :
        (r : Request) (d : Folders)
        → ((handle_sweep r d).1.inbox ≡ d.inbox)
          ⊎ (IsAuthentic r
              × (body : Text) × ((handle_sweep r d).1.inbox ≡ body ∷ d.inbox)
              × (s.is_valid body ≡ true))
    unfolding handle_sweep
    handle_sweep_lem r d = elim (Option-cases (auth_failure r)) [
      | inr e ↦ rw (e.1, handle_sweep) (inl refl)
      | inl e ↦ elim (Bool-cases (s.is_valid r.body)) [
        | inl v ↦ rw (e, handle_sweep) (rw v (inr (authentic r e, r.body, refl, v)))
        | inr v ↦
            rw (e, handle_sweep)
              (rw v (repaired_lem r d (coerce_payload s.show (s.loads r.body)) (authentic r e)))
      ]
    ]
