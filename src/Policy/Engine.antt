-- ===== src/Policy/Engine.antt =====
-- The policy engine: internal/pdp/engine/engine.go and the Rego policies beside it. OPA's
-- evaluation is an argument.
pub mod Decisions
use openndx_core.Base.{
  ℕ, String, ◌≡◌, Bool, true, false, Option, none, some, List, [], ◌∷◌, Dict, lookup, contains, ltb,
  ◌==◌, string_eq, if◌then◌else◌, Result, ok, err,
}
use openndx_core.Policy.Model.{PolicyParams}

pub data OutcomeKind : Type 0 where
  allow deny expired consent_required : OutcomeKind

pub record Decision : Type 0 where
  pub outcome : OutcomeKind
  pub reason : String

pub record Input : Type 0 where
  pub app_id : String
  pub schema_id : String
  pub field_name : String
  pub policy_class : String
  pub params : PolicyParams
  -- the expiry of the application's grant
  pub grant : Option ℕ
  pub now : ℕ

-- A value that a query returns: an object, whose members are texts or something else, or no object.
pub data RegoValue : Type 0 where
  object : Dict (Option String) → RegoValue
  no_object : RegoValue

-- The results of a query, each a list of the values of its expressions; none where it failed.
abbrev pub Eval : Type 0
Eval = Input → Option (List (List RegoValue))

abbrev pub denied : String → Decision
denied reason = record { outcome = deny; reason = reason }

-- doc[key].(string), with the empty text for what is not there
abbrev pub text_at : String → Dict (Option String) → String
text_at key doc = elim (lookup key doc) [
  | none ↦ ""
  | some v ↦ elim v [ none ↦ "" | some text ↦ text ]
]

unfoldable pub outcome_of : String → Option OutcomeKind
outcome_of text =
    if text == "allow"
    then some allow
    else if text == "deny"
    then some deny
    else if text == "expired"
    then some expired
    else if text == "consent_required"
    then some consent_required
    else none

unfoldable pub to_decision : RegoValue → Option Decision
to_decision no_object = none
to_decision (object doc) = elim (outcome_of (text_at "outcome" doc)) [
  | none ↦ none
  | some outcome ↦ some (record { outcome = outcome; reason = text_at "reason" doc })
]

abbrev checked : Option Decision → Decision × Bool
checked none = (denied "invalid_decision", false)
checked (some d) = (d, true)

abbrev pub first_value : List (List RegoValue) → Option RegoValue
first_value [] = none
first_value ([] ∷ _) = none
first_value ((v ∷ _) ∷ _) = some v

-- The decision, and whether the evaluation went without an error.
unfoldable pub decide : Eval → Input → Decision × Bool
decide eval input = elim (eval input) [
  | none ↦ (denied "evaluation_error", false)
  | some results ↦ elim (first_value results) [
    | none ↦ (denied "no_decision", false)
    | some v ↦ checked (to_decision v)
  ]
]

-- (*Engine).HasClass
unfoldable pub has_class : List String → String → Bool
has_class classes name = contains classes name

-- policies/lib.rego: the answers of the classes, and whether a grant is past its expiry
abbrev pub answer : String → RegoValue
answer outcome = object (("outcome", some outcome) ∷ [])

abbrev pub reasoned : String → String → RegoValue
reasoned outcome reason = object (("outcome", some outcome) ∷ ("reason", some reason) ∷ [])

abbrev pub grant_expired : Input → ℕ → Bool
grant_expired input expires_at = ltb expires_at input.now

-- policies/classes/allowlist.rego and allowlist_consent.rego
unfoldable pub allowlist : Input → RegoValue
allowlist input = elim input.grant [
  | none ↦ reasoned "deny" "not_allowlisted"
  | some expires_at ↦
      if grant_expired input expires_at then reasoned "expired" "grant_expired" else answer "allow"
]

unfoldable pub allowlist_consent : Input → RegoValue
allowlist_consent input = elim input.grant [
  | none ↦ reasoned "deny" "not_allowlisted"
  | some expires_at ↦
      if grant_expired input expires_at
      then reasoned "expired" "grant_expired"
      else answer "consent_required"
]

-- policies/pdp.rego
unfoldable pub router : Input → RegoValue
router input =
    if input.policy_class == "allowlist"
    then allowlist input
    else if input.policy_class == "allowlist_consent"
    then allowlist_consent input
    else reasoned "deny" "unknown_policy_class"
