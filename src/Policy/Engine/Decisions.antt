-- ===== src/Policy/Engine/Decisions.antt =====
-- What the engine decides.
use openndx_core.Base.{
  ==_refl, sym, Dict, ◌↔◌, ◌∙◌, ap, ==_sound, ◌<◌, ℕ, String, ◌≡◌, ◌≢◌, ◌≤◌, ◌⊎◌, inl, inr, refl,
  true, false, Option, none, some, List, [], ◌∷◌, arith, lookup, ltb, ◌==◌, string_eq, Bool-cases,
  Option-cases,
}
use openndx_core.Policy.Engine.{
  OutcomeKind, allow, deny, expired, consent_required, Decision, Input, Eval, RegoValue, decide,
  to_decision, outcome_of, router, allowlist, allowlist_consent, object, no_object, text_at,
  reasoned, answer,
}

-- The text of each outcome, as the policies write it.
abbrev pub text_of : OutcomeKind → String
text_of allow = "allow"
text_of deny = "deny"
text_of expired = "expired"
text_of consent_required = "consent_required"

-- OPA's first value is an object whose outcome is that text.
abbrev pub Says : Eval → Input → String → Type 0
Says eval input text =
    (doc : Dict (Option String)) × (rest : List RegoValue) × (results : List (List RegoValue))
    × (eval input ≡ some ((object doc ∷ rest) ∷ results))
    × (lookup "outcome" doc ≡ some (some text))

outcome_of-text : (text : String) (o : OutcomeKind) → outcome_of text ≡ some o → text ≡ text_of o
unfolding outcome_of
outcome_of-text text o h = elim (Bool-cases (text == "allow")) [
  | inl is ↦ let same : allow ≡ o = ground arith in ==_sound text "allow" is ∙ ap text_of same
  | inr not_this ↦ elim (Bool-cases (text == "deny")) [
    | inl is ↦ let same : deny ≡ o = ground arith in ==_sound text "deny" is ∙ ap text_of same
    | inr nor_this ↦ elim (Bool-cases (text == "expired")) [
      | inl is ↦
          let same : expired ≡ o = ground arith in ==_sound text "expired" is ∙ ap text_of same
      | inr neither ↦ elim (Bool-cases (text == "consent_required")) [
        | inl is ↦
            let same : consent_required ≡ o = ground arith in
            ==_sound text "consent_required" is ∙ ap text_of same
        | inr unknown ↦ absurd (ground arith)
      ]
    ]
  ]
]

outcome_of-text_of : (o : OutcomeKind) → outcome_of (text_of o) ≡ some o
unfolding outcome_of string_eq
outcome_of-text_of allow = refl
outcome_of-text_of deny = refl
outcome_of-text_of expired = refl
outcome_of-text_of consent_required = refl

not_empty : (text : String) → (text == "") ≡ false → text ≢ ""
not_empty text differ h = ground (arith, ap (λ t. t == "") h, ==_refl {A = String} "")

text_of-given : (o : OutcomeKind) → text_of o ≢ ""
unfolding string_eq
text_of-given allow = not_empty "allow" refl
text_of-given deny = not_empty "deny" refl
text_of-given expired = not_empty "expired" refl
text_of-given consent_required = not_empty "consent_required" refl

-- A text that is not empty is one that the document has.
found_text :
    (key text : String) (doc : Dict (Option String))
    → text_at key doc ≡ text
    → text ≢ ""
    → lookup key doc ≡ some (some text)
found_text key text doc h given = elim (Option-cases (lookup key doc)) [
  | inl missing ↦ absurd (given (sym h ∙ (rw (missing, text_at) refl)))
  | inr (none, no_text) ↦ absurd (given (sym h ∙ (rw (no_text, text_at) refl)))
  | inr (some other, found) ↦
      let same : text_at key doc ≡ other = rw (found, text_at) refl in
      found ∙ ap (λ t. some (some t)) (sym same ∙ h)
]

read_object :
    (doc : Dict (Option String)) (o : OutcomeKind)
    → lookup "outcome" doc ≡ some (some (text_of o))
    → to_decision (object doc) ≡ some (record { outcome = o; reason = text_at "reason" doc })
unfolding to_decision
read_object doc o found =
    let is : text_at "outcome" doc ≡ text_of o = rw (found, text_at) refl in
    rw (is, to_decision) rw (outcome_of-text_of o) refl

value-Says :
    (eval : Eval) (input : Input) (v : RegoValue) (rest : List RegoValue)
    (results : List (List RegoValue)) (o : OutcomeKind)
    → eval input ≡ some ((v ∷ rest) ∷ results)
    → o ≢ deny
    → (decide eval input).0.outcome ≡ o
    → Says eval input (text_of o)
unfolding decide to_decision
value-Says eval input no_object rest results o evaluated other h = absurd (other (ground arith))
value-Says eval input (object doc) rest results o evaluated other h =
    elim (Option-cases (outcome_of (text_at "outcome" doc))) [
      | inl unknown ↦ absurd (other (ground arith))
      | inr (o', known) ↦
          let is : o' ≡ o = ground arith in
          (
            doc,
            rest,
            results,
            evaluated,
            found_text "outcome" (text_of o) doc (outcome_of-text _ o (known ∙ ap some is))
                (text_of-given o),
          )
    ]

results-Says :
    (eval : Eval) (input : Input) (results : List (List RegoValue)) (o : OutcomeKind)
    → eval input ≡ some results
    → o ≢ deny
    → (decide eval input).0.outcome ≡ o
    → Says eval input (text_of o)
unfolding decide
results-Says eval input [] o evaluated other h = absurd (other (ground arith))
results-Says eval input ([] ∷ results) o evaluated other h = absurd (other (ground arith))
results-Says eval input ((v ∷ rest) ∷ results) o evaluated other h =
    value-Says eval input v rest results o evaluated other h

decided_as :
    (eval : Eval) (input : Input) (o : OutcomeKind)
    → Says eval input (text_of o)
    → ((decide eval input).0.outcome ≡ o) × ((decide eval input).1 ≡ true)
unfolding decide
decided_as eval input o (doc, rest, results, evaluated, found) =
    rw (evaluated, decide) (rw (read_object doc o found) (refl, refl))

-- For any answer of OPA: a decision is to allow, to ask for consent or that the grant is over
-- exactly where the first value of the answer is an object whose outcome is the text "allow",
-- "consent_required" or "expired"; whatever else OPA answers, or no answer, is a denial.
pub fail_closed :
    (eval : Eval) (input : Input) (o : OutcomeKind)
    → o ≢ deny
    → ((decide eval input).0.outcome ≡ o) ↔ Says eval input (text_of o)
unfolding decide
fail_closed eval input o other = (
  λ h. elim (Option-cases (eval input)) [
    | inl failed ↦ absurd (other (ground arith))
    | inr (results, evaluated) ↦ results-Says eval input results o evaluated other h
  ],
  λ says. (decided_as eval input o says).0,
)

-- OPA evaluates the embedded policies.
abbrev pub RunsPolicies : Eval → Type 0
RunsPolicies eval = (input : Input) → eval input ≡ some ((router input ∷ []) ∷ [])

-- What the two policy classes promise for a field.
pub data Verdict (input : Input) : OutcomeKind → Type 0 where
  unlisted : input.grant ≡ none → Verdict input deny
  unknown :
      input.policy_class ≢ "allowlist"
      → input.policy_class ≢ "allowlist_consent"
      → Verdict input deny
  outdated :
      (e : ℕ)
      → (input.policy_class ≡ "allowlist") ⊎ (input.policy_class ≡ "allowlist_consent")
      → input.grant ≡ some e
      → e < input.now
      → Verdict input expired
  granted :
      (e : ℕ)
      → input.policy_class ≡ "allowlist"
      → input.grant ≡ some e
      → input.now ≤ e
      → Verdict input allow
  granted_with_consent :
      (e : ℕ)
      → input.policy_class ≡ "allowlist_consent"
      → input.grant ≡ some e
      → input.now ≤ e
      → Verdict input consent_required

abbrev DecidedAs : Input → Decision → Type 0
DecidedAs input d = Verdict input d.outcome

-- The answers of the policies are read back as they are meant.
read_deny :
    (reason : String)
    → to_decision (reasoned "deny" reason) ≡ some (record { outcome = deny; reason = reason })
unfolding to_decision outcome_of lookup string_eq
read_deny reason = refl

read_expired :
    to_decision (reasoned "expired" "grant_expired")
    ≡ some (record { outcome = expired; reason = "grant_expired" })
unfolding to_decision outcome_of lookup string_eq
read_expired = refl

read_allow : to_decision (answer "allow") ≡ some (record { outcome = allow; reason = "" })
unfolding to_decision outcome_of lookup string_eq
read_allow = refl

read_consent :
    to_decision (answer "consent_required")
    ≡ some (record { outcome = consent_required; reason = "" })
unfolding to_decision outcome_of lookup string_eq
read_consent = refl

-- The router's answer, as it is read, with the verdict that it stands for.
abbrev Answered : Input → Type 0
Answered input = (d : Decision) × (to_decision (router input) ≡ some d) × Verdict input d.outcome

Answered-allowlist : (input : Input) → (input.policy_class == "allowlist") ≡ true → Answered input
unfolding router allowlist
Answered-allowlist input is_class =
    let class : input.policy_class ≡ "allowlist" = ==_sound _ _ is_class in
    elim (Option-cases input.grant) [
      | inl none_given ↦ (
        record { outcome = deny; reason = "not_allowlisted" },
        rw (is_class, none_given) (read_deny _),
        unlisted none_given,
      )
      | inr (e, given) ↦ elim (Bool-cases (ltb e input.now)) [
        | inl late ↦ (
          record { outcome = expired; reason = "grant_expired" },
          rw (is_class, given, late) read_expired,
          outdated e (inl class) given (ground arith),
        )
        | inr in_time ↦ (
          record { outcome = allow; reason = "" },
          rw (is_class, given, in_time) read_allow,
          granted e class given (ground arith),
        )
      ]
    ]

Answered-consent :
    (input : Input)
    → (input.policy_class == "allowlist") ≡ false
    → (input.policy_class == "allowlist_consent") ≡ true
    → Answered input
unfolding router allowlist_consent
Answered-consent input other_class is_class =
    let class : input.policy_class ≡ "allowlist_consent" = ==_sound _ _ is_class in
    elim (Option-cases input.grant) [
      | inl none_given ↦ (
        record { outcome = deny; reason = "not_allowlisted" },
        rw (other_class, is_class, none_given) (read_deny _),
        unlisted none_given,
      )
      | inr (e, given) ↦ elim (Bool-cases (ltb e input.now)) [
        | inl late ↦ (
          record { outcome = expired; reason = "grant_expired" },
          rw (other_class, is_class, given, late) read_expired,
          outdated e (inr class) given (ground arith),
        )
        | inr in_time ↦ (
          record { outcome = consent_required; reason = "" },
          rw (other_class, is_class, given, in_time) read_consent,
          granted_with_consent e class given (ground arith),
        )
      ]
    ]

answered : (input : Input) → Answered input
unfolding router
answered input = elim (Bool-cases (input.policy_class == "allowlist")) [
  | inl is_class ↦ Answered-allowlist input is_class
  | inr other_class ↦ elim (Bool-cases (input.policy_class == "allowlist_consent")) [
    | inl is_class ↦ Answered-consent input other_class is_class
    | inr no_class ↦ (
      record { outcome = deny; reason = "unknown_policy_class" },
      rw (other_class, no_class) (read_deny _),
      unknown (λ e. ground arith) (λ e. ground arith),
    )
  ]
]

-- With OPA running the embedded policies, every decision is the one that the classes promise, and
-- none is made by an error.
pub decide-Verdict :
    (eval : Eval)
    → RunsPolicies eval
    → (input : Input) → Verdict input (decide eval input).0.outcome × ((decide eval input).1 ≡ true)
unfolding decide
decide-Verdict eval runs input =
    let (d, read, verdict) = answered input in rw (runs input, decide) (rw read (verdict, refl))
