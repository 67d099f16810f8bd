-- ===== src/Policy/Service/Grants.antt =====
-- Grants: what a revocation does to the allow-list of a field.
use openndx_core.Base.{
  ==_sound, ◌∙◌, ℕ, String, ◌≡◌, ◌≢◌, inl, inr, refl, Bool, none, some, arith, lookup, erase,
  lookup-erase, find, ◌==◌, nat_eq, string_eq, if◌then◌else◌, ok, Option-cases, ==_refl,
}
use openndx_core.Base.Table.{Table, IsLawful, update_where}
use openndx_core.Base.Rows.{find-update_where, find_sound, find_narrow}
use openndx_core.Policy.Model.{PolicyMetadata}
use openndx_core.Policy.Engine.{OutcomeKind, deny, Eval, decide, Input}
use openndx_core.Policy.Engine.Decisions.{RunsPolicies, Verdict, decide-Verdict}
use openndx_core.Policy.Service.{
  ServiceError, other, has_row_id, has_text_id, revoke_entry, revoke_allow_list_entry, input_for,
}

-- A verdict on an application without a grant is a denial.
Verdict-unlisted :
    (input : Input) (o : OutcomeKind) → Verdict input o → input.grant ≡ none → o ≡ deny
Verdict-unlisted input _ (Verdict.unlisted _) h = refl
Verdict-unlisted input _ (Verdict.unknown _ _) h = refl
Verdict-unlisted input _ (Verdict.outdated e _ given _) h = absurd (ground arith)
Verdict-unlisted input _ (Verdict.granted e _ given _) h = absurd (ground arith)
Verdict-unlisted input _ (Verdict.granted_with_consent e _ given _) h = absurd (ground arith)

-- The record with one application's entry taken away.
abbrev pub without : String → ℕ → PolicyMetadata → PolicyMetadata
without app now pm = record pm { allow_list = erase app pm.allow_list; updated_at = now }

module _ (T : Table PolicyMetadata) (same : PolicyMetadata → PolicyMetadata → Bool)
    (touch : ℕ → PolicyMetadata → PolicyMetadata) (L : IsLawful T same touch) (id_text : ℕ → String)
    (now : ℕ) (id app : String) (s : T.State) where
  entry_revoked :
      (pm : PolicyMetadata)
      → find (has_text_id id_text id) (T.rows s) ≡ some pm
      → (revoke_entry T id_text now id app s).0 ≡ ok tt
      → (lookup app pm.allow_list ≢ none)
        × (T.rows (revoke_entry T id_text now id app s).1
            ≡ update_where
                (has_row_id pm.id)
                (λ r. record r { allow_list = erase app pm.allow_list; updated_at = now })
                (T.rows s))
  unfolding revoke_entry
  entry_revoked pm found h = ground (
    arith,
    L.first_law (has_text_id id_text id) s,
    L.update_law (has_row_id pm.id)
        (λ r. record r { allow_list = erase app pm.allow_list; updated_at = now })
        (T.first (has_text_id id_text id) s).1,
  )

  entry_missing :
      find (has_text_id id_text id) (T.rows s) ≡ none
      → (revoke_entry T id_text now id app s).0 ≢ ok tt
  unfolding revoke_entry
  entry_missing missing h = ground (arith, L.first_law (has_text_id id_text id) s)

  revoked_rows :
      (revoke_allow_list_entry T id_text now id app s).0 ≡ ok tt
      → (pm : PolicyMetadata) × (find (has_text_id id_text id) (T.rows s) ≡ some pm)
        × (lookup app pm.allow_list ≢ none)
        × (T.rows (revoke_allow_list_entry T id_text now id app s).1
            ≡ update_where
                (has_row_id pm.id)
                (λ r. record r { allow_list = erase app pm.allow_list; updated_at = now })
                (T.rows s))
  unfolding revoke_allow_list_entry
  revoked_rows h =
      elim (L.transaction_law ServiceError (Unit {0}) (λ _. other)
        (revoke_entry T id_text now id app) s) [
          | inl (e, bad, _) ↦ absurd (ground arith)
          | inr (_, _, good, rows) ↦
              elim (Option-cases (find (has_text_id id_text id) (T.rows s))) [
                | inl missing ↦ absurd (entry_missing missing good)
                | inr (pm, found) ↦
                    let d = entry_revoked pm found good in (pm, found, d.0, rows ∙ d.1)
              ]
        ]

  -- After a revocation that succeeds, the record that the identifier named has no entry for the
  -- application, which it had before; the entries of the other applications are as they were; and
  -- the engine, running the embedded policies, denies the application that field at any time.
  pub revoked_denied :
      (eval : Eval)
      → RunsPolicies eval
      → (revoke_allow_list_entry T id_text now id app s).0 ≡ ok tt
      → (pm pm' : PolicyMetadata) × (find (has_text_id id_text id) (T.rows s) ≡ some pm)
        × (lookup app pm.allow_list ≢ none)
        × (find (has_row_id pm.id) (T.rows (revoke_allow_list_entry T id_text now id app s).1)
            ≡ some pm')
        × ((j : String)
            → lookup j pm'.allow_list ≡ (if app == j then none else lookup j pm.allow_list))
        × ((time : ℕ) → (decide eval (input_for app pm' time)).0.outcome ≡ deny)
  revoked_denied eval runs h =
      let (pm, found, had, rows) = revoked_rows h in
      let pm' : PolicyMetadata = record pm {
        allow_list = erase app pm.allow_list;
        updated_at = now;
      } in
      let by_id : find (has_row_id pm.id) (T.rows s) ≡ some pm =
        find_narrow (has_row_id pm.id) (has_text_id id_text id) (T.rows s) pm found (==_refl pm.id)
          (λ x e.
            rw (==_sound x.id pm.id e) (find_sound (has_text_id id_text id) (T.rows s) pm found)) in
      (
        pm,
        pm',
        found,
        had,
        rw
            (
              rows,
              find-update_where (has_row_id pm.id) (has_row_id pm.id)
                  (λ r. record r { allow_list = erase app pm.allow_list; updated_at = now })
                  (T.rows s) (λ x. refl),
              by_id,
            )
            (rw (==_refl pm.id) refl),
        λ j. lookup-erase j app pm.allow_list,
        λ time.
            Verdict-unlisted (input_for app pm' time) _
              (decide-Verdict eval runs (input_for app pm' time)).0
              (ground (arith, lookup-erase app app pm.allow_list)),
      )
