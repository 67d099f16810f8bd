-- ===== src/Platform/Applications/Approval.antt =====
-- That a submission whose approval fails is pending again.
use openndx_core.Base.{
  String, ℕ, ◌≡◌, refl, sym, ap, ◌∙◌, subst, ◌⊎◌, inl, inr, Bool, true, false, Option, none, some,
  List, [], ◌∷◌, ◌==◌, ==_sound, ==_refl, string_eq, Bool-cases, Option-cases, not, ◌&&◌, ◌||◌,
  find, Result, ok, err, Result-cases, continue, pure, arith,
}
use openndx_core.Base.Table.{Table, IsLawful, DbError, update_where, or_not_found}
use openndx_core.Base.Rows.{find_sound, find-count}
use openndx_core.Policy.Model.{AllowListUpdateRequest}
use openndx_core.Platform.Systems.{status_pending}
use openndx_core.Platform.Applications.{
  Application, ApplicationSubmission, CreateApplicationRequest, IdpApplication, Client, AppError,
  Systems, World, same_submission, create_application, undo_row, undo_client, allow_fields,
  store_and_allow, application_of, client_for, is_external, is_given, is_blank, one_month,
  text_or_empty,
}
use openndx_core.Platform.Applications.Submissions.{
  UpdateSubmissionRequest, updated_submission, request_of, is_approval, check_previous, approve,
  if_approval, update_submission,
}

or_not_found-ok : {R : Type 0} (o : Option R) (r : R) → or_not_found o ≡ ok r → o ≡ some r
or_not_found-ok none r h = absurd (ground arith)
or_not_found-ok (some t) r h = cc

-- What Save stamps on a submission is its time only.
abbrev pub StampsOnly : (ℕ → ApplicationSubmission → ApplicationSubmission) → Type 0
StampsOnly touch =
    (t : ℕ) (s : ApplicationSubmission)
    → ((touch t s).submission_id ≡ s.submission_id) × ((touch t s).status ≡ s.status)

module _ (Y : Systems) (touch : ℕ → ApplicationSubmission → ApplicationSubmission)
    (stamps : StampsOnly touch) (db : IsLawful (Y.submissions) same_submission touch) where
  abbrev pub stored : String → World Y → Option ApplicationSubmission
  stored id w = find (λ s. s.submission_id == id) (Table.rows (Y.submissions) w.submissions)

  abbrev pub IsPending : String → World Y → Type 0
  IsPending id w =
      (s : ApplicationSubmission) × (stored id w ≡ some s) × (s.status ≡ status_pending)

  find-save :
      (t : ℕ) (s : ApplicationSubmission) (xs : List ApplicationSubmission)
      (old : ApplicationSubmission)
      → find (λ x. x.submission_id == s.submission_id) xs ≡ some old
      → find
          (λ x. x.submission_id == s.submission_id)
          (update_where (same_submission s) (λ _. touch t s) xs)
        ≡ some (touch t s)
  unfolding find update_where
  find-save t s [] old h = ground arith
  find-save t s (x ∷ xs) old h = elim (Bool-cases (s.submission_id == x.submission_id)) [
    | inl same ↦ rw same rw ((stamps t s).0) rw (==_refl s.submission_id) refl
    | inr other ↦
        let later = find-save t s xs old in
        let missed : (x.submission_id == s.submission_id) ≡ false = ground arith in
        rw other rw missed (later (rw missed at h))
  ]

  -- A save of a submission that is there fails, or leaves it stamped.
  save-stored :
      (s : ApplicationSubmission) (w : World Y) (old : ApplicationSubmission)
      → stored s.submission_id w ≡ some old
      → let r = Table.save (Y.submissions) s w.submissions in
        ((e : DbError) × (r.0 ≡ err e))
        ⊎ ((r.0 ≡ ok tt)
            × (stored s.submission_id (record w { submissions = r.1 })
                ≡ some (touch (Table.clock (Y.submissions) w.submissions) s)))
  save-stored s w old there =
      let found =
        find_sound (λ x. x.submission_id == s.submission_id)
          (Table.rows (Y.submissions) w.submissions) old there in
      let passes : same_submission s old ≡ true = ground (arith, found) in
      elim (db.save_law s w.submissions (
        find-count (λ x. x.submission_id == s.submission_id) (same_submission s)
          (Table.rows (Y.submissions) w.submissions) old there passes)) [
            | inl (e, failed, _) ↦ inl (e, failed)
            | inr (saved, is) ↦ inr (
              saved,
              ap (find (λ x. x.submission_id == s.submission_id)) is
                  ∙ find-save (Table.clock (Y.submissions) w.submissions) s
                      (Table.rows (Y.submissions) w.submissions) old there,
            )
          ]

  undo_row-submissions :
      (a : Application) (w : World Y)
      → let r = undo_row Y a w in
        ((o : Option DbError) × (r.0 ≡ ok o)) × (r.1.submissions ≡ w.submissions)
  unfolding undo_row
  undo_row-submissions a w = ((_, refl), refl)

  undo_client-submissions :
      (client : Client) (w : World Y)
      → let r = undo_client Y client w in
        ((o : Option String) × (r.0 ≡ ok o)) × (r.1.submissions ≡ w.submissions)
  unfolding undo_client
  undo_client-submissions client w = elim (Bool-cases client.ours) [
    | inl ours ↦ rw ours ((_, refl), refl)
    | inr external ↦ rw external ((_, refl), refl)
  ]

  allow_fields-submissions :
      (client : Client) (a : Application) (w : World Y)
      → (allow_fields Y client a w).1.submissions ≡ w.submissions
  allow_fields-submissions client a w = elim (Option-cases a.idp_client_id) [
    | inl missing ↦ rw missing refl
    | inr (client_id, is) ↦
        let asked : AllowListUpdateRequest = record {
          application_id = client_id;
          records = a.selected_fields;
          grant_duration = one_month;
        } in
        let v : World Y = record w { grants = (Y.allow asked w.grants).1 } in
        elim (Result-cases (Y.allow asked w.grants).0) [
          | inl (_, allowed) ↦ rw is rw allowed refl
          | inr (e, refused) ↦
              let b : Application = record a { idp_client_id = some client_id } in
              let ((row, is_row), same) = undo_row-submissions b v in
              let ((idp, is_idp), same') = undo_client-submissions client (undo_row Y b v).1 in
              rw is rw refused rw is_row rw is_idp (same' ∙ same)
        ]
  ]

  store_and_allow-submissions :
      (client : Client) (a : Application) (w : World Y)
      → (store_and_allow Y client a w).1.submissions ≡ w.submissions
  store_and_allow-submissions client a w =
      let created = Table.create (Y.applications) a w.applications in
      let v : World Y = record w { applications = created.1 } in
      elim (Result-cases created.0) [
        | inl (_, is) ↦ rw is (allow_fields-submissions client a v)
        | inr (e, is) ↦
            let ((idp, is_idp), same) = undo_client-submissions client v in rw is rw is_idp same
      ]

  stored_and_allowed :
      (id : String) (now : ℕ) (req : CreateApplicationRequest) (x : Result AppError Client)
      (v w : World Y)
      → v.submissions ≡ w.submissions
      → (continue x
          (λ client. store_and_allow Y client (application_of id now req client))
          v).1.submissions
        ≡ w.submissions
  stored_and_allowed id now req (err e) v w same = same
  stored_and_allowed id now req (ok client) v w same =
      store_and_allow-submissions client (application_of id now req client) v ∙ same

  client_for-submissions :
      (req : CreateApplicationRequest) (w : World Y)
      → (client_for Y req w).1.submissions ≡ w.submissions
  client_for-submissions req w = elim (Bool-cases (is_external req)) [
    | inl external ↦ rw external refl
    | inr ours ↦
        elim (Result-cases
          (Table.first (Y.members) (λ m. m.member_id == req.member_id) w.members).0) [
            | inr (e, is) ↦ rw ours rw is refl
            | inl (owner, is) ↦
                let asked : IdpApplication = record {
                  name = req.application_name;
                  description = text_or_empty req.application_description;
                  template_id = "m2m-application";
                  ou_id = owner.ou_id;
                } in
                elim (Result-cases (Y.create_client asked w.clients).0) [
                  | inl (c, created) ↦ rw ours rw is rw created refl
                  | inr (e, failed) ↦ rw ours rw is rw failed refl
                ]
          ]
  ]

  create_application-submissions :
      (id : String) (now : ℕ) (req : CreateApplicationRequest) (w : World Y)
      → (create_application Y id now req w).1.submissions ≡ w.submissions
  unfolding create_application
  create_application-submissions id now req w =
      elim (Bool-cases
        (is_external req && not (is_given req.idp_application_id && is_given req.idp_client_id))) [
          | inl one ↦ rw one refl
          | inr both ↦
              elim (Bool-cases (
                is_external req
                && (is_blank req.idp_application_id || is_blank req.idp_client_id))) [
                  | inl blank ↦ rw both rw blank refl
                  | inr full ↦ rw both rw full (
                      stored_and_allowed id now req (client_for Y req w).0 (client_for Y req w).1 w
                        (client_for-submissions req w))
                ]
        ]

  -- After a creation that failed and an approval that was undone, the submission is pending.
  abbrev pub UndoneBy : String → AppError → World Y → Type 0
  UndoneBy id (AppError.not_created _ none) w = IsPending id w
  UndoneBy id _ w = Unit

  abbrev pub UndoesTo : {A : Type 0} → String → Result AppError A → World Y → Type 0
  UndoesTo id (ok a) w = Unit
  UndoesTo id (err e) w = UndoneBy id e w

  approve-UndoesTo :
      (application_id : String) (now : ℕ) (s : ApplicationSubmission) (w : World Y)
      (old : ApplicationSubmission)
      → stored s.submission_id w ≡ some old
      → UndoesTo s.submission_id
          (approve Y application_id now s w).0
          (approve Y application_id now s w).1
  approve-UndoesTo application_id now s w old there =
      let r = create_application Y application_id now (request_of s) w in
      let same = create_application-submissions application_id now (request_of s) w in
      let back : ApplicationSubmission = record s { status = status_pending } in
      elim (Result-cases r.0) [
        | inl (_, is) ↦ rw is tt
        | inr (e, is) ↦
            elim (save-stored back r.1 old (
              ap
                (λ t. find (λ x. x.submission_id == s.submission_id) (Table.rows (Y.submissions) t))
                same
              ∙ there)) [
                | inl (e', failed) ↦ rw is rw failed tt
                | inr (saved, after) ↦
                    let stamp = touch (Table.clock (Y.submissions) r.1.submissions) back in
                    rw is rw saved
                      (stamp, after, (stamps (Table.clock (Y.submissions) r.1.submissions) back).1)
              ]
      ]

  check_previous-submissions :
      (e : DbError → AppError) (id : Option String) (w : World Y)
      → let r = check_previous Y e id w in
        ((r.0 ≡ ok tt) ⊎ ((d : DbError) × (r.0 ≡ err (e d)))) × (r.1.submissions ≡ w.submissions)
  check_previous-submissions e none w = (inl refl, refl)
  check_previous-submissions e (some id) w =
      elim (Result-cases
        (Table.first (Y.applications) (λ a. a.application_id == id) w.applications).0) [
          | inl (a, is) ↦ rw is (inl refl, refl)
          | inr (d, is) ↦ rw is (inr (d, refl), refl)
        ]

  then_pure :
      (id : String) (s : ApplicationSubmission) (x : Result AppError (Unit {0})) (v : World Y)
      → UndoesTo id x v
      → let r = continue x (λ _. pure s) v in UndoesTo id r.0 r.1
  then_pure id s (ok _) v h = tt
  then_pure id s (err e) v h = h

  if_approval-UndoesTo :
      (approval : Bool) (application_id : String) (now : ℕ) (s : ApplicationSubmission)
      (w : World Y) (old : ApplicationSubmission)
      → stored s.submission_id w ≡ some old
      → let r = if_approval Y approval (approve Y application_id now s) w in
        UndoesTo s.submission_id r.0 r.1
  if_approval-UndoesTo true application_id now s w old there =
      approve-UndoesTo application_id now s w old there
  if_approval-UndoesTo false application_id now s w old there = tt

  found_stored :
      (id : String) (w : World Y) (s : ApplicationSubmission)
      → (Table.first (Y.submissions) (λ x. x.submission_id == id) w.submissions).0 ≡ ok s
      → stored id (record w {
        submissions = (Table.first (Y.submissions) (λ x. x.submission_id == id) w.submissions).1;
      })
        ≡ some s
  found_stored id w s is =
      let (same, answer) = db.first_law (λ x. x.submission_id == id) w.submissions in
      ap (find (λ x. x.submission_id == id)) same ∙ (elim answer [
        | inl failed ↦ ground arith
        | inr found ↦ or_not_found-ok _ s (sym found ∙ is)
      ])

  update-UndoesTo :
      (application_id : String) (now : ℕ) (id : String) (req : UpdateSubmissionRequest)
      (w : World Y)
      → let r = update_submission Y touch application_id now id req w in UndoesTo id r.0 r.1
  unfolding update_submission
  update-UndoesTo application_id now id req w =
      let f = Table.first (Y.submissions) (λ x. x.submission_id == id) w.submissions in
      elim (Result-cases f.0) [
        | inr (e, is) ↦ rw is tt
        | inl (found, is) ↦
            let w1 : World Y = record w { submissions = f.1 } in
            let r2 = check_previous Y AppError.previous_not_found req.previous_application_id w1 in
            let there = found_stored id w found is in
            let named : found.submission_id ≡ id = ==_sound found.submission_id id (
              find_sound (λ x. x.submission_id == id) (Table.rows (Y.submissions) f.1) found
                there) in
            let (previous, same) =
              check_previous-submissions AppError.previous_not_found req.previous_application_id
                w1 in
            let s = updated_submission req found in
            let stamp = touch (Table.clock (Y.submissions) r2.1.submissions) s in
            let there2 : stored s.submission_id r2.1 ≡ some found =
              subst (λ i. stored i r2.1 ≡ some found) (sym named)
                (ap (λ t. find (λ x. x.submission_id == id) (Table.rows (Y.submissions) t)) same
                  ∙ there) in
            elim previous [
              | inr (d, bad) ↦ rw is rw bad tt
              | inl good ↦ elim (save-stored s r2.1 found there2) [
                | inl (d, failed) ↦ rw is rw good rw failed tt
                | inr (saved, after) ↦
                    let w3 : World Y = record r2.1 {
                      submissions = (Table.save (Y.submissions) s r2.1.submissions).1;
                    } in
                    let kept : stamp.submission_id ≡ s.submission_id =
                      (stamps (Table.clock (Y.submissions) r2.1.submissions) s).0 in
                    let done =
                      if_approval Y (is_approval req.status) (approve Y application_id now stamp)
                        w3 in
                    rw is rw good rw saved (
                      then_pure id stamp done.0 done.1 (
                        subst (λ i. UndoesTo i done.0 done.1) (kept ∙ named)
                          (if_approval-UndoesTo (is_approval req.status) application_id now stamp w3
                            stamp (subst (λ i. stored i w3 ≡ some stamp) (sym kept) after))))
              ]
            ]
      ]

  -- When an update of a submission fails because the application of an approval could not be
  -- created, and the status was set back without an error, the stored submission is pending.
  pub failed_approval-IsPending :
      (application_id : String) (now : ℕ) (id : String) (req : UpdateSubmissionRequest)
      (w : World Y) (e : AppError)
      → (update_submission Y touch application_id now id req w).0
        ≡ err (AppError.not_created e none)
      → IsPending id (update_submission Y touch application_id now id req w).1
  failed_approval-IsPending application_id now id req w e h =
      let r = update_submission Y touch application_id now id req w in
      subst (λ x. UndoesTo id x r.1) h (update-UndoesTo application_id now id req w)
