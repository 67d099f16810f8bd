-- ===== src/Platform/Applications/Clients.antt =====
-- That a client brought by a request is left alone, and that an application reads back as its
-- creation answered.
use openndx_core.Base.{
  String, ℕ, ◌≡◌, refl, ◌∙◌, subst, ◌⊎◌, inl, inr, true, false, ◌&&◌, ◌||◌, Option, none, some,
  List, [], ◌∷◌, ◌++◌, ◌==◌, ==_refl, string_eq, Bool-cases, Option-cases, count, find, ok, err,
  Result-cases, arith,
}
use openndx_core.Base.Table.{Table, IsLawful, DbError}
use openndx_core.Policy.Model.{AllowListUpdateRequest}
use openndx_core.Platform.Applications.{
  Application, CreateApplicationRequest, ApplicationResponse, AppError, Systems, World, Client,
  same_application, is_external, is_given, is_blank, one_month, application_of, undo_client,
  undo_row, allow_fields, store_and_allow, create_application,
}
use openndx_core.Platform.Applications.Operations.{get_application}
use openndx_core.Platform.Applications.Creation.{IsIdp, Settled, rows, creation-Settled}

module _ (Y : Systems) where
  undo_row-clients :
      (a : Application) (w : World Y)
      → let r = undo_row Y a w in ((o : Option DbError) × (r.0 ≡ ok o)) × (r.1.clients ≡ w.clients)
  unfolding undo_row
  undo_row-clients a w = ((_, refl), refl)

  undo_client-clients :
      (client : Client) (w : World Y)
      → client.ours ≡ false
      → let r = undo_client Y client w in (r.0 ≡ ok none) × (r.1.clients ≡ w.clients)
  unfolding undo_client
  undo_client-clients client w h = rw h (refl, refl)

  module _ (client : Client) (external : client.ours ≡ false) where
    allow_fields-clients :
        (a : Application) (w : World Y) → (allow_fields Y client a w).1.clients ≡ w.clients
    allow_fields-clients a w = elim (Option-cases a.idp_client_id) [
      | inl missing ↦ rw missing refl
      | inr (client_id, is) ↦
          let asked : AllowListUpdateRequest = record {
            application_id = client_id;
            records = a.selected_fields;
            grant_duration = one_month;
          } in
          let v : World Y = record w { grants = (Y.allow asked w.grants).1 } in
          elim (Result-cases (Y.allow asked w.grants).0) [
            | inl (_, allowed) ↦ rw is rw allowed refl
            | inr (e, refused) ↦
                let b : Application = record a { idp_client_id = some client_id } in
                let ((row, is_row), same) = undo_row-clients b v in
                let (is_idp, same') = undo_client-clients client (undo_row Y b v).1 external in
                rw is rw refused rw is_row rw is_idp (same' ∙ same)
          ]
    ]

    store_and_allow-clients :
        (a : Application) (w : World Y) → (store_and_allow Y client a w).1.clients ≡ w.clients
    store_and_allow-clients a w =
        let created = Table.create (Y.applications) a w.applications in
        let v : World Y = record w { applications = created.1 } in
        elim (Result-cases created.0) [
          | inl (_, is) ↦ rw is (allow_fields-clients a v)
          | inr (e, is) ↦
              let (is_idp, same) = undo_client-clients client v external in rw is rw is_idp same
        ]

  -- A creation for a request that brings its client leaves the identity provider as it is, however
  -- it ends.
  pub brought_client_untouched :
      (id : String) (now : ℕ) (req : CreateApplicationRequest) (w : World Y)
      → is_external req ≡ true
      → (create_application Y id now req w).1.clients ≡ w.clients
  unfolding create_application
  brought_client_untouched id now req w external =
      let client : Client = record {
        idp_id = req.idp_application_id;
        client_id = req.idp_client_id;
        secret = none;
        ours = false;
      } in
      elim (Bool-cases (is_given req.idp_application_id && is_given req.idp_client_id)) [
        | inr one ↦ rw external rw one refl
        | inl both ↦
            elim (Bool-cases (is_blank req.idp_application_id || is_blank req.idp_client_id)) [
              | inl blank ↦ rw external rw both rw blank refl
              | inr full ↦
                  rw external rw both rw full
                    (store_and_allow-clients client refl (application_of id now req client) w)
            ]
      ]

module _ (Y : Systems) (ids : Y.Clients → List String) (idp : IsIdp Y ids)
    (touch : ℕ → Application → Application)
    (db : IsLawful (Y.applications) same_application touch) where
  find_new :
      (id : String) (before : List Application) (a : Application)
      → Application.application_id a ≡ id
      → count (λ b. id == Application.application_id b) before ≡ 0
      → find (λ b. Application.application_id b == id) (before ++ a ∷ []) ≡ some a
  unfolding find count
  find_new id [] a is fresh = rw is rw (==_refl id) refl
  find_new id (b ∷ before) a is fresh = ground (arith, find_new id before a is)

  -- With a new ID for the row: when the creation of an application answers, GetApplication
  -- answers the same without the client's secret, unless the database fails.
  pub created_application_read :
      (id : String) (now : ℕ) (req : CreateApplicationRequest) (w : World Y)
      (response : ApplicationResponse)
      → count (λ b. id == Application.application_id b) (rows Y ids idp touch db w) ≡ 0
      → (create_application Y id now req w).0 ≡ ok response
      → let answer = (get_application Y id (create_application Y id now req w).1).0 in
        (answer ≡ err (AppError.db_failed DbError.failed))
        ⊎ (answer ≡ ok (record response { idp_client_secret = none }))
  unfolding get_application
  created_application_read id now req w response fresh h =
      let w' = (create_application Y id now req w).1 in
      let (client, mine, is, stored, more) =
        (subst (λ r. Settled Y ids idp touch db id now req w (r, w')) h
          (creation-Settled Y ids idp touch db id now req w fresh)) in
      let a = application_of id now req client in
      elim ((db.first_law (λ b. b.application_id == id) w'.applications).1) [
        | inl failed ↦ inl (rw failed refl)
        | inr found ↦
            let there : (Table.first (Y.applications) (λ b. b.application_id == id)
                  w'.applications).0
                ≡ ok a =
              found ∙ (rw stored rw (find_new id (rows Y ids idp touch db w) a refl fresh) refl) in
            inr (rw there rw is refl)
      ]
