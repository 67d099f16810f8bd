-- ===== src/Platform/Applications/Creation.antt =====
-- What the creation of an application leaves in the database and at the identity provider.
use openndx_core.Base.{
  String, ℕ, ◌≡◌, refl, sym, ap, ◌∙◌, inl, inr, true, false, not, ◌&&◌, Option, none, some, List,
  [], ◌∷◌, ◌++◌, ◌==◌, ==_refl, string_eq, if◌then◌else◌, Bool-cases, contains, filter, count,
  Result, ok, err, Result-cases, arith, ◌||◌, continue,
}
use mathlib.Core.Option.{some-ne-none}
use openndx_core.Base.Table.{Table, IsLawful, DbError}
use openndx_core.Policy.Model.{AllowListUpdateRequest}
use openndx_core.Platform.Applications.{
  Application, CreateApplicationRequest, ApplicationResponse, IdpApplication, CreatedApplication,
  AppError, Systems, World, Client, same_application, is_external, is_given, is_blank, one_month,
  text_or_empty, response_of, application_of, create_client, client_for, undo_client, undo_row,
  allow_fields, store_and_allow, create_application,
}

abbrev pub without : String → List String → List String
without id = filter (λ j. not (j == id))

-- What the identity provider documents of its answers: a new client has an ID that none had; a
-- deleted client is gone. A call that fails may leave anything.
pub record IsIdp (Y : Systems) (ids : Y.Clients → List String) : Type 0 where
  pub create_law :
      (a : IdpApplication) (c : Y.Clients) (n : CreatedApplication)
      → (Y.create_client a c).0 ≡ ok n
      → (ids (Y.create_client a c).1 ≡ ids c ++ n.id ∷ []) × (contains (ids c) n.id ≡ false)
  pub delete_law :
      (id : String) (c : Y.Clients)
      → (Y.delete_client id c).0 ≡ ok tt
      → ids (Y.delete_client id c).1 ≡ without id (ids c)

-- An error after which no row is left to undo.
abbrev pub IsRowUndone : AppError → Type 0
IsRowUndone (AppError.not_allowed _ (some _) _) = ⊥
IsRowUndone _ = Unit

-- An error after which no client is left to undo: neither that of the creation of the client, which
-- may have made one, nor one with that of its deletion.
abbrev pub IsClientUndone : AppError → Type 0
IsClientUndone (AppError.client_failed _) = ⊥
IsClientUndone (AppError.not_stored _ (some _)) = ⊥
IsClientUndone (AppError.not_allowed _ _ (some _)) = ⊥
IsClientUndone _ = Unit

without-append :
    (id : String) (ids : List String) → contains ids id ≡ false → without id (ids ++ id ∷ []) ≡ ids
unfolding filter contains
without-append id [] fresh = rw (==_refl id) refl
without-append id (j ∷ ids) fresh = ground (arith, without-append id ids)

rows_without :
    (a : Application) (rows : List Application)
    → count (same_application a) rows ≡ 0
    → filter (λ b. not (same_application a b)) (rows ++ a ∷ []) ≡ rows
unfolding filter count
rows_without a [] fresh = rw (==_refl (Application.application_id a)) refl
rows_without a (b ∷ rows) fresh = ground (arith, rows_without a rows)

append_nil {ℓ} : {A : Type ℓ} (xs : List A) → xs ++ [] ≡ xs
append_nil [] = refl
append_nil (x ∷ xs) = ap (λ ys. x ∷ ys) (append_nil xs)

is_given-some : (o : Option String) → is_given o ≡ true → (s : String) × (o ≡ some s)
is_given-some none h = absurd (ground arith)
is_given-some (some s) h = (s, refl)

no_row_left :
    (e : String) (row : Option DbError) (idp : Option String)
    → IsRowUndone (AppError.not_allowed e row idp)
    → row ≡ none
no_row_left e none idp undone = refl
no_row_left e (some _) idp undone = absurd undone

no_client_left :
    (e : String) (row : Option DbError) (idp : Option String)
    → IsClientUndone (AppError.not_allowed e row idp)
    → idp ≡ none
no_client_left e row none undone = refl
no_client_left e row (some _) undone = absurd undone

no_client_stored :
    (e : DbError) (idp : Option String) → IsClientUndone (AppError.not_stored e idp) → idp ≡ none
no_client_stored e none undone = refl
no_client_stored e (some _) undone = absurd undone

module _ (Y : Systems) (ids : Y.Clients → List String) (idp : IsIdp Y ids)
    (touch : ℕ → Application → Application)
    (db : IsLawful (Y.applications) same_application touch) where
  abbrev pub rows : World Y → List Application
  rows w = Table.rows (Y.applications) w.applications

  -- The identity provider's ID of a client that the service created.
  abbrev pub new_ids : Client → List String
  new_ids client = if client.ours then text_or_empty client.idp_id ∷ [] else []

  abbrev Prepared : CreateApplicationRequest → World Y → Result AppError Client → World Y → Type 0
  Prepared req w (err e) w' =
      (rows w' ≡ rows w) × (IsClientUndone e → ids w'.clients ≡ ids w.clients)
  Prepared req w (ok client) w' =
      (rows w' ≡ rows w)
      × (ids w'.clients ≡ ids w.clients ++ new_ids client)
      × (client.ours ≡ true → contains (ids w.clients) (text_or_empty client.idp_id) ≡ false)
      × (client.ours ≡ not (is_external req))
      × ((id : String) × (client.client_id ≡ some id))

  create_client-Prepared :
      (req : CreateApplicationRequest) (w : World Y)
      → is_external req ≡ false
      → Prepared req w (create_client Y req w).0 (create_client Y req w).1
  create_client-Prepared req w ours =
      let found = Table.first (Y.members) (λ m. m.member_id == req.member_id) w.members in
      elim (Result-cases found.0) [
        | inr (e, is) ↦ rw is (refl, λ _. refl)
        | inl (owner, is) ↦
            let asked : IdpApplication = record {
              name = req.application_name;
              description = text_or_empty req.application_description;
              template_id = "m2m-application";
              ou_id = owner.ou_id;
            } in
            elim (Result-cases (Y.create_client asked w.clients).0) [
              | inr (e, failed) ↦ rw is rw failed (refl, λ undone. absurd undone)
              | inl (n, created) ↦
                  let (more, fresh) = idp.create_law asked w.clients n created in
                  rw is rw created
                    (refl, more, (λ _. fresh), ap not (sym ours), (n.client_id, refl))
            ]
      ]

  client_for-Prepared :
      (req : CreateApplicationRequest) (w : World Y)
      → (is_external req && not (is_given req.idp_application_id && is_given req.idp_client_id))
        ≡ false
      → Prepared req w (client_for Y req w).0 (client_for Y req w).1
  client_for-Prepared req w both = elim (Bool-cases (is_external req)) [
    | inl external ↦ rw external (
      refl,
      sym (append_nil (ids w.clients)),
      (λ h. ground arith),
      ap not (sym external),
      is_given-some req.idp_client_id (ground arith),
    )
    | inr ours ↦ rw ours (create_client-Prepared req w ours)
  ]

  -- What is left of a client that is undone: without an error, its ID is gone.
  undo_client-Gone :
      (client : Client) (before : List String) (w : World Y)
      → (client.ours ≡ true → contains before (text_or_empty client.idp_id) ≡ false)
      → ids w.clients ≡ before ++ new_ids client
      → let r = undo_client Y client w in
        (o : Option String) × (r.0 ≡ ok o)
        × (r.1.applications ≡ w.applications)
        × (o ≡ none → ids r.1.clients ≡ before)
  unfolding undo_client
  undo_client-Gone client before w fresh is = elim (Bool-cases client.ours) [
    | inr external ↦
        let plain : before ++ new_ids client ≡ before = rw external (append_nil before) in
        rw external (none, refl, refl, λ _. is ∙ plain)
    | inl ours ↦
        let id = text_or_empty client.idp_id in
        let added : before ++ new_ids client ≡ before ++ id ∷ [] = rw ours refl in
        elim (Result-cases (Y.delete_client id w.clients).0) [
          | inr (e, failed) ↦ rw ours rw failed (some e, refl, refl, λ h. absurd (some-ne-none e h))
          | inl (_, gone) ↦ rw ours rw gone (
            none,
            refl,
            refl,
            λ _.
                idp.delete_law id w.clients gone
                ∙ ap (without id) (is ∙ added)
                ∙ without-append id before (fresh ours),
          )
        ]
  ]

  undo_row-Gone :
      (a : Application) (before : List Application) (w : World Y)
      → count (same_application a) before ≡ 0
      → rows w ≡ before ++ a ∷ []
      → let r = undo_row Y a w in
        (o : Option DbError) × (r.0 ≡ ok o)
        × (r.1.clients ≡ w.clients)
        × (o ≡ none → rows r.1 ≡ before)
  unfolding undo_row
  undo_row-Gone a before w fresh is = elim (db.delete_law (same_application a) w.applications) [
    | inl (e, failed, same) ↦ rw failed (some e, refl, refl, λ h. absurd (some-ne-none e h))
    | inr (gone, left) ↦ rw gone (
      none,
      refl,
      refl,
      λ _. left ∙ ap (filter (λ b. not (same_application a b))) is ∙ rows_without a before fresh,
    )
  ]

  -- What the creation of an application comes to: the row and the client are there, or, after an
  -- error that leaves none to undo, the row is not, and the client is not.
  abbrev pub Settled :
      String
      → ℕ
      → CreateApplicationRequest
      → World Y
      → Result AppError ApplicationResponse × World Y
      → Type 0
  Settled id now req w (err e, w') =
      (IsRowUndone e → rows w' ≡ rows w) × (IsClientUndone e → ids w'.clients ≡ ids w.clients)
  Settled id now req w (ok response, w') =
      (client : Client) × (client.ours ≡ not (is_external req))
      × (response ≡ response_of (application_of id now req client) client.secret)
      × (rows w' ≡ rows w ++ application_of id now req client ∷ [])
      × (ids w'.clients ≡ ids w.clients ++ new_ids client)

  allow_fields-Settled :
      (id : String) (now : ℕ) (req : CreateApplicationRequest) (w v : World Y) (client : Client)
      → count (same_application (application_of id now req client)) (rows w) ≡ 0
      → rows v ≡ rows w ++ application_of id now req client ∷ []
      → Prepared req w (ok client) (record v { applications = w.applications })
      → Settled id now req w (allow_fields Y client (application_of id now req client) v)
  allow_fields-Settled id now req w v client fresh stored (_, more, new, mine, (client_id, is)) =
      let a = application_of id now req client in
      let asked : AllowListUpdateRequest = record {
        application_id = client_id;
        records = req.selected_fields;
        grant_duration = one_month;
      } in
      let v' : World Y = record v { grants = (Y.allow asked v.grants).1 } in
      elim (Result-cases (Y.allow asked v.grants).0) [
        | inl (_, allowed) ↦ rw is rw allowed (client, mine, refl, stored, more)
        | inr (e, refused) ↦
            let (row, is_row, same, gone) = undo_row-Gone a (rows w) v' fresh stored in
            let left = (undo_row Y a v').1 in
            let (idp_, is_idp, same', gone') =
              undo_client-Gone client (ids w.clients) left new (ap ids same ∙ more) in
            rw is rw refused rw is_row rw is_idp (
              λ undone.
                  ap (Table.rows (Y.applications)) same' ∙ gone (no_row_left e row idp_ undone),
              λ undone. gone' (no_client_left e row idp_ undone),
            )
      ]

  store_and_allow-Settled :
      (id : String) (now : ℕ) (req : CreateApplicationRequest) (w v : World Y) (client : Client)
      → count (λ b. id == Application.application_id b) (rows w) ≡ 0
      → Prepared req w (ok client) v
      → Settled id now req w (store_and_allow Y client (application_of id now req client) v)
  store_and_allow-Settled id now req w v client fresh (same, more, new, known, id_) =
      let a = application_of id now req client in
      let v' : World Y = record v {
        applications = (Table.create (Y.applications) a v.applications).1;
      } in
      elim (db.create_law a v.applications) [
        | inl (e, failed, kept) ↦
            let (idp_, is_idp, same', gone) = undo_client-Gone client (ids w.clients) v' new more in
            rw failed rw is_idp (
              λ _. ap (Table.rows (Y.applications)) same' ∙ kept ∙ same,
              λ undone. gone (no_client_stored e idp_ undone),
            )
        | inr (created, stored) ↦ rw created (
            allow_fields-Settled id now req w v' client fresh (stored ∙ ap (λ r. r ++ a ∷ []) same)
              (refl, more, new, known, id_))
      ]

  -- With a new ID for the row: after the creation of an application, the row with the request's
  -- fields and, unless the request brings one, a new client are there, and the response is of
  -- them; or the creation fails. Then the rows are as before, unless the error has that of the
  -- deletion of the row; and the clients are as before, unless the error is that of the creation of
  -- the client or has that of its deletion.
  pub creation-Settled :
      (id : String) (now : ℕ) (req : CreateApplicationRequest) (w : World Y)
      → count (λ b. id == Application.application_id b) (rows w) ≡ 0
      → Settled id now req w (create_application Y id now req w)
  unfolding create_application
  creation-Settled id now req w fresh =
      elim (Bool-cases
        (is_external req && not (is_given req.idp_application_id && is_given req.idp_client_id))) [
          | inl one ↦ rw one ((λ _. refl), (λ _. refl))
          | inr both ↦
              elim (Bool-cases (
                is_external req
                && (is_blank req.idp_application_id || is_blank req.idp_client_id))) [
                  | inl blank ↦ rw both rw blank ((λ _. refl), (λ _. refl))
                  | inr full ↦ rw both rw full (
                      prepared (client_for Y req w).0 (client_for Y req w).1
                        (client_for-Prepared req w both))
                ]
        ]
    where
      prepared :
          (x : Result AppError Client) (v : World Y)
          → Prepared req w x v
          → Settled id now req w
              (continue x (λ client. store_and_allow Y client (application_of id now req client)) v)
      prepared (err e) v (same, kept) = (λ _. same, kept)
      prepared (ok client) v known = store_and_allow-Settled id now req w v client fresh known
