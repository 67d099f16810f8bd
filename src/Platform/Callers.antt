-- ===== src/Platform/Callers.antt =====
-- Who may act for which member: internal/pb/caller/caller.go and middleware.go, with the look-up of
-- internal/pb/member/service.go. Of an authenticated request there are its scopes and its
-- organization unit; without authentication there are none and "".
use openndx_core.Base.{
  String, ℕ, ◌≡◌, ◌≢◌, refl, sym, ap, subst, ◌∙◌, ◌⊎◌, inl, inr, ◌↔◌, Bool, true, false, Option,
  none, some, List, [], contains, ◌==◌, ==_sound, ==_refl, string_eq, if◌then◌else◌, Bool-cases,
  Option-cases, Result, ok, err, pure, ◌>>=◌, find, arith,
}
use mathlib.Core.Option.{some-injective, none-ne-some}
use openndx_core.Base.Table.{Table, IsLawful}
use openndx_core.Platform.Systems.{Member}
use openndx_core.Platform.Members.{MemberError, Service, get_members_by_ou_id, member_id_by_ou_id}

pub record Auth : Type 0 where
  pub scopes : List String
  pub ou_id : String

-- GetAuthContext(ctx).Scopes()
abbrev pub scopes_of : Option Auth → List String
scopes_of none = []
scopes_of (some a) = a.scopes

-- GetAuthContext(ctx).OUID()
abbrev pub ou_id_of : Option Auth → String
ou_id_of none = ""
ou_id_of (some a) = a.ou_id

-- What the handlers read of a context.
pub record Context : Type 0 where
  pub auth : Option Auth
  pub member_id : Option String

abbrev pub has_scope : Context → String → Bool
has_scope c scope = contains (scopes_of c.auth) scope

-- MemberID: none where the second result is false
abbrev pub member_id_in : Context → Option String
member_id_in c = elim c.member_id [ none ↦ none | some id ↦ if id == "" then none else some id ]

abbrev pub is_owner : Option String → String → Bool
is_owner none owner = false
is_owner (some id) owner = id == owner

unfoldable pub can_access : Context → String → String → Bool
can_access c all_scope owner =
    if has_scope c all_scope then true else is_owner (member_id_in c) owner

abbrev pub with_member : Option Auth → String → Context
with_member auth id = record { auth = auth; member_id = if id == "" then none else some id }

abbrev no_auth : Auth
no_auth = record { scopes = []; ou_id = "" }

module _ (T : Table Member) where
  -- Middleware: the context of the next handler, or the error of the look-up.
  unfoldable pub middleware : Option Auth → Service T Context
  middleware auth =
      if ou_id_of auth == ""
      then pure (record { auth = auth; member_id = none })
      else member_id_by_ou_id T (ou_id_of auth) >>= λ id. pure (with_member auth id)

  -- The owner is the member of the organization unit.
  abbrev pub IsOwn : T.State → String → String → Type 0
  IsOwn s ou_id owner =
      (owner ≢ "")
      × (ou_id ≢ "")
      × ((m : Member) × (find (λ m. m.ou_id == ou_id) (T.rows s) ≡ some m) × (m.member_id ≡ owner))

  abbrev Allows : Option Auth → T.State → String → String → Result MemberError Context → Type 0
  Allows auth s all_scope owner (err e) = Unit
  Allows auth s all_scope owner (ok c) =
      (can_access c all_scope owner ≡ true)
      ↔ ((contains (scopes_of auth) all_scope ≡ true) ⊎ IsOwn s (ou_id_of auth) owner)

  module _ (auth : Option Auth) (s : T.State) (all_scope owner : String) where
    no_member :
        ¬ IsOwn s (ou_id_of auth) owner
        → Allows auth s all_scope owner (ok (record { auth = auth; member_id = none }))
    unfolding can_access
    no_member none_own = elim (Bool-cases (contains (scopes_of auth) all_scope)) [
      | inl granted ↦ rw granted ((λ _. inl refl), λ _. refl)
      | inr missing ↦ rw missing (
        (λ h. ground arith),
        λ h. elim h [ inl bad ↦ ground arith | inr own ↦ absurd (none_own own) ],
      )
    ]

    blank_member :
        ¬ IsOwn s (ou_id_of auth) owner → Allows auth s all_scope owner (ok (with_member auth ""))
    blank_member none_own = rw (==_refl (Auth.ou_id no_auth)) (no_member none_own)

    the_member :
        (m : Member)
        → ou_id_of auth ≢ ""
        → find (λ m. m.ou_id == ou_id_of auth) (T.rows s) ≡ some m
        → Allows auth s all_scope owner (ok (with_member auth m.member_id))
    unfolding can_access
    the_member m in_unit found = elim (Bool-cases (m.member_id == "")) [
      | inl blank ↦ rw blank (
          no_member (λ (named, _, (n, found', is)). named (
            sym is
            ∙ ap Member.member_id (some-injective _ _ (sym found' ∙ found))
            ∙ ==_sound m.member_id "" blank)))
      | inr named ↦ rw named (by_owner named)
    ]
      where
        by_owner :
            (m.member_id == "") ≡ false
            → Allows auth s all_scope owner
                (ok (record { auth = auth; member_id = some m.member_id }))
        by_owner named = elim (Bool-cases (contains (scopes_of auth) all_scope)) [
          | inl granted ↦ rw granted ((λ _. inl refl), λ _. refl)
          | inr missing ↦ rw missing rw named (
            (λ h.
                let is = ==_sound m.member_id owner h in
                inr (
                  (λ blank.
                      ground
                        (arith, subst (λ o. (o == "") ≡ false) is named, blank, ==_refl owner)),
                  in_unit,
                  (m, found, is),
                )),
            λ h. elim h [
              | inl bad ↦ ground arith
              | inr (_, _, (n, found', is)) ↦
                  subst (λ o. (m.member_id == o) ≡ true)
                    (ap Member.member_id (some-injective _ _ (sym found ∙ found')) ∙ is)
                    (==_refl m.member_id)
            ],
          )
        ]

    middleware-Allows :
        (same : Member → Member → Bool) (touch : ℕ → Member → Member)
        → IsLawful T same touch
        → Allows auth s all_scope owner (middleware auth s).0
    unfolding middleware member_id_by_ou_id get_members_by_ou_id
    middleware-Allows same touch db = elim (Bool-cases (ou_id_of auth == "")) [
      | inl outside ↦
          rw outside (no_member (λ (_, in_unit, _). in_unit (==_sound (ou_id_of auth) "" outside)))
      | inr unit ↦ elim ((db.first_law (λ m. m.ou_id == ou_id_of auth) s).1) [
        | inl failed ↦ rw unit rw failed tt
        | inr found ↦ elim (Option-cases (find (λ m. m.ou_id == ou_id_of auth) (T.rows s))) [
          | inl unknown ↦ rw unit rw found rw unknown (
              blank_member
                (λ (_, _, (n, found', _)). absurd (none-ne-some n (sym unknown ∙ found'))))
          | inr (m, known) ↦
              rw unit rw found rw known (the_member m (λ e. ground (arith, unit, e)) known)
        ]
      ]
    ]

  -- A request that passes the middleware may act on a record exactly where its token has the scope
  -- for all members, or the record's owner is not empty and is the member of the token's
  -- organization unit.
  pub access_iff :
      (same : Member → Member → Bool) (touch : ℕ → Member → Member) (auth : Option Auth)
      (s : T.State) (all_scope owner : String) (c : Context)
      → IsLawful T same touch
      → (middleware auth s).0 ≡ ok c
      → (can_access c all_scope owner ≡ true)
        ↔ ((contains (scopes_of auth) all_scope ≡ true) ⊎ IsOwn s (ou_id_of auth) owner)
  access_iff same touch auth s all_scope owner c db h =
      subst (Allows auth s all_scope owner) h
        (middleware-Allows auth s all_scope owner same touch db)
