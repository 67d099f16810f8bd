-- ===== src/Platform/Members.antt =====
-- The member organizations: internal/pb/member/service.go.
use openndx_core.Base.{
  String, ℕ, true, Option, none, some, List, [], ◌∷◌, ◌==◌, string_eq, if◌then◌else◌, Result, ok,
  err, Action, pure, raise, ◌>>=◌, ◌>>◌, on_error,
}
use openndx_core.Base.Table.{Table, DbError}
use openndx_core.Platform.Systems.{Member, given_or}

pub record CreateMemberRequest : Type 0 where
  pub name : String
  pub email : String
  pub phone_number : String
  pub ou_id : String

pub record UpdateMemberRequest : Type 0 where
  pub name : Option String
  pub email : Option String
  pub phone_number : Option String

pub data MemberError : Type 0 where
  empty_ou member_already_exists : MemberError
  not_stored not_found not_updated not_fetched : DbError → MemberError

abbrev pub member_of : String → ℕ → CreateMemberRequest → Member
member_of id now req = record {
  member_id = id;
  name = req.name;
  email = req.email;
  phone_number = req.phone_number;
  ou_id = req.ou_id;
  created_at = now;
  updated_at = now;
}

abbrev pub updated_member : UpdateMemberRequest → Member → Member
updated_member req m = record m {
  name = given_or req.name m.name;
  email = given_or req.email m.email;
  phone_number = given_or req.phone_number m.phone_number;
}

abbrev pub store_error : DbError → MemberError
store_error DbError.duplicated = member_already_exists
store_error e = not_stored e

-- No member where the organization unit has none.
abbrev pub found_or_none : Result DbError Member → Result MemberError (List Member)
found_or_none (ok m) = ok (m ∷ [])
found_or_none (err DbError.not_found) = ok []
found_or_none (err e) = err (not_fetched e)

abbrev pub first_id : List Member → String
first_id [] = ""
first_id (m ∷ members) = m.member_id

module _ (T : Table Member) where
  -- A method of the service. A response has the fields of the member.
  abbrev pub Service : Type 0 → Type 0
  Service A = Action T.State MemberError A

  -- CreateMember, with its new UUID and the time
  unfoldable pub create_member : String → ℕ → CreateMemberRequest → Service Member
  create_member id now req =
      if req.ou_id == ""
      then raise empty_ou
      else on_error store_error (T.create (member_of id now req)) >> pure (member_of id now req)

  -- `saved` is the member as Save leaves it in memory, with its new time.
  unfoldable pub update_member :
      (ℕ → Member → Member) → String → UpdateMemberRequest → Service Member
  update_member saved id req = on_error not_found (T.first (λ m. m.member_id == id)) >>= λ m s.
      let b = updated_member req m in
      (on_error not_updated (T.save b) >> pure (saved (T.clock s) b)) s

  unfoldable pub get_member : String → Service Member
  get_member id = on_error not_fetched (T.first (λ m. m.member_id == id))

  unfoldable pub get_members_by_ou_id : String → Service (List Member)
  get_members_by_ou_id ou_id s =
      let (r, s') = T.first (λ m. m.ou_id == ou_id) s in (found_or_none r, s')

  unfoldable pub get_all_members : Option String → Service (List Member)
  get_all_members none = on_error not_fetched (T.find_all (λ m. true))
  get_all_members (some ou_id) =
      if ou_id == ""
      then on_error not_fetched (T.find_all (λ m. true))
      else get_members_by_ou_id ou_id

  unfoldable pub member_id_by_ou_id : String → Service String
  member_id_by_ou_id ou_id =
      if ou_id == ""
      then pure ""
      else get_members_by_ou_id ou_id >>= λ members. pure (first_id members)
