-- ===== src/Platform/Systems.antt =====
-- What the platform backend shares: the versions and states of internal/pb/kernel/status.go, the
-- members, and methods that change one part of a state.
use openndx_core.Base.{
  String, ℕ, Bool, true, Option, none, some, ◌==◌, string_eq, Action, Result, ok, if◌then◌else◌,
  List, [], ◌∷◌, contains,
}

abbrev pub active_version : String
active_version = "active"

abbrev pub status_pending : String
status_pending = "pending"

abbrev pub status_approved : String
status_approved = "approved"

-- The member organizations of internal/pb/member/model.go.
pub record Member : Type 0 where
  pub member_id : String
  pub name : String
  pub email : String
  pub phone_number : String
  pub ou_id : String
  pub created_at : ℕ
  pub updated_at : ℕ

abbrev pub same_member : Member → Member → Bool
same_member a b = a.member_id == b.member_id

module _ {S E A : Type 0} where
  -- The result of a method, as a value: `if err := ...`.
  abbrev pub attempt : {F : Type 0} → Action S E A → Action S F (Result E A)
  attempt m s = (ok (m s).0, (m s).1)

-- A method of one part of a state.
abbrev pub part : {S T E A : Type 0} → (S → T) → (T → S → S) → Action T E A → Action S E A
part get put m s = ((m (get s)).0, put (m (get s)).1 s)

-- The member ID, if it is there and not empty, selects.
abbrev pub of_member : Option String → String → Bool
of_member none owner = true
of_member (some id) owner = if id == "" then true else owner == id

abbrev pub in_statuses : Option (List String) → String → Bool
in_statuses none status = true
in_statuses (some []) status = true
in_statuses (some (s ∷ statuses)) status = contains (s ∷ statuses) status

-- *value, where the pointer is not nil
abbrev pub given_or : {A : Type 0} → Option A → A → A
given_or none old = old
given_or (some new) old = new

-- value, where it is not nil
abbrev pub given_else : {A : Type 0} → Option A → Option A → Option A
given_else none old = old
given_else (some new) old = some new

-- A description that is not nil and not empty is in a response.
abbrev pub shown : Option String → Option String
shown none = none
shown (some text) = if text == "" then none else some text
