-- ===== src/Base/Table.antt =====
-- A database table behind gorm. The operations are parameters; `IsLawful` states what the services
-- rely on: an operation either fails and leaves the rows alone, or does what SQL documents. Rows with
-- one key keep the table's order under a descending one, which SQL leaves open.
use mathlib.Core.Path.{◌≡◌}
use mathlib.Core.Logic.{◌⊎◌, ◌≢◌}
use mathlib.Core.Bool.{Bool, not}
use mathlib.Core.Option.{Option, none, some}
use mathlib.Core.List.{List, [], ◌∷◌, ◌++◌}
use Prim.Native.Nat.{ℕ}
use openndx_core.Base.Equality.{if◌then◌else◌, ltb}
use openndx_core.Base.Lists.{find, filter, count, take, drop}
use openndx_core.Base.Methods.{Result, ok, err, Action}

-- `not_found` is gorm.ErrRecordNotFound, `duplicated` is gorm.ErrDuplicatedKey.
pub data DbError : Type 0 where
  not_found duplicated failed : DbError

pub record Table (R : Type 0) : Type 1 where
  pub State : Type 0
  pub rows : State → List R
  -- the time at which gorm stamps a row that it saves
  pub clock : State → ℕ
  -- First: one row that passes the test
  pub first : (R → Bool) → Action State DbError R
  -- Order(key DESC).Limit(1).First
  pub latest : (R → Bool) → (R → ℕ) → Action State DbError R
  -- Find, in the table's order
  pub find_all : (R → Bool) → Action State DbError (List R)
  -- Order(key DESC).Find
  pub find_desc : (R → Bool) → (R → ℕ) → Action State DbError (List R)
  -- Order(key DESC).Limit(limit).Offset(offset).Find
  pub page : (R → Bool) → (R → ℕ) → ℕ → ℕ → Action State DbError (List R)
  pub count_rows : (R → Bool) → Action State DbError ℕ
  pub create : R → Action State DbError (Unit {0})
  pub create_all : List R → Action State DbError (Unit {0})
  -- Save: writes the whole row, by its primary key
  pub save : R → Action State DbError (Unit {0})
  -- Updates: the number of rows that were changed
  pub update : (R → Bool) → (R → R) → Action State DbError ℕ
  pub delete : (R → Bool) → Action State DbError ℕ
  -- Transaction: keeps the writes of a body that succeeds, drops those of one that fails
  pub transaction : (E A : Type 0) → (DbError → E) → Action State E A → Action State E A

module _ {R : Type 0} where
  unfoldable pub update_where : (R → Bool) → (R → R) → List R → List R
  update_where p f [] = []
  update_where p f (x ∷ xs) = (if p x then f x else x) ∷ update_where p f xs

  -- The row with the greatest key among those that pass the test.
  unfoldable pub newest : (R → Bool) → (R → ℕ) → List R → Option R
  newest p key [] = none
  newest p key (x ∷ xs) =
      let rest = newest p key xs in
      if p x
      then elim rest [ none ↦ some x | some y ↦ if ltb (key x) (key y) then some y else some x ]
      else rest

  insert_desc : (R → ℕ) → R → List R → List R
  insert_desc key x [] = x ∷ []
  insert_desc key x (y ∷ ys) =
      let rest = insert_desc key x ys in if ltb (key x) (key y) then y ∷ rest else x ∷ y ∷ ys

  unfoldable pub sort_desc : (R → ℕ) → List R → List R
  unfolding insert_desc
  sort_desc key [] = []
  sort_desc key (x ∷ xs) = insert_desc key x (sort_desc key xs)

  abbrev pub or_not_found : Option R → Result DbError R
  or_not_found none = err DbError.not_found
  or_not_found (some r) = ok r

-- A read of state `s` leaves the rows alone, and fails or has the answer.
abbrev pub Reads :
    {R A : Type 0} (T : Table R) → T.State → Result DbError A × T.State → Result DbError A → Type 0
Reads T s x answer = (T.rows x.1 ≡ T.rows s) × ((x.0 ≡ err DbError.failed) ⊎ (x.0 ≡ answer))

-- A write from state `s` fails and leaves the rows alone, or answers and leaves the rows `after`.
abbrev pub Writes :
    {R A : Type 0} (T : Table R) → T.State → Result DbError A × T.State → A → List R → Type 0
Writes T s x a after =
    ((e : DbError) × (x.0 ≡ err e) × (T.rows x.1 ≡ T.rows s))
    ⊎ ((x.0 ≡ ok a) × (T.rows x.1 ≡ after))

-- `same` holds of two versions of one row; `touch` is what Save does to its timestamp.
pub record IsLawful {R : Type 0} (T : Table R) (same : R → R → Bool) (touch : ℕ → R → R)
    : Type 1 where
  pub first_law :
      (p : R → Bool) (s : T.State) → Reads T s (T.first p s) (or_not_found (find p (T.rows s)))
  pub latest_law :
      (p : R → Bool) (key : R → ℕ) (s : T.State)
      → Reads T s (T.latest p key s) (or_not_found (newest p key (T.rows s)))
  pub find_all_law :
      (p : R → Bool) (s : T.State) → Reads T s (T.find_all p s) (ok (filter p (T.rows s)))
  pub find_desc_law :
      (p : R → Bool) (key : R → ℕ) (s : T.State)
      → Reads T s (T.find_desc p key s) (ok (sort_desc key (filter p (T.rows s))))
  pub page_law :
      (p : R → Bool) (key : R → ℕ) (limit offset : ℕ) (s : T.State)
      → Reads T s
          (T.page p key limit offset s)
          (ok (take limit (drop offset (sort_desc key (filter p (T.rows s))))))
  pub count_law :
      (p : R → Bool) (s : T.State) → Reads T s (T.count_rows p s) (ok (count p (T.rows s)))
  pub create_law : (r : R) (s : T.State) → Writes T s (T.create r s) tt (T.rows s ++ r ∷ [])
  pub create_all_law :
      (rs : List R) (s : T.State) → Writes T s (T.create_all rs s) tt (T.rows s ++ rs)
  pub save_law :
      (r : R) (s : T.State)
      → count (same r) (T.rows s) ≢ 0
      → Writes T s (T.save r s) tt (update_where (same r) (λ _. touch (T.clock s) r) (T.rows s))
  pub update_law :
      (p : R → Bool) (f : R → R) (s : T.State)
      → Writes T s (T.update p f s) (count p (T.rows s)) (update_where p f (T.rows s))
  pub delete_law :
      (p : R → Bool) (s : T.State)
      → Writes T s (T.delete p s) (count p (T.rows s)) (filter (λ r. not (p r)) (T.rows s))
  pub transaction_law :
      (E A : Type 0) (lift : DbError → E) (body : Action T.State E A) (s : T.State)
      → ((e : E) × ((T.transaction E A lift body s).0 ≡ err e)
          × (T.rows (T.transaction E A lift body s).1 ≡ T.rows s))
        ⊎ ((a : A) × ((T.transaction E A lift body s).0 ≡ ok a)
            × ((body s).0 ≡ ok a)
            × (T.rows (T.transaction E A lift body s).1 ≡ T.rows (body s).1))
