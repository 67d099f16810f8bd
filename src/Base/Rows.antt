-- ===== src/Base/Rows.antt =====
-- How queries see rows after a write, for every table.
use mathlib.Core.Path.{◌≡◌, refl, sym, ap, subst}
use mathlib.Core.Logic.{◌≢◌, ◌⊎◌, inl, inr}
use mathlib.Core.Bool.{Bool, true, false}
use mathlib.Core.Option.{Option, none, some}
use mathlib.Core.List.{List, [], ◌∷◌, ◌++◌}
use Prim.Native.Nat.{ℕ, ◌≤◌}
use native.Mathlib.Omega.{arith}
use openndx_core.Base.Equality.{Bool-cases, Option-cases, ltb, if◌then◌else◌}
use openndx_core.Base.Lists.{IsIn, find, count, All}
use openndx_core.Base.Table.{update_where, newest}

module _ {R : Type 0} where
  -- The found row as a write leaves it.
  abbrev pub amend : (R → Bool) → (R → R) → Option R → Option R
  amend p f none = none
  amend p f (some x) = some (if p x then f x else x)

  abbrev pub or_else : Option R → Option R → Option R
  or_else none o = o
  or_else (some x) o = some x

  -- A write that a query cannot tell apart is seen on the row that the query finds.
  pub find-update_where :
      (q p : R → Bool) (f : R → R) (xs : List R)
      → ((x : R) → q (f x) ≡ q x)
      → find q (update_where p f xs) ≡ amend p f (find q xs)
  unfolding find update_where
  find-update_where q p f [] h = refl
  find-update_where q p f (x ∷ xs) h = ground (arith, h x, find-update_where q p f xs h)

  pub find-append :
      (q : R → Bool) (xs ys : List R) → find q (xs ++ ys) ≡ or_else (find q xs) (find q ys)
  unfolding find
  find-append q [] ys = refl
  find-append q (x ∷ xs) ys = ground (arith, find-append q xs ys)

  pub find_sound : (q : R → Bool) (xs : List R) (r : R) → find q xs ≡ some r → q r ≡ true
  unfolding find
  find_sound q [] r h = ground arith
  find_sound q (x ∷ xs) r h = ground (arith, find_sound q xs r)

  pub find-count :
      (q p : R → Bool) (xs : List R) (r : R) → find q xs ≡ some r → p r ≡ true → count p xs ≢ 0
  unfolding find count
  find-count q p [] r h k = ground arith
  find-count q p (x ∷ xs) r h k = ground (arith, find-count q p xs r)

  -- A test that no row passes finds none.
  pub find-count_zero : (q : R → Bool) (xs : List R) → count q xs ≡ 0 → find q xs ≡ none
  unfolding find count
  find-count_zero q [] h = refl
  find-count_zero q (x ∷ xs) h = ground (arith, find-count_zero q xs)

  -- After a write that leaves no row for the test, none passes it.
  pub count-update_where :
      (q p : R → Bool) (f : R → R) (xs : List R)
      → ((x : R) → q (if p x then f x else x) ≡ false)
      → count q (update_where p f xs) ≡ 0
  unfolding count update_where
  count-update_where q p f [] h = refl
  count-update_where q p f (x ∷ xs) h = ground (arith, h x, count-update_where q p f xs h)

  -- A stronger test passes on fewer rows.
  pub count_mono :
      (p q : R → Bool) (xs : List R) → ((x : R) → p x ≡ true → q x ≡ true) → count p xs ≤ count q xs
  unfolding count
  count_mono p q [] h = omega arith
  count_mono p q (x ∷ xs) h = ground (arith, h x, count_mono p q xs h)

  -- Whether a row of the list satisfies a predicate at all.
  pub newest_sound :
      (p : R → Bool) (key : R → ℕ) (xs : List R) (r : R) → newest p key xs ≡ some r → p r ≡ true
  unfolding newest
  newest_sound p key [] r h = ground arith
  newest_sound p key (x ∷ xs) r h = ground (arith, newest_sound p key xs r)

  newest_cases :
      (p : R → Bool) (key : R → ℕ) (x : R) (xs : List R) (r : R)
      → newest p key (x ∷ xs) ≡ some r
      → ((r ≡ x)
          × ((newest p key xs ≡ none) ⊎ ((y : R) × (newest p key xs ≡ some y) × (key y ≤ key x))))
        ⊎ ((newest p key xs ≡ some r) × (p x ≡ true → key x ≤ key r))
  unfolding newest
  newest_cases p key x xs r h = elim (Bool-cases (p x)) [
    | inr skipped ↦ inr (ground arith, λ e. cc)
    | inl passed ↦ elim (Option-cases (newest p key xs)) [
      | inl empty ↦ inl (ground arith, inl empty)
      | inr (y, later) ↦ elim (Bool-cases (ltb (key x) (key y))) [
        | inl newer ↦ inr (ground arith, λ e. ground arith)
        | inr older ↦ inl (ground arith, inr (y, later, ground arith))
      ]
    ]
  ]

  pub newest-none :
      (p : R → Bool) (key : R → ℕ) (xs : List R)
      → newest p key xs ≡ none
      → All (λ x. p x ≡ false) xs
  unfolding newest
  newest-none p key [] h = tt
  newest-none p key (x ∷ xs) h = elim (Option-cases (newest p key xs)) [
    | inl empty ↦ (ground arith, newest-none p key xs empty)
    | inr (y, later) ↦ ground arith
  ]

  pub All-map {κ μ} :
      {P : R → Type κ} {Q : R → Type μ} (xs : List R) → ((x : R) → P x → Q x) → All P xs → All Q xs
  All-map [] f h = tt
  All-map (x ∷ xs) f h = (f x h.0, All-map xs f h.1)

  -- A property of all rows holds of the newest.
  pub newest-All {κ} :
      (P : R → Type κ) (p : R → Bool) (key : R → ℕ) (xs : List R) (r : R)
      → All P xs
      → newest p key xs ≡ some r
      → P r
  unfolding newest
  newest-All P p key [] r all h = cc
  newest-All P p key (x ∷ xs) r all h = elim (newest_cases p key x xs r h) [
    | inl (same, _) ↦ subst P (sym same) all.0
    | inr (later, _) ↦ newest-All P p key xs r all.1 later
  ]

  -- No row of the test is newer than the newest.
  pub newest_max :
      (p : R → Bool) (key : R → ℕ) (xs : List R) (r : R)
      → newest p key xs ≡ some r
      → All (λ x. p x ≡ true → key x ≤ key r) xs
  newest_max p key [] r h = tt
  newest_max p key (x ∷ xs) r h = elim (newest_cases p key x xs r h) [
    | inr (later, bound) ↦ (bound, newest_max p key xs r later)
    | inl (same, inl empty) ↦
        (λ e. omega (arith, ap key same), All-map xs (λ y q e. cc) (newest-none p key xs empty))
    | inl (same, inr (y, later, bound)) ↦ (
      λ e. omega (arith, ap key same),
      All-map xs (λ z q e. omega (arith, q e, bound, ap key same)) (newest_max p key xs y later),
    )
  ]

  -- A stronger test that the found row passes finds the same row.
  pub find_narrow :
      (p q : R → Bool) (xs : List R) (r : R)
      → find q xs ≡ some r
      → p r ≡ true
      → ((x : R) → p x ≡ true → q x ≡ true)
      → find p xs ≡ some r
  unfolding find
  find_narrow p q [] r h hit sub = ground arith
  find_narrow p q (x ∷ xs) r h hit sub = ground (arith, sub x, find_narrow p q xs r)

module _ {R : Type 0} where
  pub newest-IsIn :
      (p : R → Bool) (key : R → ℕ) (xs : List R) (r : R) → newest p key xs ≡ some r → IsIn r xs
  unfolding newest
  newest-IsIn p key [] r h = cc
  newest-IsIn p key (x ∷ xs) r h = elim (newest_cases p key x xs r h) [
    | inl (same, _) ↦ inl same
    | inr (later, _) ↦ inr (newest-IsIn p key xs r later)
  ]
