-- ===== src/Base/Memory.antt =====
-- A table in memory that never fails: an instance of the interface of a table, on which the
-- services run.
use mathlib.Core.Path.{◌≡◌, refl}
use mathlib.Core.Logic.{◌⊎◌, inl, inr}
use mathlib.Core.Bool.{Bool, not}
use mathlib.Core.List.{List, [], ◌∷◌, ◌++◌}
use Prim.Native.Nat.{ℕ}
use openndx_core.Base.Lists.{find, filter, count, take, drop}
use openndx_core.Base.Methods.{Result, ok, err}
use openndx_core.Base.Table.{Table, IsLawful, update_where, newest, sort_desc, or_not_found}

-- Runs a body and drops its writes where it fails.
abbrev rolled_back : {S E A : Type 0} → S → Result E A × S → Result E A × S
rolled_back s (ok a, s') = (ok a, s')
rolled_back s (err e, s') = (err e, s)

-- The time and the rows.
abbrev pub memory : {R : Type 0} → (R → R → Bool) → (ℕ → R → R) → Table R
memory {R} same touch = record {
  State = ℕ × List R;
  rows = λ s. s.1;
  clock = λ s. s.0;
  first = λ p s. (or_not_found (find p s.1), s);
  latest = λ p key s. (or_not_found (newest p key s.1), s);
  find_all = λ p s. (ok (filter p s.1), s);
  find_desc = λ p key s. (ok (sort_desc key (filter p s.1)), s);
  page = λ p key limit offset s. (ok (take limit (drop offset (sort_desc key (filter p s.1)))), s);
  count_rows = λ p s. (ok (count p s.1), s);
  create = λ r s. (ok tt, (s.0, s.1 ++ r ∷ []));
  create_all = λ rs s. (ok tt, (s.0, s.1 ++ rs));
  save = λ r s. (ok tt, (s.0, update_where (same r) (λ _. touch s.0 r) s.1));
  update = λ p f s. (ok (count p s.1), (s.0, update_where p f s.1));
  delete = λ p s. (ok (count p s.1), (s.0, filter (λ r. not (p r)) s.1));
  transaction = λ E A lift body s. rolled_back s (body s);
}

module _ {R : Type 0} (same : R → R → Bool) (touch : ℕ → R → R) where
  keeps_or_drops :
      {E A : Type 0} (s s' : ℕ × List R) (x : Result E A)
      → let y = rolled_back s (x, s') in
        ((e : E) × (y.0 ≡ err e) × ((y.1).1 ≡ s.1))
        ⊎ ((a : A) × (y.0 ≡ ok a) × (x ≡ ok a) × ((y.1).1 ≡ s'.1))
  keeps_or_drops s s' (ok a) = inr (a, refl, refl, refl)
  keeps_or_drops s s' (err e) = inl (e, refl, refl)

  pub memory-IsLawful : IsLawful (memory same touch) same touch
  memory-IsLawful = record {
    first_law = λ p s. (refl, inr refl);
    latest_law = λ p key s. (refl, inr refl);
    find_all_law = λ p s. (refl, inr refl);
    find_desc_law = λ p key s. (refl, inr refl);
    page_law = λ p key limit offset s. (refl, inr refl);
    count_law = λ p s. (refl, inr refl);
    create_law = λ r s. inr (refl, refl);
    create_all_law = λ rs s. inr (refl, refl);
    save_law = λ r s there. inr (refl, refl);
    update_law = λ p f s. inr (refl, refl);
    delete_law = λ p s. inr (refl, refl);
    transaction_law = λ E A lift body s. keeps_or_drops s (body s).1 (body s).0;
  }
