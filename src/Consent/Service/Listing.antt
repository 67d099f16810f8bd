-- ===== src/Consent/Service/Listing.antt =====
-- ListConsentsByOwner: the expiry of all that is out of date, and the page that is listed.
use openndx_core.Base.{
  is_empty, if◌then◌else◌, contains, ◌&&◌, ◌==◌, true, ℕ, suc, String, ◌≡◌, refl, ap, ◌∙◌, ◌≤◌, inl,
  inr, Bool, ◌&&◌, ◌==◌, nat_eq, string_eq, List, [], ◌∷◌, map, arith, ok, Bool-cases, Result-cases,
  if◌then◌else◌, filter, count, take, drop, length, length-take-le,
}
use openndx_core.Base.Table.{Table, update_where, sort_desc}
use openndx_core.Consent.Model.{
  ConsentStatus, pending, status_eq, ConsentRecord, UuidText, ListConsentsResponse, to_summary_view,
  Error, other,
}
use openndx_core.Consent.Expiry.{is_after, is_stale, expire_at}
use openndx_core.Consent.Service.{
  waits_too_long, granted_too_long, expire_both, is_listed, list_consents_by_owner,
  expire_stale_consents_by_owner,
}
use openndx_core.Consent.Service.Loading.{IsConsentTable}

abbrev pub is_owned_stale : String → ℕ → ConsentRecord → Bool
is_owned_stale owner now r = (r.owner_id == owner) && is_stale r now

-- The two statements together expire what is out of date, each row once.
one_expiry :
    (owner : String) (now : ℕ) (r : ConsentRecord)
    → let r1 = if waits_too_long owner now r then expire_at now r else r in
      (if granted_too_long owner now r1 then expire_at now r1 else r1)
      ≡ (if is_owned_stale owner now r then expire_at now r else r)
unfolding is_stale
one_expiry owner now r = elim (Bool-cases (r.owner_id == owner)) [
  | inr foreign ↦ ground arith
  | inl own ↦ elim (Bool-cases (r.status == pending)) [
    | inl waiting ↦ elim (Bool-cases (is_after now r.pending_expires_at)) [
      | inl late ↦ ground arith
      | inr in_time ↦ ground arith
    ]
    | inr decided ↦ ground arith
  ]
]

two_expiries :
    (owner : String) (now : ℕ) (rows : List ConsentRecord)
    → update_where
        (granted_too_long owner now)
        (expire_at now)
        (update_where (waits_too_long owner now) (expire_at now) rows)
      ≡ update_where (is_owned_stale owner now) (expire_at now) rows
unfolding update_where
two_expiries owner now [] = refl
two_expiries owner now (r ∷ rows) = cc (one_expiry owner now r, two_expiries owner now rows)

length-map : {A B : Type 0} (f : A → B) (xs : List A) → length (map f xs) ≡ length xs
length-map f [] = refl
length-map f (x ∷ xs) = ap suc (length-map f xs)

-- The consents that a listing is of: the owner's, in one of the statuses if any is given.
abbrev pub is_chosen : String → List ConsentStatus → ConsentRecord → Bool
is_chosen owner statuses r =
    (r.owner_id == owner) && (if is_empty statuses then true else contains statuses r.status)

module _ (T : Table ConsentRecord) (L : IsConsentTable T) (U : UuidText) (owner : String)
    (now : ℕ) where
  both_rows :
      (s : T.State)
      → (expire_both T U owner now s).0 ≡ ok tt
      → T.rows (expire_both T U owner now s).1
        ≡ update_where
            (granted_too_long owner now)
            (expire_at now)
            (update_where (waits_too_long owner now) (expire_at now) (T.rows s))
  unfolding expire_both
  both_rows s h =
      let s1 = (T.update (waits_too_long owner now) (expire_at now) s).1 in
      ground (
        arith,
        L.update_law (waits_too_long owner now) (expire_at now) s,
        L.update_law (granted_too_long owner now) (expire_at now) s1,
      )

  expired_rows :
      (s : T.State)
      → (expire_stale_consents_by_owner T U owner now s).0 ≡ ok tt
      → T.rows (expire_stale_consents_by_owner T U owner now s).1
        ≡ update_where (is_owned_stale owner now) (expire_at now) (T.rows s)
  unfolding expire_stale_consents_by_owner
  expired_rows s h =
      elim (L.transaction_law Error (Unit {0}) (λ _. other ∷ []) (expire_both T U owner now) s) [
        | inl (e, bad, _) ↦ ground arith
        | inr (_, _, good, rows) ↦ rows ∙ both_rows s good ∙ two_expiries owner now (T.rows s)
      ]

  listed_expired :
      (statuses : List ConsentStatus) (limit offset : ℕ) (s : T.State) (resp : ListConsentsResponse)
      → (list_consents_by_owner T U owner statuses limit offset now s).0 ≡ ok resp
      → (expire_stale_consents_by_owner T U owner now s).0 ≡ ok tt
  unfolding list_consents_by_owner
  listed_expired statuses limit offset s resp h =
      elim (Result-cases (expire_stale_consents_by_owner T U owner now s).0) [
        | inr (e, bad) ↦ ground arith
        | inl (_, good) ↦ good
      ]

  listed_after :
      (statuses : List ConsentStatus) (limit offset : ℕ) (s : T.State) (resp : ListConsentsResponse)
      → (list_consents_by_owner T U owner statuses limit offset now s).0 ≡ ok resp
      → (T.rows (list_consents_by_owner T U owner statuses limit offset now s).1
          ≡ T.rows (expire_stale_consents_by_owner T U owner now s).1)
        × (resp.total
            ≡ count
                (is_listed owner statuses)
                (T.rows (expire_stale_consents_by_owner T U owner now s).1))
        × (resp.consents
            ≡ map (to_summary_view U) (
                take limit (
                  drop offset (
                    sort_desc
                      (λ r. r.created_at)
                      (filter
                        (is_listed owner statuses)
                        (T.rows (expire_stale_consents_by_owner T U owner now s).1))))))
  unfolding list_consents_by_owner
  listed_after statuses limit offset s resp h =
      let s1 = (expire_stale_consents_by_owner T U owner now s).1 in
      let s2 = (T.count_rows (is_listed owner statuses) s1).1 in
      ground (
        arith,
        listed_expired statuses limit offset s resp h,
        L.count_law (is_listed owner statuses) s1,
        L.page_law (is_listed owner statuses) (λ r. r.created_at) limit offset s2,
      )

  -- A listing that succeeds has first expired every consent of the owner whose deadline has passed,
  -- and changed no other row. Of the consents of the owner that are then in one of the statuses, or
  -- in any where none is given, it counts all, and shows the page asked for, newest first, which
  -- is no longer than the limit.
  pub page_of_current :
      (statuses : List ConsentStatus) (limit offset : ℕ) (s : T.State) (resp : ListConsentsResponse)
      → (list_consents_by_owner T U owner statuses limit offset now s).0 ≡ ok resp
      → (T.rows (list_consents_by_owner T U owner statuses limit offset now s).1
          ≡ update_where (is_owned_stale owner now) (expire_at now) (T.rows s))
        × (resp.total
            ≡ count
                (is_chosen owner statuses)
                (update_where (is_owned_stale owner now) (expire_at now) (T.rows s)))
        × (resp.consents
            ≡ map (to_summary_view U) (
                take limit (
                  drop offset (
                    sort_desc
                      (λ r. r.created_at)
                      (filter
                        (is_chosen owner statuses)
                        (update_where (is_owned_stale owner now) (expire_at now) (T.rows s)))))))
        × (length resp.consents ≤ limit)
  page_of_current statuses limit offset s resp h =
      let (rows, total, consents) = listed_after statuses limit offset s resp h in
      let after = expired_rows s (listed_expired statuses limit offset s resp h) in
      (
        rows ∙ after,
        rw (← after) total,
        rw (← after) consents,
        omega (
          arith,
          ap length consents,
          length-map (to_summary_view U) (
              take limit (
                drop offset (
                  sort_desc (λ r. r.created_at)
                    (filter (is_listed owner statuses)
                      (T.rows (expire_stale_consents_by_owner T U owner now s).1))))),
          length-take-le limit (
              drop offset (
                sort_desc (λ r. r.created_at)
                  (filter (is_listed owner statuses)
                    (T.rows (expire_stale_consents_by_owner T U owner now s).1)))),
        ),
      )
