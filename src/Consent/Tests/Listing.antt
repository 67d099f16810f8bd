-- ===== src/Consent/Tests/Listing.antt =====
-- A listing on a table in memory, after the deadline of the only consent.
use openndx_core.Base.{
  ◌≡◌, ◌≤◌, refl, nat_eq, string_eq, none, some, [], ◌∷◌, map, ok, count, filter, take, drop,
  length, contains,
}
use openndx_core.Base.Table.{update_where, sort_desc}
use openndx_core.Consent.Model.{
  expired, status_eq, ConsentStatus-discrete, ListConsentsResponse, to_summary_view,
}
use openndx_core.Consent.Expiry.{expire_at}
use openndx_core.Consent.Service.{
  list_consents_by_owner, expire_stale_consents_by_owner, expire_both,
}
use openndx_core.Consent.Service.Listing.{is_chosen, is_owned_stale, page_of_current}
use openndx_core.Consent.Tests.{store, store-lawful, ids, waiting, one_row}

abbrev listing : ListConsentsResponse
listing = record {
  consents =
      record {
        consent_id = "c-1";
        app_id = "app";
        app_name = none;
        status = expired;
        created_at = 10;
        pending_expires_at = some 200;
        grant_expires_at = none;
      }
      ∷ [];
  total = 1;
  limit = 10;
  offset = 0;
}

listed : (list_consents_by_owner store ids "owner" (expired ∷ []) 10 0 300 one_row).0 ≡ ok listing
unfolding list_consents_by_owner expire_stale_consents_by_owner expire_both update_where filter
    count contains sort_desc to_summary_view status_eq ConsentStatus-discrete nat_eq string_eq
listed = refl

page_of_current_example :
    (store.rows (list_consents_by_owner store ids "owner" (expired ∷ []) 10 0 300 one_row).1
      ≡ update_where (is_owned_stale "owner" 300) (expire_at 300) (waiting ∷ []))
    × (listing.total
        ≡ count
            (is_chosen "owner" (expired ∷ []))
            (update_where (is_owned_stale "owner" 300) (expire_at 300) (waiting ∷ [])))
    × (listing.consents
        ≡ map (to_summary_view ids) (
            take 10 (
              drop 0 (
                sort_desc
                  (λ r. r.created_at)
                  (filter
                    (is_chosen "owner" (expired ∷ []))
                    (update_where (is_owned_stale "owner" 300) (expire_at 300) (waiting ∷ [])))))))
    × (length listing.consents ≤ 10)
page_of_current_example =
    page_of_current store store-lawful ids "owner" 300 (expired ∷ []) 10 0 one_row listing listed
