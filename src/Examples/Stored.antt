-- ===== src/Examples/Stored.antt =====
-- The theorems on the lists in Redis, at concrete lists.
use party_bridge.Base.{
  ℕ, String, some, List, [], ◌∷◌, ◌++◌, ◌≡◌, refl, inl, inr, map, upsert, length,
}
use party_bridge.Base.Int.{pos, ◌+ℤ◌, ◌-ℤ◌}
use party_bridge.Base.Text.{codes}
use party_bridge.Types.{AccountWatchRequest, AccountWatchRequestResult, BridgeStorage}
use party_bridge.Exec.{◌>>◌}
use party_bridge.Store.Requests.{
  remove_loop, unlock, update_account_watch_request_in_db, update_account_watch_requests_on_crash,
  remove_account_watch_request_from_db, store_failed_account_watch_request,
}
use party_bridge.Store.Accounts.{storage_of, store_bridge_account, update_bridge_account_in_db}
use party_bridge.Store.Tables.{Tables, Performs}
use party_bridge.Store.Removal.{IsUnique, others, remove_loop-eq-others}
use party_bridge.Store.Refinement.{
  same_uuid, update-Performs, on_crash-Performs, store_failed-Performs,
}
use party_bridge.Store.Sequences.{overlapping, remove-update, overlapping-Performs}
use party_bridge.Store.Balances.{same_id, charged, total, charge_total, deposit_total}
use party_bridge.Examples.Fake.{platform, works}
use party_bridge.Examples.{server, order, request, result_of, account, world, world-Represents}

abbrev waiting : String → AccountWatchRequest
waiting id = request id (pos 25) (order "grams" "octa" "octa")

abbrev three : List AccountWatchRequest
three = waiting "one" ∷ waiting "third" ∷ waiting "four" ∷ []

three-IsUnique : IsUnique "third" three
three-IsUnique = ((λ h. absurd (cc)), ((λ h. (refl, tt)), ((λ h. tt), tt)))

abbrev held_accounts : List BridgeStorage
held_accounts = account "a" "octa" "grams" (pos 10) ∷ account "b" "octa" "grams" (pos 40) ∷ []

abbrev tables : Tables
tables = record { requests = three; accounts = held_accounts; failed = waiting "old" ∷ [] }

abbrev uuid : AccountWatchRequest → ℕ
uuid r = length (codes r.awrid)

remove_loop-eq-others_example : remove_loop "third" 3 0 three 3 ≡ some (others "third" three)
remove_loop-eq-others_example = remove_loop-eq-others "third" three three-IsUnique

update-Performs_example :
    Performs (update_account_watch_request_in_db (waiting "other")) (world tables) (record tables {
      requests = upsert (same_uuid platform uuid (waiting "other")) (waiting "other") three;
    })
update-Performs_example =
    update-Performs works uuid (world-Represents tables) (waiting "other") refl
      (refl, (refl, (refl, tt)))

on_crash-Performs_example :
    Performs
      (update_account_watch_requests_on_crash (server "grams:8080"))
      (world tables)
      (record tables { requests = map (unlock "pod") three })
on_crash-Performs_example = on_crash-Performs works (world-Represents tables) (server "grams:8080")

store_failed-Performs_example :
    Performs
      (store_failed_account_watch_request (waiting "new"))
      (world tables)
      (record tables { failed = (waiting "old" ∷ []) ++ waiting "new" ∷ [] })
store_failed-Performs_example =
    store_failed-Performs works (world-Represents tables) (waiting "new")

abbrev deposit : AccountWatchRequestResult
deposit = result_of "success" (waiting "one")

abbrev unwrapping : AccountWatchRequestResult
unwrapping = result_of "success" (request "two" (pos 25) (order "octa" "grams" "wocta"))

charge_total_example :
    Performs
      (update_bridge_account_in_db "b" (some (pos 26)))
      (world tables)
      (record tables { accounts = map (charged "b" (pos 26)) held_accounts })
    × (total (map (charged "b" (pos 26)) held_accounts) ≡ total held_accounts -ℤ pos 26)
charge_total_example =
    charge_total works (world-Represents tables) "b" (pos 26) ((refl, refl), ((refl, refl), tt))
      (inr (refl, inl (refl, tt)))

deposit_total_example :
    Performs (store_bridge_account deposit) (world tables) (record tables {
      accounts = upsert (same_id (storage_of deposit)) (storage_of deposit) held_accounts;
    })
    × (total (upsert (same_id (storage_of deposit)) (storage_of deposit) held_accounts)
        ≡ total held_accounts +ℤ pos 25)
unfolding storage_of
deposit_total_example = deposit_total works (world-Represents tables) deposit refl

remove-update_example :
    Performs
      (update_account_watch_request_in_db (waiting "sixsix")
        >> remove_account_watch_request_from_db "sixsix")
      (world tables)
      tables
remove-update_example =
    remove-update works uuid (world-Represents tables) (waiting "sixsix") refl
      (refl, (refl, (refl, tt))) refl (refl, (refl, (refl, tt)))

overlapping-Performs_example :
    Performs
      (overlapping works uuid (world-Represents tables) (waiting "sixsix") (waiting "one"))
      (world tables)
      (record tables {
        requests = upsert (same_uuid platform uuid (waiting "one")) (waiting "one") three;
      })
overlapping-Performs_example =
    overlapping-Performs works uuid (world-Represents tables) (waiting "sixsix") (waiting "one")
      refl refl (refl, (refl, (refl, tt)))
