-- ===== src/Examples/Bridge.antt =====
-- The theorems on the end of a watch, at concrete orders.
use party_bridge.Base.{
  ℕ, String, true, some, List, [], ◌∷◌, ◌≡◌, refl, arith, map, get_elem?, ◌⊎◌, upsert,
}
use party_bridge.Base.Int.{pos}
use party_bridge.Types.{AccountWatchRequest, AccountWatchRequestResult, BridgeStorage}
use party_bridge.Platform.{posted, ok}
use party_bridge.Exec.{World, Crash, crash}
use party_bridge.Store.Accounts.{storage_of, is_candidate}
use party_bridge.Store.Tables.{Tables, Represents}
use party_bridge.Store.Nearest.{IsSorted, IsNearest}
use party_bridge.Store.Choice.{candidates}
use party_bridge.Store.Balances.{same_id, charged}
use party_bridge.Shim.{transfer_address, mint_address, mint_body, transfer_body}
use party_bridge.Dispatch.{is_deposit, dispatch}
use party_bridge.Dispatch.Routes.{IsRoute, IsRefused, IsPerformed, create_bridge_request_cases}
use party_bridge.Dispatch.Twice.{MintsTwice, dispatch_twice}
use party_bridge.Dispatch.Conclude.{Concludes, Fails}
use party_bridge.Dispatch.Deposit.{deposit_completes, unpaid_mints, deposit_refused}
use party_bridge.Dispatch.Payout.{
  payout_without_account, payout_without_candidate, payout_completes,
}
use party_bridge.Examples.Fake.{platform, works, ready}
use party_bridge.Examples.{server, order, request, result_of, account, world, world-Represents}

abbrev wrapping : AccountWatchRequest
wrapping = request "one" (pos 26) (order "octa" "grams" "grams")

abbrev unwrapping : AccountWatchRequest
unwrapping = request "two" (pos 26) (order "octa" "grams" "wocta")

abbrev uuid_a : String
uuid_a = "11111111-1111-1111-1111-11111111111a"

abbrev uuid_b : String
uuid_b = "11111111-1111-1111-1111-11111111111b"

abbrev funds : List BridgeStorage
funds = account uuid_a "octa" "grams" (pos 10) ∷ account uuid_b "octa" "grams" (pos 40) ∷ []

abbrev tables : List BridgeStorage → Tables
tables accounts = record { requests = wrapping ∷ unwrapping ∷ []; accounts = accounts; failed = [] }

abbrev paid : AccountWatchRequestResult
paid = result_of "success" wrapping

abbrev timed_out : AccountWatchRequestResult
timed_out = result_of "error" wrapping

abbrev unwrapped_paid : AccountWatchRequestResult
unwrapped_paid = result_of "success" unwrapping

deposit_completes_example :
    Concludes
      (dispatch 1 (server "grams:8080") paid)
      (world (tables funds))
      (record (tables funds) {
        requests = unwrapping ∷ [];
        accounts = upsert (same_id (storage_of paid)) (storage_of paid) funds;
      })
      (posted "https://grams:8080/mint" "" ∷ [])
unfolding mint_address mint_body
deposit_completes_example =
    deposit_completes works ready 1 (server "grams:8080") paid (world (tables funds)) (tables funds)
      (world-Represents (tables funds)) (IsRoute.grams_to_octa refl refl) "grams:8080" refl
      {status = 200} refl refl refl ((λ h. (refl, tt)), ((λ h. tt), tt))

unpaid_mints_example :
    Concludes
      (dispatch 1 (server "grams:8080") timed_out)
      (world (tables funds))
      (record (tables funds) { requests = unwrapping ∷ [] })
      (posted "https://grams:8080/mint" "" ∷ [])
unfolding mint_address mint_body
unpaid_mints_example =
    unpaid_mints works ready 1 (server "grams:8080") timed_out (world (tables funds)) (tables funds)
      (world-Represents (tables funds)) (IsRoute.grams_to_octa refl refl) "grams:8080" refl
      {status = 200} refl refl refl ((λ h. (refl, tt)), ((λ h. tt), tt))

deposit_refused_example :
    Fails "failed to mint"
      (dispatch 1 (server "down") paid)
      (world (tables funds))
      (record (tables funds) {
        accounts = upsert (same_id (storage_of paid)) (storage_of paid) funds;
      })
      (posted "https://down/mint" "" ∷ [])
unfolding mint_address mint_body
deposit_refused_example =
    deposit_refused works ready 1 (server "down") paid (world (tables funds)) (tables funds)
      (world-Represents (tables funds)) (IsRoute.grams_to_octa refl refl) "down" refl {status = 500}
      refl refl refl

payout_without_account_example :
    dispatch 1 (server "grams:8080") unwrapped_paid (world (tables [])) ≡ (
      crash Crash.nil_dereference,
      record (world (tables [])) { trace = posted "https://octa:8080/transfer" "" ∷ [] },
    )
unfolding is_deposit transfer_address transfer_body mint_body
payout_without_account_example =
    payout_without_account works ready 0 (server "grams:8080") unwrapped_paid (world (tables []))
      (tables []) (world-Represents (tables [])) (IsRoute.octa_home refl refl) refl refl refl
      (200, refl, refl)

payout_without_candidate_example :
    dispatch 1
      (server "grams:8080")
      unwrapped_paid
      (world (tables (account "a" "grams" "octa" (pos 9) ∷ [])))
    ≡ (crash Crash.out_of_range, world (tables (account "a" "grams" "octa" (pos 9) ∷ [])))
unfolding is_deposit is_candidate
payout_without_candidate_example =
    payout_without_candidate works ready 0 (server "grams:8080") unwrapped_paid
      (world (tables (account "a" "grams" "octa" (pos 9) ∷ [])))
      (tables (account "a" "grams" "octa" (pos 9) ∷ []))
      (world-Represents (tables (account "a" "grams" "octa" (pos 9) ∷ [])))
      (IsRoute.octa_home refl refl) refl refl (omega arith) refl

payout_completes_example :
    let w : World platform = world (tables funds) in
    let held : Represents w (tables funds) = world-Represents (tables funds) in
    (j : ℕ) × (a : BridgeStorage) × (get_elem? funds j ≡ some a)
    × (is_candidate (order "octa" "grams" "wocta") a ≡ true)
    × (IsSorted (candidates unwrapped_paid held)
        → IsNearest (candidates unwrapped_paid held) (pos 25) a)
    × Concludes
        (dispatch 1 (server "grams:8080") unwrapped_paid)
        w
        (record (tables funds) {
          requests = wrapping ∷ [];
          accounts = map (charged a.id (pos 26)) funds;
        })
        (posted "https://octa:8080/transfer" a.private_key ∷ [])
unfolding is_deposit is_candidate transfer_address transfer_body mint_body
payout_completes_example =
    payout_completes works ready 0 (server "grams:8080") unwrapped_paid (world (tables funds))
      (tables funds) (world-Represents (tables funds)) (IsRoute.octa_home refl refl) refl refl refl
      ((refl, refl), ((refl, refl), tt)) (omega arith) (λ text. (200, refl, refl))
      ((λ h. absurd (cc)), ((λ h. tt), tt))

create_bridge_request_cases_example :
    IsPerformed 1 (server "grams:8080") paid (world (tables funds))
    ⊎ IsRefused 1 (server "grams:8080") paid (world (tables funds))
create_bridge_request_cases_example =
    create_bridge_request_cases 1 (server "grams:8080") paid (world (tables funds))

grams_shim : mint_address (server "grams:8080") "grams" "octa" ≡ ok "grams:8080"
unfolding mint_address
grams_shim = refl

dispatch_twice_example :
    MintsTwice works ready 1
      (server "grams:8080")
      paid
      (world (tables funds))
      (tables funds)
      (world-Represents (tables funds))
      (IsRoute.grams_to_octa refl refl)
      "grams:8080"
      grams_shim
dispatch_twice_example =
    dispatch_twice works ready 1 (server "grams:8080") paid (world (tables funds)) (tables funds)
      (world-Represents (tables funds)) (IsRoute.grams_to_octa refl refl) "grams:8080" grams_shim
      (λ tr. (200, refl, refl)) refl ((λ h. (refl, tt)), ((λ h. tt), tt))
