-- ===== src/Examples/Payouts.antt =====
-- The theorem on tokens that are paid out, at a concrete order.
use party_bridge.Base.{ℕ, zero, suc, ◌<◌, false, none, List, [], ◌∷◌, refl, arith}
use party_bridge.Base.Int.{pos}
use party_bridge.Types.{AccountWatchRequest, BridgeStorage}
use party_bridge.Exec.{World}
use party_bridge.Store.Accounts.{is_candidate}
use party_bridge.Store.Tables.{Tables}
use party_bridge.Shim.{transfer_address, transfer_body, mint_body}
use party_bridge.Dispatch.{is_deposit}
use party_bridge.Dispatch.Routes.{IsRoute}
use party_bridge.Watch.Rounds.{times}
use party_bridge.Watch.Tokens.{Token, asked_contract, IsTold}
use party_bridge.Watch.Payout.{PaysOut, paid_token-PaysOut}
use party_bridge.Examples.Fake.{platform, works, ready}
use party_bridge.Examples.{server, order, request, account, world, world-Represents}

abbrev unwrapping : AccountWatchRequest
unwrapping = request "two" (pos 26) (order "octa" "grams" "wocta")

abbrev funds : List BridgeStorage
funds =
    account "11111111-1111-1111-1111-11111111111a" "octa" "grams" (pos 10)
    ∷ account "11111111-1111-1111-1111-11111111111b" "octa" "grams" (pos 40)
    ∷ []

abbrev tables : Tables
tables = record { requests = unwrapping ∷ []; accounts = funds; failed = [] }

abbrev w : World platform
w = world tables

-- the contract tells 0, 10 and 20 at first
low :
    (k : ℕ)
    → k < 3
    → IsTold {p = platform} "0x2" "0xb" "party"
        (pos 26)
        false
        (times (asked_contract "0x2" "0xb" "party") k w)
low zero h = (pos 0, refl, refl)
low (suc zero) h = (pos 10, refl, refl)
low (suc (suc zero)) h = (pos 20, refl, refl)
low (suc (suc (suc k))) h = absurd (omega arith)

paid_token-PaysOut_example :
    PaysOut works ready 1
      (server "grams:8080")
      Token.wocta_on_party
      "party"
      none
      unwrapping
      refl
      refl
      3
      w
      tables
      (world-Represents tables)
      (IsRoute.octa_home refl refl)
      (pos 25)
      []
unfolding is_deposit is_candidate transfer_address transfer_body mint_body
paid_token-PaysOut_example =
    paid_token-PaysOut works ready 1 (server "grams:8080") Token.wocta_on_party "party" none
      unwrapping refl refl 3 w tables (world-Represents tables) (IsRoute.octa_home refl refl) [] low
      (pos 30, refl, refl) (pos 40, refl, refl) refl refl ((refl, refl), ((refl, refl), tt))
      (omega arith) (λ text. (200, refl, refl)) ((λ h. tt), tt)
