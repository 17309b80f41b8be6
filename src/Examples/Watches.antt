-- ===== src/Examples/Watches.antt =====
-- The theorems on the watches, at concrete requests and wakes.
use party_bridge.Base.{
  ℕ, zero, suc, ◌<◌, false, none, some, List, [], ◌∷◌, ◌++◌, ◌≡◌, refl, arith, All, length, upsert,
}
use party_bridge.Base.Int.{pos}
use party_bridge.Base.Text.{codes}
use party_bridge.Types.{AccountWatchRequest, AccountWatchRequestResult}
use party_bridge.Platform.{posted}
use party_bridge.Exec.{World, ret, pure, ◌>>◌}
use party_bridge.Store.Accounts.{storage_of}
use party_bridge.Store.Balances.{same_id}
use party_bridge.Store.Requests.{update_account_watch_request_in_db}
use party_bridge.Store.Tables.{Tables}
use party_bridge.Shim.{mint_address, mint_body}
use party_bridge.Watch.{
  Wake, Watching, outcome_of, dispatch_or_park, dispatch_logged, wait_and_verify_evm_chain,
}
use party_bridge.Watch.Rounds.{ticks, times}
use party_bridge.Watch.Laws.{
  asked, asked_times, Answers, unpaid_waits, verified_pays, unverified_gives_up,
}
use party_bridge.Watch.Tokens.{Token, watch_of, asked_contract, IsTold, token_pays}
use party_bridge.Watch.Complete.{Completes, paid_order-Completes}
use party_bridge.Watch.Endings.{IsOver}
use party_bridge.Watch.Bsc.{Wake as BscWake, wait_and_verify_bscusdt}
use party_bridge.Watch.BscLaws.{Idles, IsBounded, bsc_ticks, bsc_never_pays}
use party_bridge.Warren.{start_warren_tick}
use party_bridge.Warren.Laws.{IsOtherId, start_warren_tick-lock}
use party_bridge.Dispatch.Routes.{IsRoute}
use party_bridge.WatchAccount.{Watched, watched_of, lock, watch_account}
use party_bridge.WatchAccount.Routes.{IsWatched, Decides, watched_of-Decides}
use party_bridge.WatchAccount.Endings.{watch_account-IsOver}
use party_bridge.Examples.Fake.{platform, works, ready}
use party_bridge.Examples.{server, order, request, world, world-Represents}

abbrev watched : AccountWatchRequest
watched = request "one" (pos 25) (order "octa" "grams" "grams")

abbrev w : World platform
w = world (record { requests = watched ∷ []; accounts = []; failed = [] })

-- the first three looks find 0, 10 and 20
low :
    (k : ℕ)
    → k < 3
    → Answers {p = platform} "0xb" "party" (pos 25) false (asked_times "0xb" "party" k w)
low zero h = (pos 0, refl, refl)
low (suc zero) h = (pos 10, refl, refl)
low (suc (suc zero)) h = (pos 20, refl, refl)
low (suc (suc (suc k))) h = absurd (omega arith)

unpaid_waits_example :
    wait_and_verify_evm_chain 1 (server "g") (some "party") (some "party2") watched (ticks 3 []) w
    ≡ (ret Watching.waiting, asked_times "0xb" "party" 3 w)
unpaid_waits_example = unpaid_waits 1 (server "g") "party" "party2" watched refl refl 3 w low

verified_pays_example :
    wait_and_verify_evm_chain 1
      (server "g")
      (some "party")
      (some "party2")
      watched
      (ticks 3 (Wake.tick ∷ Wake.timeout ∷ []))
      w
    ≡ (dispatch_or_park 1 (server "g") watched "success" >> pure Watching.returned)
        (asked "0xb" "party2" (asked "0xb" "party" (asked_times "0xb" "party" 3 w)))
verified_pays_example =
    verified_pays 1 (server "g") "party" "party2" watched refl refl 3 w low (Wake.timeout ∷ [])
      (pos 30, refl, refl) (pos 40, refl, refl)

unverified_gives_up_example :
    wait_and_verify_evm_chain 1
      (server "g")
      (some "party")
      (some "behind")
      watched
      (ticks 3 (Wake.tick ∷ Wake.timeout ∷ []))
      w
    ≡ (
      ret Watching.returned,
      asked "0xb" "behind" (asked "0xb" "party" (asked_times "0xb" "party" 3 w)),
    )
unverified_gives_up_example =
    unverified_gives_up 1 (server "g") "party" "behind" watched refl refl 3 w low
      (Wake.timeout ∷ []) (pos 30, refl, refl) (pos 0, refl, refl)

abbrev from_bsc : AccountWatchRequest
from_bsc = request "two" (pos 10_000_000_000_000_000_000) (order "octa" "bscusdt" "bscusdt")

bounded : IsBounded platform
bounded text x h = rw (← parsed) (omega arith)
  where
    parsed : pos 5 ≡ x
    parsed = cc h

bsc_never_pays_example :
    Idles from_bsc.account (wait_and_verify_bscusdt 1 (server "g") from_bsc (bsc_ticks 4)) w
bsc_never_pays_example =
    bsc_never_pays bounded (pos 10_000_000_000_000_000_000) (omega arith) 1 (server "g") from_bsc 4
      w refl refl

watched_of-Decides_example :
    ((k : Watched)
      → IsWatched "octa" (order "grams" "octa" "wgrams") k
      → watched_of "octa" (order "grams" "octa" "wgrams") ≡ some k)
    × Decides "octa" (order "grams" "octa" "wgrams")
watched_of-Decides_example = watched_of-Decides "octa" (order "grams" "octa" "wgrams")

start_warren_tick-lock_example :
    (after : World platform) × (sent : List AccountWatchRequest)
    × (update_account_watch_request_in_db (lock (server "g") (pos 9) watched) w ≡ (ret tt, after))
    × (start_warren_tick after ≡ (ret sent, after))
    × All
        (IsOtherId platform (λ r. length (codes r.awrid)) (lock (server "g") (pos 9) watched))
        sent
unfolding lock
start_warren_tick-lock_example =
    start_warren_tick-lock works (λ r. length (codes r.awrid)) (server "g")
      (world-Represents (record { requests = watched ∷ []; accounts = []; failed = [] })) (pos 9)
      watched refl (refl, tt)

-- the contract tells 0, 10 and 20 at first
low_token :
    (k : ℕ)
    → k < 3
    → IsTold {p = platform} "0x2" "0xb" "party"
        (pos 25)
        false
        (times (asked_contract "0x2" "0xb" "party") k w)
low_token zero h = (pos 0, refl, refl)
low_token (suc zero) h = (pos 10, refl, refl)
low_token (suc (suc zero)) h = (pos 20, refl, refl)
low_token (suc (suc (suc k))) h = absurd (omega arith)

token_pays_example :
    watch_of 1
      (server "g")
      Token.wocta_on_party
      (some "party")
      none
      watched
      (ticks 3 (Wake.tick ∷ []))
      w
    ≡ (dispatch_logged 1 (server "g") watched "success" >> pure Watching.returned) (
        asked_contract "0x2" "0xb" "party"
          (asked_contract "0x2" "0xb" "party" (times (asked_contract "0x2" "0xb" "party") 3 w)))
token_pays_example =
    token_pays 1 (server "g") Token.wocta_on_party "party" none watched refl refl 3 w [] low_token
      (pos 30, refl, refl) (pos 40, refl, refl)

abbrev held : Tables
held = record { requests = watched ∷ []; accounts = []; failed = [] }

paid_order-Completes_example :
    let paid : AccountWatchRequestResult = outcome_of watched "success" in
    Completes
      (wait_and_verify_evm_chain 1
        (server "g")
        (some "party")
        (some "party2")
        watched
        (ticks 3 (Wake.tick ∷ [])))
      w
      (record held {
        requests = [];
        accounts = upsert (same_id (storage_of paid)) (storage_of paid) [];
      })
      (posted "https://g/mint" ""
        ∷ (asked "0xb" "party2" (asked "0xb" "party" (asked_times "0xb" "party" 3 w))).trace)
unfolding mint_address mint_body
paid_order-Completes_example =
    paid_order-Completes works ready 1 (server "g") "party" "party2" watched refl refl 3 w held
      (world-Represents held) (IsRoute.grams_to_octa refl refl) "g" refl {status = 200} [] low
      (pos 30, refl, refl) (pos 40, refl, refl) refl refl ((λ h. tt), tt)

watch_account-IsOver_example :
    IsOver
      (watch_account 1
        (server "g")
        (ticks 2 (Wake.timeout ∷ []))
        (bsc_ticks 2 ++ BscWake.timeout ∷ [])
        watched
        w).0
watch_account-IsOver_example =
    watch_account-IsOver 1 (server "g") (ticks 2 (Wake.timeout ∷ []))
      (bsc_ticks 2 ++ BscWake.timeout ∷ []) tt tt watched w
