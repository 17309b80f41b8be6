-- ===== src/System/Watches.antt =====
-- pkg/helper.go, pkg/evm.go and pkg/bscusdt.go: `Dispatch` and every watch as steps of the program for
-- a request that was issued, whatever is answered and however they end.
use party_bridge.Base.{ℕ, String, not, Option, none, some, List, [], ◌∷◌, if◌then◌else◌}
use party_bridge.Base.Int.{ℤ, cmp_geb}
use party_bridge.Types.{AccountWatchRequest}
use party_bridge.Platform.{Platform}
use party_bridge.Server.{ExchangeServer}
use party_bridge.Exec.{World, Exec, Crash, pure, ◌>>◌}
use party_bridge.Store.Accounts.{store_bridge_account}
use party_bridge.Store.Requests.{store_failed_account_watch_request}
use party_bridge.Dispatch.{is_deposit, support_message, dispatch}
use party_bridge.Notify.{send_status_msg}
use party_bridge.Watch.{
  Wake, Watching, Verdict, outcome_of, query_balance, query_token, look, follow, watch_loop,
  dispatch_logged, dispatch_or_park, watch_token, wait_and_verify_evm_chain,
  wait_and_verify_wgrams_on_octa_space, wait_and_verify_wocta_on_party_chain,
  wait_and_verify_wbscusdt_on_octa_space, wait_and_verify_wbscusdt_on_party_chain,
  query_wgrams_on_octa_space, query_wocta_on_party_chain, query_wbscusdt_on_octa_space,
  query_wbscusdt_on_party_chain,
}
use party_bridge.Watch.Bsc.{
  Wake as BscWake, fetch_bnb_usdt_balance, look_bsc, watch_loop_bsc, wait_and_verify_bscusdt,
}
use party_bridge.WatchAccount.{Watched, start_watch}
use party_bridge.System.{IsIssued, set_aside, book, IsFor}
use party_bridge.System.Follows.{
  Follows, one, IsStable, Follows-if, Follows-when, Follows-throw, Follows-or_die, Follows-or_else,
  Follows-pure, Follows-bind, Follows-then, Follows-or_return,
}
use party_bridge.System.Growth.{IsIssued-IsStable}
use party_bridge.System.Calls.{
  follows_rules, send_status_msg-Follows, bridge_requests_inc-Follows, create-Follows,
  conclude-Follows, remove-Follows,
}

-- what asks
module _ {p : Platform} {asks : String → Type 0} {P : World p → Type 0} (stable : IsStable P) where
  query_balance-Follows :
      (rpc : Option String) (account : String) → Follows asks P (query_balance rpc account)
  unfolding query_balance
  query_balance-Follows rpc account = search (follows_rules, stable) depth 12

  query_token-Follows :
      (contract account : String) (rpc : Option String)
      → Follows asks P (query_token contract account rpc)
  unfolding query_token
  query_token-Follows contract account rpc = search (follows_rules, stable) depth 12

  look-Follows :
      {first second : Exec p ℤ} (amount : Option ℤ)
      → Follows asks P first
      → Follows asks P second
      → Follows asks P (look first second amount)
  unfolding look
  look-Follows amount f g = Follows-or_return Verdict.stop (
      Follows-bind stable f (λ balance.
        Follows-bind stable (Follows-or_die Crash.nil_dereference (cmp_geb (some balance) amount))
          (λ enough. Follows-if (not enough) (Follows-pure Verdict.again) (
            Follows-bind stable g (λ verified.
              Follows-bind stable
                (Follows-or_die Crash.nil_dereference (cmp_geb (some verified) amount))
                (λ still. Follows-pure (if still then Verdict.paid else Verdict.stop)))))))

  fetch-Follows : (address : String) → Follows asks P (fetch_bnb_usdt_balance address)
  unfolding fetch_bnb_usdt_balance
  fetch-Follows address = search (follows_rules, stable) depth 14

  look_bsc-Follows :
      (account : String) (amount : Option ℤ) → Follows asks P (look_bsc account amount)
  unfolding look_bsc
  look_bsc-Follows account amount = search (follows_rules, stable, fetch-Follows) depth 12

  -- the loops
  follow-Follows :
      (v : Verdict) {pay : Exec p (Unit {0})} {rest : Exec p Watching}
      → Follows asks P pay
      → Follows asks P rest
      → Follows asks P (follow v pay rest)
  follow-Follows Verdict.again f g = g
  follow-Follows Verdict.stop f g = Follows-pure Watching.returned
  follow-Follows Verdict.paid f g = Follows-then stable f (Follows-pure Watching.returned)

  module _ {see : Exec p Verdict} {pay expire : Exec p (Unit {0})} (sees : Follows asks P see)
      (pays : Follows asks P pay) (expires : Follows asks P expire) where
    watch_loop-Follows : (wakes : List Wake) → Follows asks P (watch_loop see pay expire wakes)
    unfolding watch_loop
    watch_loop-Follows [] = Follows-pure Watching.waiting
    watch_loop-Follows (Wake.tick ∷ rest) =
        Follows-bind stable sees (λ v. follow-Follows v pays (watch_loop-Follows rest))
    watch_loop-Follows (Wake.timeout ∷ rest) =
        Follows-then stable expires (Follows-pure Watching.returned)

    watch_loop_bsc-Follows :
        (wakes : List BscWake) → Follows asks P (watch_loop_bsc see pay expire wakes)
    unfolding watch_loop_bsc
    watch_loop_bsc-Follows [] = Follows-pure Watching.waiting
    watch_loop_bsc-Follows (BscWake.tick ∷ rest) =
        Follows-bind stable sees (λ v. follow-Follows v pays (watch_loop_bsc-Follows rest))
    watch_loop_bsc-Follows (BscWake.timeout ∷ rest) =
        Follows-then stable expires (Follows-pure Watching.returned)
    watch_loop_bsc-Follows (BscWake.cancelled ∷ rest) =
        Follows-then stable expires (Follows-pure Watching.returned)

-- The request was issued before the call begins.
abbrev pub Issued : (p : Platform) → AccountWatchRequest → World p → Type 0
Issued p r w = IsIssued p w.trace r

module _ {p : Platform} (room : ℕ) (e : ExchangeServer) (r : AccountWatchRequest) where
  stable : IsStable (Issued p r)
  stable = IsIssued-IsStable r

  store_account-Follows :
      (result : String)
      → Follows (IsFor p r) (Issued p r) (store_bridge_account (outcome_of r result))
  store_account-Follows result = record { at = λ w h. one (book (outcome_of r result) h) }

  pub dispatch-Follows :
      (result : String) → Follows (IsFor p r) (Issued p r) (dispatch room e (outcome_of r result))
  unfolding dispatch
  dispatch-Follows result =
      Follows-then stable
        (Follows-when (is_deposit (outcome_of r result)) (
          Follows-or_else stable (store_account-Follows result) (λ error.
            Follows-then stable (tells "error" (support_message (outcome_of r result)))
              (Follows-throw error))))
        (Follows-then stable
          (Follows-or_else stable (create-Follows stable e (outcome_of r result) room) (λ error.
            Follows-then stable (bridge_requests_inc-Follows stable "failed" (outcome_of r result))
              (Follows-then stable (tells "error" (support_message (outcome_of r result)))
                (Follows-throw error))))
          (conclude-Follows stable room e (outcome_of r result)))
    where
      tells :
          (kind message : String)
          → Follows (IsFor p r) (Issued p r) (send_status_msg r.ws_client_id kind message)
      tells = send_status_msg-Follows stable r.ws_client_id

  set_aside-Follows : Follows (IsFor p r) (Issued p r) (store_failed_account_watch_request r)
  set_aside-Follows = record { at = λ w h. one (set_aside r h) }

  dispatch_logged-Follows :
      (result : String) → Follows (IsFor p r) (Issued p r) (dispatch_logged room e r result)
  unfolding dispatch_logged
  dispatch_logged-Follows result = search (follows_rules, stable, dispatch-Follows result) depth 12

  dispatch_or_park-Follows :
      (result : String) → Follows (IsFor p r) (Issued p r) (dispatch_or_park room e r result)
  unfolding dispatch_or_park
  dispatch_or_park-Follows result = Follows-or_else stable (dispatch-Follows result) (λ error.
      Follows-then stable (send_status_msg-Follows stable r.ws_client_id "error" _) (
        Follows-then stable (Follows-or_else stable set_aside-Follows (λ bad. Follows-pure tt)) (
          Follows-or_else stable (remove-Follows stable r.transaction_id)
            (λ bad. Follows-pure tt))))

  -- the watches
  either-Follows :
      {m : Exec p (Unit {0})} {loop : Exec p Watching}
      → Follows (IsFor p r) (Issued p r) m
      → Follows (IsFor p r) (Issued p r) loop
      → Follows
          (IsFor p r)
          (Issued p r)
          (if not e.watch then (m >> pure Watching.returned) else loop)
  either-Follows f g =
      Follows-if (not e.watch) (Follows-then stable f (Follows-pure Watching.returned)) g

  module _ (wakes : List Wake) where
    evm-Follows :
        (client client2 : Option String)
        → Follows (IsFor p r) (Issued p r) (wait_and_verify_evm_chain room e client client2 r wakes)
    unfolding wait_and_verify_evm_chain
    evm-Follows client client2 = either-Follows (dispatch_or_park-Follows "success") (
        watch_loop-Follows stable
          (look-Follows stable r.amount (query_balance-Follows stable client r.account)
            (query_balance-Follows stable client2 r.account))
          (dispatch_or_park-Follows "success") (dispatch_logged-Follows "error") wakes)

    token-Follows :
        (contract : String) (client : Option String)
        → Follows
            (IsFor p r)
            (Issued p r)
            (watch_token room e (query_token contract r.account) client r wakes)
    unfolding watch_token
    token-Follows contract client = either-Follows (dispatch_logged-Follows "success") (
        watch_loop-Follows stable
          (look-Follows stable r.amount (query_token-Follows stable contract r.account client)
            (query_token-Follows stable contract r.account client))
          (dispatch_logged-Follows "success") (dispatch_logged-Follows "error") wakes)

    module _ (bsc_wakes : List BscWake) where
      bsc-Follows : Follows (IsFor p r) (Issued p r) (wait_and_verify_bscusdt room e r bsc_wakes)
      unfolding wait_and_verify_bscusdt
      bsc-Follows = either-Follows (dispatch_logged-Follows "success") (
          watch_loop_bsc-Follows stable (look_bsc-Follows stable r.account r.amount)
            (dispatch_logged-Follows "success") (dispatch_logged-Follows "error") bsc_wakes)

      pub start_watch-Follows :
          (k : Option Watched)
          → Follows (IsFor p r) (Issued p r) (start_watch room e wakes bsc_wakes r k)
      unfolding start_watch wait_and_verify_wgrams_on_octa_space
          wait_and_verify_wocta_on_party_chain wait_and_verify_wbscusdt_on_octa_space
          wait_and_verify_wbscusdt_on_party_chain query_wgrams_on_octa_space
          query_wocta_on_party_chain query_wbscusdt_on_octa_space query_wbscusdt_on_party_chain
      start_watch-Follows none = Follows-pure Watching.returned
      start_watch-Follows (some Watched.octa_coins) = evm-Follows _ _
      start_watch-Follows (some Watched.grams_coins) = evm-Follows _ _
      start_watch-Follows (some Watched.wgrams_on_octa) = token-Follows _ _
      start_watch-Follows (some Watched.wocta_on_party) = token-Follows _ _
      start_watch-Follows (some Watched.wbscusdt_on_octa) = token-Follows _ _
      start_watch-Follows (some Watched.wbscusdt_on_party) = token-Follows _ _
      start_watch-Follows (some Watched.usdt_on_bsc) = bsc-Follows
