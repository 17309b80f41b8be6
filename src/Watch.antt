-- ===== src/Watch.antt =====
-- pkg/evm.go: the watches on an account, each a loop that wakes at the ticks of a ticker and once
-- at a timer. The order of the wakes is the scheduler's, so it is an argument.
pub mod Bsc
pub mod Rounds
pub mod Laws
pub mod Tokens
pub mod Complete
pub mod Payout
pub mod BscLaws
pub mod Endings
use party_bridge.Base.{
  ℕ, String, Bool, true, false, not, Option, none, some, List, [], ◌∷◌, if◌then◌else◌,
}
use party_bridge.Base.Int.{ℤ, cmp_geb}
use party_bridge.Types.{AccountWatchRequest, AccountWatchRequestResult}
use party_bridge.Platform.{Platform, Event, asked_balance, asked_token}
use party_bridge.Server.{ExchangeServer}
use party_bridge.Exec.{
  World, Exec, Crash, pure, gets, lift, deref, or_die, emit, or_else, or_return, ◌>>=◌, ◌>>◌,
}
use party_bridge.Store.Requests.{
  remove_account_watch_request_from_db, store_failed_account_watch_request,
}
use party_bridge.Notify.{send_status_msg}
use party_bridge.Dispatch.{dispatch}
use party_bridge.Base.Text.{concat}

-- What a `select` received.
pub data Wake : Type 0 where
  tick timeout : Wake

-- Whether the watch has ended when the wakes are used up.
pub data Watching : Type 0 where
  waiting returned : Watching

-- What one look at the balance leads to.
pub data Verdict : Type 0 where
  again stop paid : Verdict

abbrev pub outcome_of : AccountWatchRequest → String → AccountWatchRequestResult
outcome_of request result = record { account_watch_request = request; result = result }

module _ {p : Platform} where
  -- `client.BalanceAt(ctx, account, nil)`
  unfoldable pub query_balance : Option String → String → Exec p ℤ
  query_balance rpc account = do
    client ← deref rpc
    reply ← gets (λ w. p.balance_at w.trace client account)
    emit (asked_balance client account)
    lift reply

  -- `contract.BalanceOf(nil, account)` at a token contract
  unfoldable pub query_token : String → String → Option String → Exec p ℤ
  query_token contract account rpc = do
    client ← deref rpc
    reply ← gets (λ w. p.balance_of w.trace client contract account)
    emit (asked_token client contract account)
    lift reply

  unfoldable pub query_wgrams_on_octa_space : ExchangeServer → String → Option String → Exec p ℤ
  unfolding query_token
  query_wgrams_on_octa_space e = query_token e.w_grams_on_octa_contract_address

  unfoldable pub query_wocta_on_party_chain : ExchangeServer → String → Option String → Exec p ℤ
  unfolding query_token
  query_wocta_on_party_chain e = query_token e.w_octa_on_party_chain_contract_address

  unfoldable pub query_wbscusdt_on_octa_space : ExchangeServer → String → Option String → Exec p ℤ
  unfolding query_token
  query_wbscusdt_on_octa_space e = query_token e.w_bscusdt_on_octa_space_contract_address

  unfoldable pub query_wbscusdt_on_party_chain : ExchangeServer → String → Option String → Exec p ℤ
  unfolding query_token
  query_wbscusdt_on_party_chain e = query_token e.w_bscusdt_on_party_chain_contract_address

  -- One tick: the balance, and when it is enough the balance as the second query tells it.
  unfoldable pub look : Exec p ℤ → Exec p ℤ → Option ℤ → Exec p Verdict
  look first second amount = or_return Verdict.stop (do
    balance ← first
    enough ← or_die Crash.nil_dereference (cmp_geb (some balance) amount)
    if not enough then pure Verdict.again else do
      verified ← second
      still ← or_die Crash.nil_dereference (cmp_geb (some verified) amount)
      pure (if still then Verdict.paid else Verdict.stop))

  -- the rest of the loop, after a verdict
  abbrev pub follow : Verdict → Exec p (Unit {0}) → Exec p Watching → Exec p Watching
  follow Verdict.again pay rest = rest
  follow Verdict.stop pay rest = pure Watching.returned
  follow Verdict.paid pay rest = do pay; pure Watching.returned

  -- `for canILive { select { … } }`, with what a payment and the timeout lead to
  unfoldable pub watch_loop :
      Exec p Verdict → Exec p (Unit {0}) → Exec p (Unit {0}) → List Wake → Exec p Watching
  watch_loop see pay expire [] = pure Watching.waiting
  watch_loop see pay expire (Wake.tick ∷ rest) = do
    verdict ← see
    follow verdict pay (watch_loop see pay expire rest)
  watch_loop see pay expire (Wake.timeout ∷ rest) = do expire; pure Watching.returned

  module _ (room : ℕ) (e : ExchangeServer) where
    -- `Dispatch`, its error logged
    unfoldable pub dispatch_logged : AccountWatchRequest → String → Exec p (Unit {0})
    dispatch_logged request result =
        or_else (dispatch room e (outcome_of request result)) (λ error. pure tt)

    -- `Dispatch`; on an error the client is told and the request is set aside
    unfoldable pub dispatch_or_park : AccountWatchRequest → String → Exec p (Unit {0})
    dispatch_or_park request result =
        or_else (dispatch room e (outcome_of request result)) (λ error. do
          send_status_msg request.ws_client_id "error" (
              concat (
                "The bridge server has encountered an error. Please contact support with the following ID: "
                ∷ request.transaction_id ∷ []))
          or_else (store_failed_account_watch_request request) (λ bad. pure tt)
          or_else (remove_account_watch_request_from_db request.transaction_id) (λ bad. pure tt))

    -- The error of a dispatch after the timeout is only logged.
    unfoldable pub wait_and_verify_evm_chain :
        Option String → Option String → AccountWatchRequest → List Wake → Exec p Watching
    unfolding query_balance look watch_loop dispatch_logged dispatch_or_park
    wait_and_verify_evm_chain client client2 request wakes =
        if not e.watch
        then (do dispatch_or_park request "success"; pure Watching.returned)
        else watch_loop
            (look (query_balance client request.account) (query_balance client2 request.account)
              request.amount)
            (dispatch_or_park request "success") (dispatch_logged request "error") wakes

    -- what the four watches on a token share: both looks ask `client`
    unfoldable pub watch_token :
        (Option String → Exec p ℤ)
        → Option String
        → AccountWatchRequest
        → List Wake
        → Exec p Watching
    unfolding look watch_loop dispatch_logged
    watch_token query client request wakes =
        if not e.watch
        then (do dispatch_logged request "success"; pure Watching.returned)
        else watch_loop (look (query client) (query client) request.amount)
            (dispatch_logged request "success") (dispatch_logged request "error") wakes

    unfoldable pub wait_and_verify_wgrams_on_octa_space :
        Option String → Option String → AccountWatchRequest → List Wake → Exec p Watching
    unfolding query_wgrams_on_octa_space watch_token
    wait_and_verify_wgrams_on_octa_space client client2 request =
        watch_token (query_wgrams_on_octa_space e request.account) client request

    unfoldable pub wait_and_verify_wocta_on_party_chain :
        Option String → Option String → AccountWatchRequest → List Wake → Exec p Watching
    unfolding query_wocta_on_party_chain watch_token
    wait_and_verify_wocta_on_party_chain client client2 request =
        watch_token (query_wocta_on_party_chain e request.account) client request

    unfoldable pub wait_and_verify_wbscusdt_on_octa_space :
        Option String → Option String → AccountWatchRequest → List Wake → Exec p Watching
    unfolding query_wbscusdt_on_octa_space watch_token
    wait_and_verify_wbscusdt_on_octa_space client client2 request =
        watch_token (query_wbscusdt_on_octa_space e request.account) client request

    unfoldable pub wait_and_verify_wbscusdt_on_party_chain :
        Option String → Option String → AccountWatchRequest → List Wake → Exec p Watching
    unfolding query_wbscusdt_on_party_chain watch_token
    wait_and_verify_wbscusdt_on_party_chain client client2 request =
        watch_token (query_wbscusdt_on_party_chain e request.account) client request
