-- ===== src/WatchAccount.antt =====
-- pkg/helper.go `watchAccount`: a request is locked for this pod, and the watch that fits its
-- chain, destination and currency is started.
pub mod Routes
pub mod Endings
pub mod Begin
pub mod Complete
use party_bridge.Base.{ℕ, String, true, Option, none, some, List, if◌then◌else◌}
use party_bridge.Base.Text.{str_eq}
use party_bridge.Types.{
  Time, AccountWatchRequest, AssistedTradeOrderInformation, grams, octa, bscusdt, wbscusdt,
}
use party_bridge.Platform.{Platform, read_clock}
use party_bridge.Server.{ExchangeServer}
use party_bridge.Exec.{Exec, pure, gets, emit, or_else, ◌>>=◌, ◌>>◌}
use party_bridge.Store.Requests.{update_account_watch_request_in_db}
use party_bridge.Watch.{
  Wake, Watching, wait_and_verify_evm_chain, wait_and_verify_wgrams_on_octa_space,
  wait_and_verify_wocta_on_party_chain, wait_and_verify_wbscusdt_on_octa_space,
  wait_and_verify_wbscusdt_on_party_chain,
}
use party_bridge.Watch.Bsc.{Wake as BscWake, wait_and_verify_bscusdt}

-- The calls that the nested `switch` chooses from.
pub data Watched : Type 0 where
  octa_coins grams_coins wgrams_on_octa wocta_on_party wbscusdt_on_octa wbscusdt_on_party : Watched
  usdt_on_bsc : Watched

-- The nested `switch`; `none` is a path that starts no watch.
unfoldable pub watched_of : String → AssistedTradeOrderInformation → Option Watched
watched_of chain info =
    if str_eq chain octa
    then (if str_eq info.bridge_to grams
        then (if str_eq info.currency octa
            then some Watched.octa_coins
            else if str_eq info.currency "wgrams"
            then some Watched.wgrams_on_octa
            else none)
        else if str_eq info.bridge_to bscusdt
        then (if str_eq info.currency wbscusdt then some Watched.wbscusdt_on_octa else none)
        else none)
    else if str_eq chain grams
    then (if str_eq info.bridge_to octa
        then (if str_eq info.currency "wocta"
            then some Watched.wocta_on_party
            else if str_eq info.currency grams
            then some Watched.grams_coins
            else none)
        else if str_eq info.bridge_to bscusdt
        then (if str_eq info.currency wbscusdt then some Watched.wbscusdt_on_party else none)
        else none)
    else if str_eq chain bscusdt
    then (if str_eq info.bridge_to octa
        then (if str_eq info.currency bscusdt then some Watched.usdt_on_bsc else none)
        else if str_eq info.bridge_to grams
        then (if str_eq info.currency bscusdt then some Watched.usdt_on_bsc else none)
        else none)
    else none

-- `awr.Locked = true`, `awr.LockedBy = e.podName`, `awr.LockedTime = time.Now()`
unfoldable pub lock : ExchangeServer → Time → AccountWatchRequest → AccountWatchRequest
lock e time awr = record awr { locked = true; locked_by = e.pod_name; locked_time = time }

-- The request is locked and stored; a failure to store it is only logged.
unfoldable pub begin_watch :
    {p : Platform} → ExchangeServer → AccountWatchRequest → Exec p AccountWatchRequest
unfolding lock
begin_watch {p} e awr = do
  time ← gets (λ w. p.now w.trace)
  emit read_clock
  or_else (update_account_watch_request_in_db (lock e time awr)) (λ error. pure tt)
  pure (lock e time awr)

module _ {p : Platform} (room : ℕ) (e : ExchangeServer) (wakes : List Wake)
    (bsc_wakes : List BscWake) where
  -- the call on each path of the `switch`
  unfoldable pub start_watch : AccountWatchRequest → Option Watched → Exec p Watching
  start_watch awr none = pure Watching.returned
  start_watch awr (some Watched.octa_coins) =
      wait_and_verify_evm_chain room e e.oct_node.rpc_client e.oct_node.rpc_client_two awr wakes
  start_watch awr (some Watched.grams_coins) =
      wait_and_verify_evm_chain room e e.party_chain.rpc_client e.party_chain.rpc_client_two awr
        wakes
  start_watch awr (some Watched.wgrams_on_octa) =
      wait_and_verify_wgrams_on_octa_space room e e.oct_node.rpc_client e.oct_node.rpc_client_two
        awr wakes
  start_watch awr (some Watched.wocta_on_party) =
      wait_and_verify_wocta_on_party_chain room e e.party_chain.rpc_client
        e.party_chain.rpc_client_two awr wakes
  start_watch awr (some Watched.wbscusdt_on_octa) =
      wait_and_verify_wbscusdt_on_octa_space room e e.oct_node.rpc_client e.oct_node.rpc_client_two
        awr wakes
  start_watch awr (some Watched.wbscusdt_on_party) =
      wait_and_verify_wbscusdt_on_party_chain room e e.party_chain.rpc_client
        e.party_chain.rpc_client_two awr wakes
  start_watch awr (some Watched.usdt_on_bsc) = wait_and_verify_bscusdt room e awr bsc_wakes

  unfoldable pub watch_account : AccountWatchRequest → Exec p Watching
  unfolding begin_watch watched_of start_watch
  watch_account awr = do
    locked ← begin_watch e awr
    start_watch locked (if str_eq info.bridge_to "" then none else watched_of awr.chain info)
    where
      open awr use {assisted_sell_order_information as info}
