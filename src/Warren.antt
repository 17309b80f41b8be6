-- ===== src/Warren.antt =====
-- pkg/adapter.go: the service that starts watches. At a tick (`StartWarren`) the stored requests are
-- read, those that are not locked are sent to a channel (`Warren`), and a worker (`warrenWorker`)
-- starts a watch for each that it receives.
pub mod Laws
pub mod Service
pub mod Invariant
pub mod Twice
use party_bridge.Base.{ℕ, Bool, not, List, [], keep_if, length, ◌==◌, if◌then◌else◌}
use party_bridge.Types.{AccountWatchRequest}
use party_bridge.Platform.{Platform}
use party_bridge.Server.{ExchangeServer}
use party_bridge.Exec.{Exec, pure, or_return, ◌>>=◌}
use party_bridge.Store.Requests.{retrieve_account_watch_requests_from_db}
use party_bridge.Watch.{Wake, Watching}
use party_bridge.Watch.Bsc.{Wake as BscWake}
use party_bridge.WatchAccount.{watch_account}

-- What `Warren` sends to the channel, in order.
unfoldable pub warren : List AccountWatchRequest → List AccountWatchRequest
warren awr = if length awr == 0 then [] else keep_if (λ r. not r.locked) awr

module _ {p : Platform} where
  -- One tick of `StartWarren`, by what it sends; an error is logged and nothing is sent.
  unfoldable pub start_warren_tick : Exec p (List AccountWatchRequest)
  unfolding warren
  start_warren_tick =
      or_return [] (do awr ← retrieve_account_watch_requests_from_db; pure (warren awr))

  -- A request from the channel; the watch runs on its own.
  unfoldable pub warren_worker :
      ℕ → ExchangeServer → List Wake → List BscWake → AccountWatchRequest → Exec p Watching
  warren_worker room e wakes bsc_wakes r =
      if not r.locked then watch_account room e wakes bsc_wakes r else pure Watching.returned
