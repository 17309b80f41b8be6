-- ===== src/System/Service.antt =====
-- pkg/adapter.go: sessions, ticks and workers in sound states, whatever the outside does.
use party_bridge.Base.{
  ℕ, String, not, Option, some, List, [], ◌≡◌, refl, All, All-keep_if, All-get_elem?, get_elem?,
}
use party_bridge.Types.{AccountWatchRequest}
use party_bridge.Platform.{Platform}
use party_bridge.Server.{ExchangeServer}
use party_bridge.Exec.{World, Outcome, WebSocketClient, ret, fail, crash, pure, continue, recover}
use party_bridge.Store.{load, account_watch_requests}
use party_bridge.Store.Requests.{retrieve_account_watch_requests_from_db}
use party_bridge.Session.{handle_client_requests}
use party_bridge.Watch.{Wake}
use party_bridge.Watch.Bsc.{Wake as BscWake}
use party_bridge.Warren.{warren, start_warren_tick, warren_worker}
use party_bridge.Warren.Laws.{warren-unlocked}
use party_bridge.System.{IsIssued, IsFor, Steps, Nothing, Anything}
use party_bridge.System.Follows.{Steps-append, Steps-any}
use party_bridge.System.Growth.{Asks, Steps-Asks, IsIssued-IsStable}
use party_bridge.System.Workers.{warren_worker-Follows}
use party_bridge.System.Answers.{IsReady}
use party_bridge.System.Sessions.{handle_client_requests-Follows}
use party_bridge.System.Sound.{IsHonest, IsSound}
use party_bridge.System.Kept.{Steps-IsSound}

module _ {p : Platform} {w : World p} (sound : IsSound w) where
  -- what a tick makes of what it reads
  sent-All :
      (o : Outcome (List AccountWatchRequest)) (v : World p)
      → ((rs : List AccountWatchRequest) → o ≡ ret rs → All (IsIssued p w.trace) rs)
      → (sent : List AccountWatchRequest)
      → recover [] ((continue o (λ awr. pure {p = p} (warren awr)) v).0) ≡ ret sent
      → All (IsIssued p w.trace) sent
  sent-All (ret rs) v issued sent e =
      let same : warren rs ≡ sent = cc e in
      rw (← same) (
        rw (warren-unlocked rs)
          (All-keep_if (IsIssued p w.trace) (λ r. not r.locked) rs (issued rs refl)))
  sent-All (fail m) v issued sent e = let same : [] ≡ sent = cc e in rw (← same) tt
  sent-All (crash c) v issued sent e = absurd (cc e)

  -- Only issued requests are sent to the workers.
  pub sent-IsIssued :
      (sent : List AccountWatchRequest)
      → (start_warren_tick w).0 ≡ ret sent
      → All (IsIssued p w.trace) sent
  unfolding start_warren_tick retrieve_account_watch_requests_from_db
  sent-IsIssued sent e =
      sent-All (load p.requests_json [] account_watch_requests w).0 _
        (λ rs read. (sound.requests_sound rs read).0) sent e

  -- From a sound state, whatever messages a client sends and whatever the outside answers, if the
  -- session has an amount where it has a key, and the outside is honest up to the end (as for steps
  -- of the program), the session leaves a sound state (as for steps of the program) and has posted
  -- nothing to a shim, also where it ends in an error or a crash.
  pub session-IsSound :
      (e : ExchangeServer) (client : WebSocketClient) (messages : List (Option String))
      → IsReady client
      → IsHonest p (handle_client_requests e client messages w).1.trace
      → IsSound (handle_client_requests e client messages w).1
        × Asks Nothing w (handle_client_requests e client messages w).1
  session-IsSound e client messages ready honest =
      let steps : Steps Nothing w (handle_client_requests e client messages w).1 =
        (handle_client_requests-Follows e client messages ready).at w tt in
      (Steps-IsSound steps honest sound, Steps-Asks steps)

  -- If a tick in a sound state sends a request, then after any further steps of the program,
  -- whatever the wakes and whatever the outside answers, if the outside is honest up to the end (as
  -- for steps of the program), the worker that receives the request leaves a sound state (as for
  -- steps of the program), also where it ends in an error or a crash; and everything that the
  -- worker posts to a shim, to mint or to pay out, is the encoding of a body with the amount of
  -- that request, the address that the request ships to, and the session of the request.
  pub worker-IsSound :
      (room : ℕ) (e : ExchangeServer) (wakes : List Wake) (bsc_wakes : List BscWake)
      (sent : List AccountWatchRequest) (k : ℕ) (r : AccountWatchRequest) (v : World p)
      → (start_warren_tick w).0 ≡ ret sent
      → get_elem? sent k ≡ some r
      → Steps Anything w v
      → IsHonest p (warren_worker room e wakes bsc_wakes r v).1.trace
      → IsSound (warren_worker room e wakes bsc_wakes r v).1
        × Asks (IsFor p r) v (warren_worker room e wakes bsc_wakes r v).1
  worker-IsSound room e wakes bsc_wakes sent k r v ticked there between honest =
      let issued : IsIssued p w.trace r =
        All-get_elem? (IsIssued p w.trace) sent k r (sent-IsIssued sent ticked) there in
      let steps : Steps (IsFor p r) v (warren_worker room e wakes bsc_wakes r v).1 =
        (warren_worker-Follows room e wakes bsc_wakes r).at v
          (IsIssued-IsStable r w v between issued) in
      (Steps-IsSound (Steps-append between (Steps-any steps)) honest sound, Steps-Asks steps)
