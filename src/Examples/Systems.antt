-- ===== src/Examples/Systems.antt =====
-- The theorems on the whole program, from a store with nothing in it.
use party_bridge.Base.{
  ℕ, zero, suc, ◌+◌, ◌<◌, String, false, some, none, Option, List, [], ◌∷◌, ◌≡◌, refl, arith,
  length, inl, inr, Bool-cases,
}
use party_bridge.Base.Int.{pos, ◌+ℤ◌}
use party_bridge.Base.Text.{str_eq, codes}
use party_bridge.Types.{AccountWatchRequest}
use party_bridge.Platform.{Event}
use party_bridge.Exec.{World, Outcome, WebSocketClient}
use party_bridge.Store.Tables.{Tables}
use party_bridge.Store.Requests.{
  retrieve_account_watch_requests_from_db, update_account_watch_request_in_db,
}
use party_bridge.Session.{handle_client_requests, handle_web_socket_connection}
use party_bridge.Session.Records.{watch_request}
use party_bridge.Session.Orders.{stored}
use party_bridge.Units.{to_wei}
use party_bridge.WatchAccount.{lock, begin_watch}
use party_bridge.WatchAccount.Begin.{on_octa}
use party_bridge.Watch.{Wake}
use party_bridge.Watch.Laws.{Answers}
use party_bridge.Shim.{mint_address, mint_body}
use party_bridge.Warren.{start_warren_tick, warren_worker}
use party_bridge.System.Answers.{IsReady}
use party_bridge.System.Sessions.{handle_client_requests-Follows, connection-Follows}
use party_bridge.System.{IsFor, Nothing}
use party_bridge.System.Follows.{Steps-any}
use party_bridge.System.Growth.{Asks}
use party_bridge.System.Cleanup.{Ends, session-Ends}
use party_bridge.System.Sound.{IsHonest, IsSound, empty-IsSound}
use party_bridge.System.Kept.{Steps-IsSound}
use party_bridge.System.Service.{session-IsSound, worker-IsSound}
use party_bridge.System.Pods.{Runs, rest, move, elsewhere_all, IsServiceSound, Runs-IsServiceSound}
use party_bridge.Warren.Service.{Service, new_service, tick, send, receive, begin}
use party_bridge.System.Orders.{ServesAnew, sound_looked, sound_order-Serves}
use party_bridge.Examples.Fake.{platform, requests_text, accounts_text, works, ready, id_drawn}
use party_bridge.Examples.{server, world, world-Represents}

length-id_drawn : (n : ℕ) → length (codes (id_drawn n)) ≡ n + 10
length-id_drawn zero = refl
length-id_drawn (suc n) = omega (arith, length-id_drawn n)

honest : (trace : List Event) → IsHonest platform trace
honest trace = record {
  number = λ tr. length (codes (id_drawn (length tr)));
  parses = λ tr. refl;
  distinct = λ tr tr' d d' same.
      omega (arith, same, length-id_drawn (length tr), length-id_drawn (length tr'));
  set-get = λ j k text db. elim (Bool-cases (str_eq j k)) [
    | inl h ↦ inl (h, rw h refl)
    | inr h ↦ inr (rw h refl)
  ];
  requests_read = λ rs text e. let same : requests_text rs ≡ text = cc e in rw (← same) refl;
  accounts_read = λ bs text e. let same : accounts_text bs ≡ text = cc e in rw (← same) refl;
}

abbrev client : WebSocketClient
client = record {
  sid = "s1";
  acc = none;
  request = record {
    currency = "";
    amount = none;
    from_chain = "";
    bridge_to = "";
    shipping_address = "";
    tx_id = "";
  };
}

client-IsReady : IsReady client
client-IsReady acc e = absurd (cc e)

abbrev tables : Tables
tables = record { requests = []; accounts = []; failed = [] }

abbrev w : World platform
w = world tables

w-IsSound : IsSound w
w-IsSound = empty-IsSound (world-Represents tables)

abbrev messages : List (Option String)
messages = some "requestBridge" ∷ some "confirmBridge" ∷ []

-- the world after an order and its confirmation
abbrev ordered : World platform
ordered = (handle_client_requests (server "g") client messages w).1

Steps-IsSound_example : IsSound ordered
Steps-IsSound_example =
    Steps-IsSound
      ((handle_client_requests-Follows (server "g") client messages client-IsReady).at w tt)
      (honest ordered.trace) w-IsSound

session-IsSound_example : IsSound ordered × Asks Nothing w ordered
session-IsSound_example =
    session-IsSound w-IsSound (server "g") client messages client-IsReady (honest ordered.trace)

-- an order without an amount after one that is answered, which panics
abbrev panics : List (Option String)
panics = some "requestBridge" ∷ some "nothing" ∷ []

session-Ends_example :
    let (o, after) = handle_client_requests (server "g") client panics w in Ends "s1" after o
session-Ends_example = session-Ends (server "g") client panics w

abbrev issued : AccountWatchRequest
issued =
    stored (server "g") client (platform.unmarshal_request "requestBridge").request w "message" 7
      (pos 40)

ordered-IsSound : IsSound ordered
ordered-IsSound =
    let both =
      session-IsSound w-IsSound (server "g") client messages client-IsReady
        (honest ordered.trace) in
    both.0

-- another client connects after the tick
abbrev joined : World platform
joined = (handle_web_socket_connection (server "g") none ordered).1

worker-IsSound_example :
    let after = (warren_worker 1 (server "g") (Wake.tick ∷ Wake.timeout ∷ []) [] issued joined).1 in
    IsSound after × Asks (IsFor platform issued) joined after
unfolding to_wei watch_request start_warren_tick handle_client_requests
    retrieve_account_watch_requests_from_db update_account_watch_request_in_db
worker-IsSound_example =
    worker-IsSound ordered-IsSound 1 (server "g") (Wake.tick ∷ Wake.timeout ∷ []) [] (issued ∷ []) 0
      issued joined refl refl (Steps-any ((connection-Follows (server "g") none).at ordered tt))
      (honest _)

abbrev service : Service platform
service = new_service 1 (λ i. server "g") w

-- a client orders, then the pod ticks, sends, receives and begins to watch
abbrev begun : Outcome AccountWatchRequest × World platform
begun = begin_watch (server "g") issued ordered

watched_runs :
    (later : Service platform) × Runs 1 service later
    × ((later.pods 0).watching ≡ lock (server "g") (pos 5) issued ∷ [])
unfolding to_wei watch_request start_warren_tick handle_client_requests
    retrieve_account_watch_requests_from_db update_account_watch_request_in_db begin_watch lock
watched_runs = (
  _,
  move 0
      (move 0
        (move 0
          (move 0
            (elsewhere_all rest (
              Steps-any (
                (handle_client_requests-Follows (server "g") client messages client-IsReady).at w
                  tt)))
            (tick {sent = issued ∷ []} {w' = ordered} refl refl refl))
          (send refl (omega arith)))
        (receive issued (omega arith) refl))
      (begin issued [] [] {locked = lock (server "g") (pos 5) issued} {w' = begun.1} refl refl),
  refl,
)

Runs-IsServiceSound_example : IsServiceSound watched_runs.0
Runs-IsServiceSound_example =
    Runs-IsServiceSound 1 (λ i. server "g") w-IsSound watched_runs.1 (honest _)

-- the node tells 0, 10, 20, 30 and 40 at first
low :
    (k : ℕ)
    → k < 5
    → Answers {p = platform} "0xa" "octa" (pos 41) false (
        sound_looked works ready 1
          (server "g")
          client
          (world-Represents tables)
          {order = "requestBridge"}
          {confirmation = "confirmBridge"}
          refl
          refl
          "message"
          7
          (pos 40)
          "octa"
          k)
low zero h = (pos 0, refl, refl)
low (suc zero) h = (pos 10, refl, refl)
low (suc (suc zero)) h = (pos 20, refl, refl)
low (suc (suc (suc zero))) h = (pos 30, refl, refl)
low (suc (suc (suc (suc zero)))) h = (pos 40, refl, refl)
low (suc (suc (suc (suc (suc k))))) h = absurd (omega arith)

sound_order-Serves_example :
    ServesAnew works ready 1
      (server "g")
      client
      (world-Represents tables)
      {order = "requestBridge"}
      {confirmation = "confirmBridge"}
      refl
      refl
      "message"
      7
      (pos 40)
      "octa:8080"
      "octa"
      "octa2"
      5
      []
      []
unfolding to_wei watch_request mint_address mint_body ◌+ℤ◌
sound_order-Serves_example =
    sound_order-Serves works ready 1 (server "g") client (world-Represents tables)
      {order = "requestBridge"} {confirmation = "confirmBridge"} refl refl "message" 7 (pos 40)
      {status = 200} "octa:8080" "octa" "octa2" 5 [] [] w-IsSound (honest _) refl refl refl refl
      refl refl (on_octa refl refl refl refl refl) refl low (pos 50, refl, refl)
      (pos 130, refl, refl) refl refl
