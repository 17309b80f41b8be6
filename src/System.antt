-- ===== src/System.antt =====
-- The whole program as a relation of steps: what any part of it does to the world is one of these
-- steps after the other, whatever the outside answers and wherever it ends. Each operation on Redis
-- is one step; between two steps of one process those of others may come.
pub mod Follows
pub mod Unchanged
pub mod Writes
pub mod Growth
pub mod Calls
pub mod Watches
pub mod Workers
pub mod Returns
pub mod Answers
pub mod Confirms
pub mod Sessions
pub mod Cleanup
pub mod Distinct
pub mod Sound
pub mod Ids
pub mod ReadBack
pub mod Charged
pub mod Lists
pub mod Kept
pub mod Service
pub mod Orders
pub mod Pods
use party_bridge.Base.{ℕ, String, Option, some, Bool, true, false, List, ◌∷◌, ◌++◌, ◌≡◌}
use party_bridge.Base.Int.{ℤ}
use party_bridge.Types.{AccountWatchRequest, AccountWatchRequestResult, MintRequest}
use party_bridge.Platform.{Platform, Event, drew_uuid, posted, ok}
use party_bridge.Server.{ExchangeServer}
use party_bridge.Exec.{World, WebSocketClient}
use party_bridge.Store.Requests.{
  update_account_watch_request_in_db, update_account_watch_requests_on_crash,
  remove_account_watch_request_from_db, store_failed_account_watch_request,
}
use party_bridge.Store.Accounts.{store_bridge_account, update_bridge_account_in_db}

-- The ids were drawn, one right after the other.
pub record IsDrawn (p : Platform) (trace : List Event) (id awrid : String) : Type 0 where
  pub newer : List Event
  pub older : List Event
  pub drawn : trace ≡ newer ++ drew_uuid ∷ drew_uuid ∷ older
  pub id_drawn : id ≡ p.new_uuid older
  pub awrid_drawn : awrid ≡ p.new_uuid (drew_uuid ∷ older)

-- A request under ids that were drawn for it, with the same amount to watch for and to bridge.
pub record IsIssued (p : Platform) (trace : List Event) (r : AccountWatchRequest) : Type 0 where
  pub ids_drawn : IsDrawn p trace r.transaction_id r.awrid
  pub value : ℤ
  pub has_amount : r.amount ≡ some value
  pub order_has_amount : r.assisted_sell_order_information.amount ≡ some value

-- A request to a shim server for this watch request: for its amount, to the address and for the
-- session that it names.
pub record IsFor (p : Platform) (r : AccountWatchRequest) (text : String) : Type 0 where
  pub body : MintRequest
  pub encoded : p.marshal_mint body ≡ ok text
  pub same_amount : body.amount ≡ r.amount
  pub same_address : body.to_address ≡ r.assisted_sell_order_information.seller_shipping_address
  pub same_session : body.sid ≡ r.ws_client_id

-- What a part of the program may ask of a shim: nothing, or anything.
abbrev pub Nothing : String → Type 0
Nothing text = ⊥

abbrev pub Anything : String → Type 0
Anything text = Unit

abbrev pub is_request : Event → Bool
is_request (posted url text) = true
is_request event = false

pub data Step {p : Platform} (asks : String → Type 0) (w : World p) : World p → Type 0 where
  -- something that the outside sees, or a question put to it
  effect :
      (event : Event)
      → is_request event ≡ false
      → Step asks w (record w { trace = event ∷ w.trace })
  -- a request to a shim server
  ask :
      (url text : String) → asks text → Step asks w (record w { trace = posted url text ∷ w.trace })
  -- the sessions and the shared amounts change
  memory :
      (ws_clients : List (String × WebSocketClient)) (heap : List ℤ)
      → Step asks w (record w { ws_clients = ws_clients; heap = heap })
  -- a session or a watch stores a request
  update :
      (r : AccountWatchRequest)
      → IsIssued p w.trace r
      → Step asks w (update_account_watch_request_in_db r w).1
  remove : (id : String) → Step asks w (remove_account_watch_request_from_db id w).1
  set_aside :
      (r : AccountWatchRequest)
      → IsIssued p w.trace r
      → Step asks w (store_failed_account_watch_request r w).1
  unlock_all : (e : ExchangeServer) → Step asks w (update_account_watch_requests_on_crash e w).1
  book :
      (awrr : AccountWatchRequestResult)
      → IsIssued p w.trace awrr.account_watch_request
      → Step asks w (store_bridge_account awrr w).1
  charge :
      (id : String) (amount : Option ℤ) → Step asks w (update_bridge_account_in_db id amount w).1

-- Any number of steps.
pub data Steps {p : Platform} (asks : String → Type 0) (w : World p) : World p → Type 0 where
  stay : Steps asks w w
  more : {v u : World p} → Steps asks w v → Step asks v u → Steps asks w u
