-- ===== src/Session/Orders.antt =====
-- pkg/adapter.go `handleClientRequests`: what an order and its confirmation leave in the store.
use party_bridge.Base.{
  ℕ, zero, suc, String, true, Option, none, some, List, [], ◌∷◌, ◌++◌, ◌≡◌, refl, ap, length,
  get_elem?, get_elem?-append, upsert, All,
}
use mathlib.Core.List.{append-nil}
use party_bridge.Base.Int.{ℤ, pos, ◌+ℤ◌, geb_ℤ}
use party_bridge.Types.{AccountWatchRequest, BridgeRequest}
use party_bridge.Messages.{WsMessage}
use party_bridge.Platform.{Platform, Event, ok, drew_uuid, read_clock, generated_key, wrote}
use party_bridge.Server.{ExchangeServer}
use party_bridge.Exec.{World, Exec, ret, Pointer, WebSocketClient}
use party_bridge.Store.Tables.{Tables, IsWorking, Represents}
use party_bridge.Store.Refinement.{Parses, same_uuid, update-Performs}
use party_bridge.Dispatch.Effects.{Represents-db}
use party_bridge.Session.{
  Standing, write_json, generate_evm_account, account_of, answer, request_bridge, confirm_bridge,
  handle_message, handle_client_requests,
}
use party_bridge.Session.Heap.{set_cell, place, place_amount, read, write, read_amount}
use party_bridge.Session.Records.{shared, watch_request}
use party_bridge.Units.{to_wei, Number}

set_cell-append : (h : List ℤ) (x y : ℤ) → set_cell (h ++ x ∷ []) (length h) y ≡ h ++ y ∷ []
set_cell-append [] x y = refl
set_cell-append (z ∷ h) x y = ap (λ r. z ∷ r) (set_cell-append h x y)

get_elem?-append_left :
    (h more : List ℤ) (i : ℕ) {y : ℤ} → get_elem? h i ≡ some y → get_elem? (h ++ more) i ≡ some y
get_elem?-append_left [] more i e = cc
get_elem?-append_left (z ∷ h) more zero e = e
get_elem?-append_left (z ∷ h) more (suc i) e = get_elem?-append_left h more i e

-- the amount with the fee
abbrev pub with_fee : Platform → ExchangeServer → ℤ → ℤ
with_fee p e x = x +ℤ to_wei p (Number.int e.fee) (pos 18)

abbrev pub response : Platform → ExchangeServer → ℤ → ℕ → WsMessage
response p e x acc = WsMessage.response (record {
  kind = "requestBridgeResponse";
  amount = some (with_fee p e x);
  address = p.address_of acc;
})

module _ {p : Platform} where
  place_amount_lem :
      (a : Option ℤ) (w : World p)
      → (at : Option Pointer) × (more : List ℤ) × (place_amount a w
          ≡ (ret at, record w { heap = w.heap ++ more }))
  unfolding place_amount place
  place_amount_lem none w = (none, [], rw (append-nil w.heap) refl)
  place_amount_lem (some x) w = (some (length w.heap), x ∷ [], refl)

  module _ (e : ExchangeServer) (client : WebSocketClient) where
    abbrev pub ordered : BridgeRequest ℤ → ℕ → World p → WebSocketClient
    ordered r acc w = record client { acc = some acc; request = shared r (some (length w.heap)) }

    order_lem :
        (r : BridgeRequest ℤ) (w : World p) {x : ℤ} {acc : ℕ} {text : String}
        → r.amount ≡ some x
        → geb_ℤ x (to_wei p (Number.int e.minimum_amount) (pos 18)) ≡ true
        → client.acc ≡ none
        → p.generate_key w.trace ≡ ok acc
        → p.marshal_message (response p e x acc) ≡ ok text
        → handle_message e client (record { kind = "requestBridge"; request = r }) w ≡ (
          ret (some (ordered r acc w)),
          record w {
            heap = w.heap ++ with_fee p e x ∷ [];
            trace = wrote client.sid text ∷ generated_key ∷ w.trace;
          },
        )
    unfolding handle_message place_amount place request_bridge read answer account_of
        generate_evm_account write write_json
    order_lem r w {x} some_amount enough no_key key encoded =
        simp (some_amount, no_key)
          (rw (get_elem?-append w.heap [] x)
            (rw enough (rw key (rw encoded (rw (set_cell-append w.heap x (with_fee p e x)) refl)))))

-- The call returns this value, the keys then read as `t`, and what was done is this trace.
pub record Leaves {p : Platform} {A : Type 0} (m : Exec p A) (w : World p) (a : A) (t : Tables)
    (trace : List Event) : Type 0 where
  pub after : World p
  pub runs : m w ≡ (ret a, after)
  pub represents : Represents after t
  pub same_trace : after.trace ≡ trace

module _ {p : Platform} (e : ExchangeServer) (client : WebSocketClient) (w : World p) where
  abbrev drawn : List Event
  drawn = drew_uuid ∷ drew_uuid ∷ w.trace

  -- the watch request that a confirmation stores, for this key and amount
  abbrev pub confirmed : ℕ → ℤ → AccountWatchRequest
  confirmed acc y =
      watch_request p e client (p.new_uuid w.trace) (p.new_uuid (drew_uuid ∷ w.trace)) acc (some y)
        (p.now drawn) (p.now (read_clock ∷ drawn))

  module _ (works : IsWorking p) (uuid : AccountWatchRequest → ℕ) {t : Tables}
      (held : Represents w t) {acc : ℕ} {at : Pointer} {y : ℤ} (key : client.acc ≡ some acc)
      (amount : client.request.amount ≡ some at) (here : get_elem? w.heap at ≡ some y)
      (parses : Parses p uuid (confirmed acc y)) (all_parse : All (Parses p uuid) t.requests) where
    confirm_lem :
        (r : BridgeRequest ℤ)
        → Leaves
            (handle_message e client (record { kind = "confirmBridge"; request = r }))
            w
            (some client)
            (record t {
              requests = upsert (same_uuid p uuid (confirmed acc y)) (confirmed acc y) t.requests;
            })
            (read_clock ∷ read_clock ∷ drawn)
    unfolding handle_message confirm_bridge read_amount read
    confirm_lem r =
        let (at', more, placed) = place_amount_lem r.amount w in
        let w1 : World p = record w {
          heap = w.heap ++ more;
          trace = read_clock ∷ read_clock ∷ drawn;
        } in
        let stored =
          update-Performs works uuid (Represents-db w1 refl held) (confirmed acc y) parses
            all_parse in
        record {
          after = stored.after;
          runs = rw placed (
              simp (key, amount)
                (rw (get_elem?-append_left w.heap more at here) (rw stored.runs refl)));
          represents = stored.represents;
          same_trace = stored.same_trace;
        }

-- A key is generated, the answer is written, two ids are drawn, and the clock is read twice.
abbrev pub trace_of_order : String → String → List Event → List Event
trace_of_order sid text tr =
    read_clock ∷ read_clock ∷ drew_uuid ∷ drew_uuid ∷ wrote sid text ∷ generated_key ∷ tr

-- An order for `x` that was answered with `text`, under the key `acc`.
module _ {p : Platform} (e : ExchangeServer) (client : WebSocketClient) (r : BridgeRequest ℤ)
    (w : World p) (text : String) (acc : ℕ) (x : ℤ) where
  -- the world after the answer
  abbrev pub answered : World p
  answered = record w {
    heap = w.heap ++ with_fee p e x ∷ [];
    trace = wrote client.sid text ∷ generated_key ∷ w.trace;
  }

  -- what a confirmation then stores
  abbrev pub stored : AccountWatchRequest
  stored = confirmed e (ordered e client r acc w) answered acc (with_fee p e x)

module _ {p : Platform} (works : IsWorking p) (uuid : AccountWatchRequest → ℕ) (e : ExchangeServer)
    (client : WebSocketClient) {w : World p} {t : Tables} (held : Represents w t)
    {order confirmation : String} {r r' : BridgeRequest ℤ}
    (orders : p.unmarshal_request order ≡ record { kind = "requestBridge"; request = r })
    (confirms : p.unmarshal_request confirmation ≡ record { kind = "confirmBridge"; request = r' })
    {x : ℤ} {acc : ℕ} {text : String} where
  pub order_adds_fee :
      r.amount ≡ some x
      → geb_ℤ x (to_wei p (Number.int e.minimum_amount) (pos 18)) ≡ true
      → client.acc ≡ none
      → p.generate_key w.trace ≡ ok acc
      → p.marshal_message (response p e x acc) ≡ ok text
      → Parses p uuid (stored e client r w text acc x)
      → All (Parses p uuid) t.requests
      → Leaves
          (handle_client_requests e client (some order ∷ some confirmation ∷ []))
          w
          Standing.listening
          (record t {
            requests =
                upsert
                  (same_uuid p uuid (stored e client r w text acc x))
                  (stored e client r w text acc x)
                  t.requests;
          })
          (trace_of_order client.sid text w.trace)
  unfolding handle_client_requests
  order_adds_fee some_amount enough no_key key encoded parses all_parse =
      let done =
        confirm_lem e (ordered e client r acc w) (answered e client r w text acc x) works uuid
          (Represents-db (answered e client r w text acc x) refl held) refl refl
          (get_elem?-append w.heap [] (with_fee p e x)) parses all_parse r' in
      record {
        after = done.after;
        runs = rw orders (
            rw (order_lem e client r w some_amount enough no_key key encoded)
              (rw confirms (rw done.runs refl)));
        represents = done.represents;
        same_trace = done.same_trace;
      }
