-- ===== src/Session/Sent.antt =====
-- pkg/adapter.go: from an order and its confirmation to the tick that sends its request to a worker.
use party_bridge.Base.{
  ℕ, zero, suc, String, Bool, true, none, some, List, [], ◌∷◌, map, ◌≡◌, refl, inl, inr, arith,
  get_elem?-append, upsert, any_of, length, All, Bool-cases, if◌then◌else◌,
}
use party_bridge.Base.Int.{ℤ, pos, geb_ℤ}
use party_bridge.Types.{AccountWatchRequest, BridgeRequest}
use party_bridge.Platform.{Platform, ok}
use party_bridge.Server.{ExchangeServer}
use party_bridge.Exec.{World, ret, WebSocketClient}
use party_bridge.Store.Tables.{Tables, IsWorking, Represents}
use party_bridge.Store.Refinement.{Parses, same_uuid}
use party_bridge.Units.{Number, to_wei}
use party_bridge.Session.{Standing, handle_client_requests}
use party_bridge.Session.Records.{watch_request}
use party_bridge.Session.Orders.{response, stored, order_adds_fee}
use party_bridge.Warren.{start_warren_tick}
use party_bridge.Warren.Laws.{unlocked, start_warren_tick_lem}
use party_bridge.Lifecycle.Restart.{IsIn, unlocked-IsIn}

module _ (same : AccountWatchRequest → Bool) (a : AccountWatchRequest) where
  replaced-IsIn :
      (rs : List AccountWatchRequest)
      → any_of same rs ≡ true
      → IsIn a (map (λ x. if same x then a else x) rs)
  replaced-IsIn [] h = absurd (cc h)
  replaced-IsIn (x ∷ rs) h = elim (Bool-cases (same x)) [
    | inl e ↦ (zero, rw e refl)
    | inr e ↦ let (k, found) = replaced-IsIn rs (ground (arith, h)) in (suc k, found)
  ]

  pub upsert-IsIn : (rs : List AccountWatchRequest) → IsIn a (upsert same a rs)
  upsert-IsIn rs = elim (Bool-cases (any_of same rs)) [
    | inl h ↦ rw h (replaced-IsIn rs h)
    | inr h ↦ rw h (length rs, get_elem?-append rs [] a)
  ]

module _ {p : Platform} (works : IsWorking p) (uuid : AccountWatchRequest → ℕ) (e : ExchangeServer)
    (client : WebSocketClient) {w : World p} {t : Tables} (held : Represents w t)
    {order confirmation : String} {r r' : BridgeRequest ℤ}
    (orders : p.unmarshal_request order ≡ record { kind = "requestBridge"; request = r })
    (confirms : p.unmarshal_request confirmation ≡ record { kind = "confirmBridge"; request = r' })
    {x : ℤ} {acc : ℕ} {text : String} where
  -- Under the conditions of a confirmed order (Redis works, the order is for at least the minimum,
  -- the session has no key yet, a key is generated and the answer can be encoded, and the ids of
  -- the new request and of all stored requests parse), the session goes on after the order and its
  -- confirmation, and the next tick sends the request of the order to the workers.
  pub order_is_sent :
      r.amount ≡ some x
      → geb_ℤ x (to_wei p (Number.int e.minimum_amount) (pos 18)) ≡ true
      → client.acc ≡ none
      → p.generate_key w.trace ≡ ok acc
      → p.marshal_message (response p e x acc) ≡ ok text
      → Parses p uuid (stored e client r w text acc x)
      → All (Parses p uuid) t.requests
      → (after : World p) × (sent : List AccountWatchRequest) × (handle_client_requests e client
            (some order ∷ some confirmation ∷ [])
            w
          ≡ (ret Standing.listening, after))
        × (start_warren_tick after ≡ (ret sent, after))
        × IsIn (stored e client r w text acc x) sent
  unfolding watch_request
  order_is_sent some_amount enough no_key key encoded parses all_parse =
      let done =
        order_adds_fee works uuid e client held orders confirms some_amount enough no_key key
          encoded parses all_parse in
      let request : AccountWatchRequest = stored e client r w text acc x in
      let (k, found) = upsert-IsIn (same_uuid p uuid request) request t.requests in
      (
        done.after,
        unlocked (upsert (same_uuid p uuid request) request t.requests),
        done.runs,
        start_warren_tick_lem done.represents,
        unlocked-IsIn (upsert (same_uuid p uuid request) request t.requests) k found refl,
      )
