-- ===== src/System/Orders.antt =====
-- pkg/adapter.go and what it calls: an order in a sound state.
use party_bridge.Base.{
  ℕ, ◌<◌, ◌==◌, String, true, false, none, some, List, [], ◌∷◌, ◌++◌, ◌≡◌, refl, ◌∙◌, arith, All,
  any_of, upsert,
}
use party_bridge.Base.Int.{ℤ, pos, geb_ℤ}
use party_bridge.Base.Text.{str_eq}
use party_bridge.Types.{AccountWatchRequest, BridgeStorage, BridgeRequest}
use party_bridge.Platform.{Platform, Event, wrote, generated_key, read_clock, drew_uuid, ok}
use party_bridge.Server.{ExchangeServer}
use party_bridge.Exec.{World, WebSocketClient}
use party_bridge.Store.Balances.{same_id}
use party_bridge.Store.Refinement.{same_uuid}
use party_bridge.Store.Removal.{IsOther}
use party_bridge.Store.Tables.{Tables, IsWorking, Represents}
use party_bridge.Shim.{mint_address, mint_url}
use party_bridge.Shim.Requests.{IsReady}
use party_bridge.Units.{Number, to_wei}
use party_bridge.Watch.{Wake}
use party_bridge.Watch.Bsc.{Wake as BscWake}
use party_bridge.Watch.Laws.{asked, Answers}
use party_bridge.WatchAccount.Begin.{IsCoins}
use party_bridge.Session.Records.{watch_request}
use party_bridge.Session.Orders.{response, with_fee, stored, trace_of_order}
use party_bridge.Session.Complete.{looked, verified, request_text, booked, Serves, order-Serves}
use party_bridge.System.{IsIssued}
use party_bridge.System.Growth.{Extends, IsIssued-Extends}
use party_bridge.System.Workers.{lock-IsIssued}
use party_bridge.System.Sound.{IsHonest, IsBooked, IsSound}
use party_bridge.System.Ids.{uuid_of, issued-Parses, All-Parses, same_uuid_lem, later-IsNot}

module _ {p : Platform} (e : ExchangeServer) (client : WebSocketClient) (r : BridgeRequest ℤ)
    (w : World p) (text : String) (acc : ℕ) (x : ℤ) where
  abbrev after_order : List Event
  after_order = trace_of_order client.sid text w.trace

  grows : Extends w.trace after_order
  grows = (
    read_clock ∷ read_clock ∷ drew_uuid ∷ drew_uuid ∷ wrote client.sid text ∷ generated_key ∷ [],
    refl,
  )

  -- The order of the session is an issued request.
  stored-IsIssued : IsIssued p after_order (stored e client r w text acc x)
  unfolding watch_request
  stored-IsIssued = record {
    ids_drawn = record {
      newer = read_clock ∷ read_clock ∷ [];
      older = wrote client.sid text ∷ generated_key ∷ w.trace;
      drawn = refl;
      id_drawn = refl;
      awrid_drawn = refl;
    };
    value = with_fee p e x;
    has_amount = refl;
    order_has_amount = refl;
  }

  module _ (honest : IsHonest p after_order) where
    All-issued :
        (rs : List AccountWatchRequest)
        → All (IsIssued p w.trace) rs
        → All (IsIssued p after_order) rs
    All-issued [] h = tt
    All-issued (y ∷ rs) h = (IsIssued-Extends grows h.0, All-issued rs h.1)

    abbrev new_id : String
    new_id = (stored e client r w text acc x).transaction_id

    is_new :
        (y : AccountWatchRequest) → IsIssued p w.trace y → str_eq y.transaction_id new_id ≡ false
    unfolding watch_request
    is_new y h =
        later-IsNot honest grows (read_clock ∷ read_clock ∷ drew_uuid ∷ [], refl) refl (omega arith)
          y h

    All-others :
        (rs : List AccountWatchRequest) → All (IsIssued p w.trace) rs → All (IsOther new_id) rs
    All-others [] h = tt
    All-others (y ∷ rs) h = (is_new y h.0, All-others rs h.1)

    none_same :
        (rs : List AccountWatchRequest)
        → All (IsIssued p w.trace) rs
        → any_of (same_uuid p (uuid_of p) (stored e client r w text acc x)) rs ≡ false
    none_same [] h = refl
    none_same (y ∷ rs) h =
        rw
          (same_uuid_lem honest (stored e client r w text acc x) y stored-IsIssued
              (IsIssued-Extends grows h.0)
            ∙ is_new y h.0)
          (none_same rs h.1)

    none_booked :
        (xs : List BridgeStorage)
        → All (IsBooked p w.trace) xs
        → any_of (λ a. str_eq a.id new_id) xs ≡ false
    none_booked [] h = refl
    none_booked (a ∷ xs) h =
        rw h.0.same_id (rw (is_new h.0.request h.0.issued) (none_booked xs h.1))

module _ {p : Platform} (works : IsWorking p) (ready : IsReady p) (room : ℕ) (e : ExchangeServer)
    (client : WebSocketClient) {w : World p} {t : Tables} (held : Represents w t)
    {order confirmation : String} {r r' : BridgeRequest ℤ}
    (orders : p.unmarshal_request order ≡ record { kind = "requestBridge"; request = r })
    (confirms : p.unmarshal_request confirmation ≡ record { kind = "confirmBridge"; request = r' })
    (text : String) (acc : ℕ) (x : ℤ) where
  abbrev pub sound_looked : String → ℕ → World p
  sound_looked = looked works ready (uuid_of p) room e client held orders confirms text acc x

  abbrev pub sound_verified : String → String → ℕ → World p
  sound_verified = verified works ready (uuid_of p) room e client held orders confirms text acc x

  abbrev pub ServesAnew : String → String → String → ℕ → List Wake → List BscWake → Type 0
  ServesAnew address node second n rest bsc_wakes =
      Serves works ready (uuid_of p) room e client held orders confirms text acc x address node
        second n rest bsc_wakes
      × (let account =
            booked works ready (uuid_of p) room e client held orders confirms text acc x in
          upsert (same_id account) account t.accounts ≡ t.accounts ++ account ∷ [])

  -- From the client to the end of its order, in any sound state. If Redis works and holds the
  -- tables `t`; the state is sound (as for steps of the program), and the outside is honest up to
  -- the confirmation (JSON reads what it wrote, the ids that are drawn parse, and none is drawn
  -- twice); the certificates and encodings are there; the session has no key yet, one is generated
  -- and the answer can be encoded; the order is for `x` of at least the minimum, for a chain's own
  -- coins to the other chain; the watch is on and both clients of the chain are there; the first
  -- client's answers to `n` looks are below `x` plus the fee, and then both clients tell at least
  -- that; and the shim at the known address answers the mint request with a status other than 500;
  -- then, after the order and its confirmation, the session goes on, the next tick sends the
  -- request to the workers, and the worker that receives it returns. The generated key is then
  -- booked as one more account with `x` plus the fee, the request is off the table of requests, and
  -- the other tables are as they were; what the worker did is to read the clock, to ask the two
  -- clients, to send one request to mint `x` plus the fee for the address of the order, and
  -- reports.
  pub sound_order-Serves :
      {status : ℕ} (address node second : String) (n : ℕ) (rest : List Wake)
      (bsc_wakes : List BscWake)
      → IsSound w
      → IsHonest p (trace_of_order client.sid text w.trace)
      → r.amount ≡ some x
      → geb_ℤ x (to_wei p (Number.int e.minimum_amount) (pos 18)) ≡ true
      → client.acc ≡ none
      → p.generate_key w.trace ≡ ok acc
      → p.marshal_message (response p e x acc) ≡ ok text
      → e.watch ≡ true
      → IsCoins e node second r.from_chain
          (stored e client r w text acc x).assisted_sell_order_information
      → mint_address e r.currency r.bridge_to ≡ ok address
      → ((k : ℕ)
          → k < n
          → Answers (p.address_of acc) node (with_fee p e x) false (sound_looked node k))
      → Answers (p.address_of acc) node (with_fee p e x) true (sound_looked node n)
      → Answers
          (p.address_of acc)
          second
          (with_fee p e x)
          true
          (asked (p.address_of acc) node (sound_looked node n))
      → p.post
          (sound_verified node second n).trace
          (mint_url address)
          (request_text works ready (uuid_of p) room e client held orders confirms text acc x)
        ≡ ok status
      → (status == 500) ≡ false
      → ServesAnew address node second n rest bsc_wakes
  unfolding watch_request
  sound_order-Serves address node second n rest bsc_wakes sound honest some_amount enough no_key key
        encoded watches coins known low paid still reply good =
      let (issued, distinct) = sound.requests_sound t.requests held.requests_held in
      let (books, apart) = sound.accounts_sound t.accounts held.accounts_held in
      let ordered = stored-IsIssued e client r w text acc x in
      (
        order-Serves works ready (uuid_of p) room e client held orders confirms text acc x address
            node second n rest bsc_wakes some_amount enough no_key key encoded
            (issued-Parses honest (stored e client r w text acc x) ordered)
            (issued-Parses honest _ (lock-IsIssued e _ ordered))
            (All-Parses honest t.requests
              (All-issued e client r w text acc x honest t.requests issued))
            (none_same e client r w text acc x honest t.requests issued)
            (All-others e client r w text acc x honest t.requests issued) watches coins known low
            paid still reply good,
        rw (none_booked e client r w text acc x honest t.accounts books) refl,
      )
