-- ===== src/System/Answers.antt =====
-- pkg/adapter.go: an order of a session and its answer as steps of the program, and where a session
-- has a key and an amount.
use party_bridge.Base.{
  ℕ, String, Bool, true, false, Option, none, some, [], ◌∷◌, ◌≡◌, refl, if◌then◌else◌, ◌++◌,
}
use party_bridge.Base.Int.{ℤ}
use party_bridge.Types.{BridgeRequest}
use party_bridge.Messages.{WsMessage}
use party_bridge.Platform.{Platform, Result, ok, err}
use party_bridge.Server.{ExchangeServer}
use party_bridge.Exec.{World, Pointer, WebSocketClient, Crash}
use party_bridge.Session.{
  or_exit, generate_evm_account, account_of, write_json, answer, request_bridge, leave,
}
use party_bridge.Session.Heap.{place, place_amount, read, write, read_amount, set_cell}
use party_bridge.Notify.{send_status_msg}
use party_bridge.System.{memory, Nothing}
use party_bridge.System.Follows.{
  Follows, one, IsStable, Follows-pure, Follows-die, Follows-bind, Follows-then, Follows-if,
  Follows-or_die,
}
use party_bridge.System.Returns.{
  Returns, Returns-pure, Returns-if, Returns-bind, Returns-then, Returns-bind_or_die,
}
use party_bridge.System.Calls.{follows_rules, send_status_msg-Follows}

-- A session that has a key has asked for an amount.
abbrev pub IsReady : WebSocketClient → Type 0
IsReady client =
    (acc : ℕ) → client.acc ≡ some acc → (at : Pointer) × (client.request.amount ≡ some at)

-- The session that goes on is such a session.
abbrev pub StaysReady : Option WebSocketClient → Type 0
StaysReady next = (client : WebSocketClient) → next ≡ some client → IsReady client

pub ended : StaysReady none
ended client e = absurd (cc e)

pub goes_on : {client : WebSocketClient} → IsReady client → StaysReady (some client)
goes_on {client} ready client' e = let same : client ≡ client' = cc e in rw (← same) ready

abbrev pub HasValue : Option ℤ → Type 0
HasValue a = (x : ℤ) × (a ≡ some x)

abbrev pub Always : (p : Platform) → World p → Type 0
Always p w = Unit

module _ {p : Platform} where
  pub always : IsStable (Always p)
  always w v steps h = tt

  pub place_amount-Follows : (a : Option ℤ) → Follows Nothing (Always p) (place_amount a)
  unfolding place_amount place
  place_amount-Follows none = Follows-pure none
  place_amount-Follows (some x) = record {
    at = λ w h. one (memory w.ws_clients (w.heap ++ x ∷ []));
  }

  read-Follows :
      {P : World p → Type 0} (stable : IsStable P) (at : Pointer) → Follows Nothing P (read at)
  unfolding read
  read-Follows stable at = search (follows_rules, stable) depth 8

  pub read_amount-Follows :
      {P : World p → Type 0} (stable : IsStable P) (a : Option Pointer)
      → Follows Nothing P (read_amount a)
  unfolding read_amount
  read_amount-Follows stable none = Follows-pure none
  read_amount-Follows stable (some at) =
      Follows-bind stable (read-Follows stable at) (λ x. Follows-pure (some x))

  pub read_amount-Returns :
      (a : Option Pointer) {at : Pointer} → a ≡ some at → Returns {p = p} HasValue (read_amount a)
  unfolding read_amount
  read_amount-Returns none h = absurd (cc h)
  read_amount-Returns (some at) h = Returns-bind (read at) (λ x. Returns-pure (some x) (x, refl))

  write-Follows : (at : Pointer) (x : ℤ) → Follows Nothing (Always p) (write at x)
  unfolding write
  write-Follows at x = record { at = λ w h. one (memory w.ws_clients (set_cell w.heap at x)) }

  pub write_json-Follows :
      (sid : String) (m : WsMessage) → Follows Nothing (Always p) (write_json sid m)
  unfolding write_json
  write_json-Follows sid m = search (follows_rules, always) depth 8

  or_exit-Follows : (r : Result ℕ) → Follows Nothing (Always p) (or_exit r)
  or_exit-Follows (ok key) = Follows-pure key
  or_exit-Follows (err e) = Follows-die Crash.exit

  account_of-Follows : (acc : Option ℕ) → Follows Nothing (Always p) (account_of acc)
  unfolding account_of generate_evm_account
  account_of-Follows (some acc) = Follows-pure acc
  account_of-Follows none = search (follows_rules, always, or_exit-Follows) depth 8

  pub leave-Follows : (sid : String) → Follows Nothing (Always p) (leave sid)
  unfolding leave
  leave-Follows sid = record { at = λ w h. one (memory _ w.heap) }

  module _ (e : ExchangeServer) (client : WebSocketClient) where
    answer-Follows :
        (asks : BridgeRequest Pointer) (at : Pointer) (asked : ℤ)
        → Follows Nothing (Always p) (answer e client asks at asked)
    unfolding answer
    answer-Follows asks at asked =
        search (follows_rules, always, account_of-Follows, write-Follows, write_json-Follows) depth
          8

    pub request_bridge-Follows :
        (asks : BridgeRequest Pointer) → Follows Nothing (Always p) (request_bridge e client asks)
    unfolding request_bridge
    request_bridge-Follows asks =
        Follows-bind always (Follows-or_die Crash.nil_dereference asks.amount) (λ at.
          Follows-bind always (read-Follows always at) (λ asked.
            Follows-if _
              (Follows-then always (send_status_msg-Follows always client.sid _ _)
                (Follows-pure none))
              (answer-Follows asks at asked)))

    answer-Returns :
        (asks : BridgeRequest Pointer) {place : Pointer} (at : Pointer) (asked : ℤ)
        → asks.amount ≡ some place
        → Returns {p = p} StaysReady (answer e client asks at asked)
    unfolding answer
    answer-Returns asks {place} at asked there = Returns-bind (account_of client.acc) (λ acc.
        Returns-then (write at _)
          (Returns-bind (write_json client.sid _) (λ sent. Returns-pure _ (go acc sent))))
      where
        go :
            (acc : ℕ) (sent : Bool)
            → StaysReady
                (if sent then some (record client { acc = some acc; request = asks }) else none)
        go acc true = goes_on (λ a h. (place, there))
        go acc false = ended

    pub request_bridge-Returns :
        (asks : BridgeRequest Pointer) → Returns {p = p} StaysReady (request_bridge e client asks)
    unfolding request_bridge
    request_bridge-Returns asks = Returns-bind_or_die Crash.nil_dereference asks.amount (λ at there.
        Returns-bind (read at) (λ asked.
          Returns-if _ (Returns-then (send_status_msg client.sid _ _) (Returns-pure none ended))
            (answer-Returns asks at asked there)))
