-- ===== src/Watch/Tokens.antt =====
-- pkg/evm.go: the four watches on wrapped tokens, as one family.
use party_bridge.Base.{ℕ, ◌<◌, String, Bool, true, false, Option, some, List, ◌∷◌, ◌≡◌, refl, ◌∙◌}
use party_bridge.Base.Int.{ℤ, geb_ℤ}
use party_bridge.Types.{AccountWatchRequest}
use party_bridge.Platform.{Platform, ok, asked_token}
use party_bridge.Server.{ExchangeServer}
use party_bridge.Exec.{World, Exec, ret, pure, ◌>>◌}
use party_bridge.Watch.{
  Wake, Watching, Verdict, query_token, look, watch_loop, dispatch_logged, watch_token,
  query_wgrams_on_octa_space, query_wocta_on_party_chain, query_wbscusdt_on_octa_space,
  query_wbscusdt_on_party_chain, wait_and_verify_wgrams_on_octa_space,
  wait_and_verify_wocta_on_party_chain, wait_and_verify_wbscusdt_on_octa_space,
  wait_and_verify_wbscusdt_on_party_chain,
}
use party_bridge.Watch.Rounds.{ticks, times, watch_loop-ticks}

pub data Token : Type 0 where
  wgrams_on_octa wocta_on_party wbscusdt_on_octa wbscusdt_on_party : Token

-- the contract of the token
abbrev pub contract_of : ExchangeServer → Token → String
contract_of e Token.wgrams_on_octa = e.w_grams_on_octa_contract_address
contract_of e Token.wocta_on_party = e.w_octa_on_party_chain_contract_address
contract_of e Token.wbscusdt_on_octa = e.w_bscusdt_on_octa_space_contract_address
contract_of e Token.wbscusdt_on_party = e.w_bscusdt_on_party_chain_contract_address

module _ {p : Platform} (room : ℕ) (e : ExchangeServer) where
  -- the watch on the token
  abbrev pub watch_of :
      Token → Option String → Option String → AccountWatchRequest → List Wake → Exec p Watching
  watch_of Token.wgrams_on_octa = wait_and_verify_wgrams_on_octa_space room e
  watch_of Token.wocta_on_party = wait_and_verify_wocta_on_party_chain room e
  watch_of Token.wbscusdt_on_octa = wait_and_verify_wbscusdt_on_octa_space room e
  watch_of Token.wbscusdt_on_party = wait_and_verify_wbscusdt_on_party_chain room e

  watch_of-watch_token :
      (token : Token) (client client2 : Option String) (request : AccountWatchRequest)
      (wakes : List Wake)
      → watch_of token client client2 request wakes
        ≡ watch_token room e
            (query_token (contract_of e token) request.account)
            client
            request
            wakes
  unfolding wait_and_verify_wgrams_on_octa_space wait_and_verify_wocta_on_party_chain
      wait_and_verify_wbscusdt_on_octa_space wait_and_verify_wbscusdt_on_party_chain
      query_wgrams_on_octa_space query_wocta_on_party_chain query_wbscusdt_on_octa_space
      query_wbscusdt_on_party_chain
  watch_of-watch_token Token.wgrams_on_octa client client2 request wakes = refl
  watch_of-watch_token Token.wocta_on_party client client2 request wakes = refl
  watch_of-watch_token Token.wbscusdt_on_octa client client2 request wakes = refl
  watch_of-watch_token Token.wbscusdt_on_party client client2 request wakes = refl

module _ {p : Platform} (contract account client : String) where
  -- the world after the contract was asked once more
  abbrev pub asked_contract : World p → World p
  asked_contract w = record w { trace = asked_token client contract account ∷ w.trace }

  -- The contract would tell a balance for which the test against `v` has this result.
  abbrev pub IsTold : ℤ → Bool → World p → Type 0
  IsTold v enough w =
      (b : ℤ) × (p.balance_of w.trace client contract account ≡ ok b) × (geb_ℤ b v ≡ enough)

  module _ (v : ℤ) where
    abbrev pub see : Exec p Verdict
    see =
        look (query_token contract account (some client))
          (query_token contract account (some client)) (some v)

    see_low : (w : World p) → IsTold v false w → see w ≡ (ret Verdict.again, asked_contract w)
    unfolding look query_token
    see_low w (b, reply, low) = rw reply (rw low refl)

    see_twice :
        (w : World p)
        → IsTold v true w
        → IsTold v true (asked_contract w)
        → see w ≡ (ret Verdict.paid, asked_contract (asked_contract w))
    unfolding look query_token
    see_twice w (b, reply, enough) (b', reply', still) =
        rw reply (rw enough (rw reply' (rw still refl)))

module _ {p : Platform} (room : ℕ) (e : ExchangeServer) (token : Token) (client : String)
    (client2 : Option String) (request : AccountWatchRequest) {v : ℤ} (watches : e.watch ≡ true)
    (some_amount : request.amount ≡ some v) (n : ℕ) (w : World p) where
  -- the world after the client was asked `k` times
  abbrev pub looked : ℕ → World p
  looked k = times (asked_contract (contract_of e token) request.account client) k w

  abbrev pub Answers : Bool → World p → Type 0
  Answers = IsTold (contract_of e token) request.account client v

  begin :
      (rest : List Wake)
      → ((k : ℕ) → k < n → Answers false (looked k))
      → watch_of room e token (some client) client2 request (ticks n rest) w
        ≡ watch_loop
            (see (contract_of e token) request.account client v)
            (dispatch_logged room e request "success")
            (dispatch_logged room e request "error")
            rest
            (looked n)
  unfolding watch_token
  begin rest low =
      rw (watch_of-watch_token room e token (some client) client2 request (ticks n rest)) (
        simp (watches, some_amount)
          (watch_loop-ticks (see (contract_of e token) request.account client v)
            (asked_contract (contract_of e token) request.account client)
            (dispatch_logged room e request "success") (dispatch_logged room e request "error") n
            rest w
            (λ k h. see_low (contract_of e token) request.account client v (looked k) (low k h))))

  -- For each of the four watches on tokens: if the watch is on, the request asks for `v`, the
  -- contract's answers to `n` looks are below `v`, and then two answers in a row are at least `v`,
  -- the watch does what the dispatch of a success does after those questions, its error only
  -- logged, and returns. Both answers come from the first client; the second one is never asked.
  pub token_pays :
      (rest : List Wake)
      → ((k : ℕ) → k < n → Answers false (looked k))
      → Answers true (looked n)
      → Answers true (asked_contract (contract_of e token) request.account client (looked n))
      → watch_of room e token (some client) client2 request (ticks n (Wake.tick ∷ rest)) w
        ≡ (dispatch_logged room e request "success" >> pure Watching.returned) (
            asked_contract
              (contract_of e token)
              request.account
              client
              (asked_contract (contract_of e token) request.account client (looked n)))
  unfolding watch_loop
  token_pays rest low enough still =
      begin (Wake.tick ∷ rest) low
      ∙ rw (see_twice (contract_of e token) request.account client v (looked n) enough still) refl
