-- ===== src/Watch/Laws.antt =====
-- pkg/evm.go `waitAndVerifyEVMChain`: what the watch does after any number of looks at a balance
-- that is too low.
use party_bridge.Base.{
  ℕ, ◌<◌, String, Bool, true, false, Option, some, List, [], ◌∷◌, ◌≡◌, refl, ◌∙◌, if◌then◌else◌,
}
use party_bridge.Base.Int.{ℤ, geb_ℤ}
use party_bridge.Types.{AccountWatchRequest}
use party_bridge.Platform.{Platform, ok, asked_balance}
use party_bridge.Server.{ExchangeServer}
use party_bridge.Exec.{World, Exec, Outcome, ret, pure, ◌>>◌}
use party_bridge.Watch.Rounds.{ticks, times, watch_loop-ticks}
use party_bridge.Watch.{
  Wake, Watching, Verdict, query_balance, look, watch_loop, dispatch_or_park, dispatch_logged,
  wait_and_verify_evm_chain,
}

module _ {p : Platform} (account : String) where
  -- the world after a client was asked once more
  abbrev pub asked : String → World p → World p
  asked client w = record w { trace = asked_balance client account ∷ w.trace }

  abbrev pub asked_times : String → ℕ → World p → World p
  asked_times client = times (asked client)

  -- The client would answer with a balance for which the test against `v` has this result.
  abbrev pub Answers : String → ℤ → Bool → World p → Type 0
  Answers client v enough w =
      (b : ℤ) × (p.balance_at w.trace client account ≡ ok b) × (geb_ℤ b v ≡ enough)

  module _ (client : String) (second : Option String) (v : ℤ) where
    abbrev see : Exec p Verdict
    see = look (query_balance (some client) account) (query_balance second account) (some v)

    look_low :
        (w : World p) → Answers client v false w → see w ≡ (ret Verdict.again, asked client w)
    unfolding look query_balance
    look_low w (b, reply, low) = rw reply (rw low refl)

  module _ (client second : String) (v : ℤ) (w : World p) where
    look_verified :
        (ok_now : Bool)
        → Answers client v true w
        → Answers second v ok_now (asked client w)
        → see client (some second) v w
          ≡ (ret (if ok_now then Verdict.paid else Verdict.stop), asked second (asked client w))
    unfolding look query_balance
    look_verified ok_now (b, reply, enough) (b', reply', now) =
        rw reply (rw enough (rw reply' (rw now refl)))

-- A watch with both clients on a request that asks for `v`, whose first `n` looks are too low.
module _ {p : Platform} (room : ℕ) (e : ExchangeServer) (client second : String)
    (request : AccountWatchRequest) {v : ℤ} (watches : e.watch ≡ true)
    (some_amount : request.amount ≡ some v) (n : ℕ) (w : World p)
    (low : (k : ℕ)
      → k < n
      → Answers request.account client v false (asked_times request.account client k w)) where
  abbrev watch : List Wake → World p → Outcome Watching × World p
  watch = wait_and_verify_evm_chain room e (some client) (some second) request

  -- the world after the looks
  abbrev looked : World p
  looked = asked_times request.account client n w

  begin :
      (rest : List Wake)
      → watch (ticks n rest) w
        ≡ watch_loop
            (see request.account client (some second) v)
            (dispatch_or_park room e request "success")
            (dispatch_logged room e request "error")
            rest
            looked
  unfolding wait_and_verify_evm_chain
  begin rest =
      simp (watches, some_amount)
        (watch_loop-ticks (see request.account client (some second) v)
          (asked request.account client) (dispatch_or_park room e request "success")
          (dispatch_logged room e request "error") n rest w
          (λ k h. look_low request.account client (some second) v _ (low k h)))

  -- If the watch on a chain's own coins is on, the request asks for `v`, and the first client's
  -- answers to `n` looks are below `v`, then after `n` ticks the watch is still waiting, and all
  -- that was done is to ask the first client `n` times.
  pub unpaid_waits : watch (ticks n []) w ≡ (ret Watching.waiting, looked)
  unfolding watch_loop
  unpaid_waits = begin []

  -- If the watch on a chain's own coins is on, the request asks for `v`, the first client's answers
  -- to `n` looks are below `v`, and then both clients tell at least `v`, the watch does what the
  -- dispatch of a success does after those questions, and returns.
  pub verified_pays :
      (rest : List Wake)
      → Answers request.account client v true looked
      → Answers request.account second v true (asked request.account client looked)
      → watch (ticks n (Wake.tick ∷ rest)) w
        ≡ (dispatch_or_park room e request "success" >> pure Watching.returned)
            (asked request.account second (asked request.account client looked))
  unfolding watch_loop
  verified_pays rest enough verified =
      begin (Wake.tick ∷ rest)
      ∙ rw (look_verified request.account client second v looked true enough verified) refl

  -- If, after `n` looks that are too low, the first client tells at least `v` and the second less
  -- than `v`, the watch on a chain's own coins returns, and all that was done is to ask: nothing is
  -- dispatched and the client is not told.
  pub unverified_gives_up :
      (rest : List Wake)
      → Answers request.account client v true looked
      → Answers request.account second v false (asked request.account client looked)
      → watch (ticks n (Wake.tick ∷ rest)) w ≡ (
        ret Watching.returned,
        asked request.account second (asked request.account client looked),
      )
  unfolding watch_loop
  unverified_gives_up rest enough verified =
      begin (Wake.tick ∷ rest)
      ∙ rw (look_verified request.account client second v looked false enough verified) refl

  -- If the timer fires after `n` looks that are too low, the watch on a chain's own coins does what
  -- the dispatch of the result `error` does, its error only logged, and returns.
  pub timeout_dispatches :
      (rest : List Wake)
      → watch (ticks n (Wake.timeout ∷ rest)) w
        ≡ (dispatch_logged room e request "error" >> pure Watching.returned) looked
  unfolding watch_loop
  timeout_dispatches rest = begin (Wake.timeout ∷ rest)
