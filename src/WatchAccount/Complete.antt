-- ===== src/WatchAccount/Complete.antt =====
-- pkg/helper.go `watchAccount` and all that follows it, for a request whose coins arrive.
use mathlib.Core.Path.{subst}
use party_bridge.Base.{
  ℕ, ◌<◌, String, true, false, some, List, [], ◌∷◌, ◌++◌, ◌≡◌, ◌∙◌, ap, ◌==◌, All, any_of, upsert,
}
use party_bridge.Base.Int.{ℤ}
use party_bridge.Types.{AccountWatchRequest}
use party_bridge.Platform.{Platform, posted, asked_balance, read_clock, ok}
use party_bridge.Server.{ExchangeServer}
use party_bridge.Exec.{World}
use party_bridge.Store.Accounts.{storage_of}
use party_bridge.Store.Balances.{same_id}
use party_bridge.Store.Refinement.{Parses, same_uuid}
use party_bridge.Store.Removal.{IsOther}
use party_bridge.Store.Sequences.{append-IsUnique, others-append}
use party_bridge.Store.Tables.{Tables, IsWorking, Represents}
use party_bridge.Shim.{mint_address, mint_url, mint_body}
use party_bridge.Shim.Requests.{IsReady}
use party_bridge.Watch.{Wake, outcome_of}
use party_bridge.Watch.Bsc.{Wake as BscWake}
use party_bridge.Watch.Complete.{Completes, paid_order-Completes}
use party_bridge.Watch.Laws.{asked, asked_times, Answers}
use party_bridge.Watch.Rounds.{ticks}
use party_bridge.WatchAccount.{lock, watch_account}
use party_bridge.WatchAccount.Begin.{
  IsCoins, start_watch-IsCoins, IsCoins-wrap, Begins, begin_watch-Begins, asked_times-trace,
  Answers-trace,
}

module _ {p : Platform} (works : IsWorking p) (ready : IsReady p) (uuid : AccountWatchRequest → ℕ)
    (room : ℕ) (e : ExchangeServer) (client second : String) (awr : AccountWatchRequest) {v : ℤ}
    (watches : e.watch ≡ true) (some_amount : awr.amount ≡ some v)
    (coins : IsCoins e client second awr.chain awr.assisted_sell_order_information)
    (address : String)
    (known : let info = awr.assisted_sell_order_information in
      mint_address e info.currency info.bridge_to ≡ ok address)
    (n : ℕ) (w : World p) (t : Tables)
    (held : Represents w (record t { requests = t.requests ++ awr ∷ [] })) (base : World p)
    (base_trace : w.trace ≡ base.trace) where
  -- the worlds after the low looks, and after the two that found enough, up to the store
  abbrev pub looked : ℕ → World p
  looked k = asked_times awr.account client k (record base { trace = read_clock ∷ base.trace })

  abbrev pub verified : World p
  verified = asked awr.account second (asked awr.account client (looked n))

  abbrev pub request_text : String
  request_text = ready.body (mint_body (outcome_of awr "success"))

  -- The whole watch.
  pub watched_coins-Completes :
      {status : ℕ} (rest : List Wake) (bsc_wakes : List BscWake)
      → Parses p uuid awr
      → Parses p uuid (lock e (p.now base.trace) awr)
      → All (Parses p uuid) t.requests
      → any_of (same_uuid p uuid awr) t.requests ≡ false
      → All (IsOther awr.transaction_id) t.requests
      → ((k : ℕ) → k < n → Answers awr.account client v false (looked k))
      → Answers awr.account client v true (looked n)
      → Answers awr.account second v true (asked awr.account client (looked n))
      → p.post verified.trace (mint_url address) request_text ≡ ok status
      → (status == 500) ≡ false
      → Completes
          (watch_account room e (ticks n (Wake.tick ∷ rest)) bsc_wakes awr)
          w
          (record t {
            accounts =
                upsert
                  (same_id (storage_of (outcome_of awr "success")))
                  (storage_of (outcome_of awr "success"))
                  t.accounts;
          })
          (posted (mint_url address) request_text ∷ verified.trace)
  unfolding watch_account lock mint_body storage_of
  watched_coins-Completes rest bsc_wakes parses parses_locked all_parse new others_there low enough
        still reply good =
      let locked : AccountWatchRequest = lock e (p.now base.trace) awr in
      let begun : Begins works uuid e awr t held base base_trace =
        begin_watch-Begins works uuid e awr t held base base_trace parses parses_locked all_parse
          new in
      let traces : (k : ℕ)
          → (asked_times awr.account client k begun.after).trace ≡ (looked k).trace =
        λ k.
          asked_times-trace awr.account client k begun.after
            (record base { trace = read_clock ∷ base.trace }) begun.same_trace in
      let asked_both : asked_balance second awr.account
            ∷ asked_balance client awr.account
            ∷ (asked_times awr.account client n begun.after).trace
          ≡ verified.trace =
        ap (λ tr. asked_balance second awr.account ∷ asked_balance client awr.account ∷ tr)
          (traces n) in
      let done =
        paid_order-Completes works ready room e client second locked watches some_amount n
          begun.after (record t { requests = t.requests ++ locked ∷ [] }) begun.represents
          (IsCoins-wrap coins) address known rest
          (λ k h.
            Answers-trace {p = p} awr.account client v false
              (asked_times awr.account client k begun.after) (looked k) (traces k) (low k h))
          (Answers-trace {p = p} awr.account client v true
            (asked_times awr.account client n begun.after) (looked n) (traces n) enough)
          (Answers-trace {p = p} awr.account second v true
            (asked awr.account client (asked_times awr.account client n begun.after))
            (asked awr.account client (looked n))
            (ap (λ tr. asked_balance client awr.account ∷ tr) (traces n)) still)
          (ap (λ tr. p.post tr (mint_url address) request_text) asked_both ∙ reply) good
          (append-IsUnique locked t.requests others_there) in
      record {
        after = done.after;
        runs = rw begun.runs (
            rw (start_watch-IsCoins room e (ticks n (Wake.tick ∷ rest)) bsc_wakes locked coins)
              done.runs);
        represents =
            subst
              (λ l. Represents done.after (record t {
                requests = l;
                accounts =
                    upsert (same_id (storage_of (outcome_of awr "success")))
                      (storage_of (outcome_of awr "success")) t.accounts;
              }))
              (others-append locked t.requests others_there) done.represents;
        new = done.new;
        reports = done.reports;
        grows =
            done.grows
            ∙ ap (λ tr. done.new ++ posted (mint_url address) request_text ∷ tr) asked_both;
      }
