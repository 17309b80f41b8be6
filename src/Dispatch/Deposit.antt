-- ===== src/Dispatch/Deposit.antt =====
-- pkg/helper.go: `Dispatch` on the routes that wrap, with the payment made and without it.
use party_bridge.Base.{
  ℕ, String, true, false, ◌∷◌, ◌++◌, ◌≡◌, refl, sym, ◌∙◌, ap, ◌==◌, upsert, All-append,
  if◌then◌else◌,
}
use mathlib.Core.List.{append_assoc}
use party_bridge.Base.Text.{str_eq}
use party_bridge.Types.{AccountWatchRequestResult}
use party_bridge.Platform.{Platform, posted, ok}
use party_bridge.Server.{ExchangeServer}
use party_bridge.Exec.{World, ret, fail}
use party_bridge.Store.Accounts.{storage_of}
use party_bridge.Store.Balances.{same_id, store_account-Performs}
use party_bridge.Store.Removal.{IsUnique, others}
use party_bridge.Store.Tables.{Tables, IsWorking, Represents}
use party_bridge.Shim.{mint_url, mint_body, mint_address}
use party_bridge.Shim.Requests.{IsReady, mint_lem}
use party_bridge.Dispatch.{create_bridge_request, conclude, dispatch, support_message}
use party_bridge.Dispatch.Effects.{
  IsReport, Represents-db, send_status_msg-Tells, bridge_requests_inc-Tells,
}
use party_bridge.Dispatch.Conclude.{Concludes, Fails, conclude-Concludes}
use party_bridge.Dispatch.Routes.{Plan, IsRoute, create-IsRoute, wrap-is_deposit}

-- A request on a route that wraps, in a world that reads as `t`, with the address of its shim.
module _ {p : Platform} (works : IsWorking p) (ready : IsReady p) (room : ℕ) (e : ExchangeServer)
    (awrr : AccountWatchRequestResult) (w : World p) (t : Tables) (held : Represents w t)
    (route : IsRoute awrr.account_watch_request.assisted_sell_order_information Plan.wrap)
    (address : String)
    (known : let info = awrr.account_watch_request.assisted_sell_order_information in
      mint_address e info.currency info.bridge_to ≡ ok address) where
  open awrr.account_watch_request use {
    transaction_id, ws_client_id, assisted_sell_order_information as info,
  }

  -- where the mint request goes, and what it says
  abbrev pub url : String
  url = mint_url address

  abbrev pub text : String
  text = ready.body (mint_body awrr)

  -- the table with the payment booked
  abbrev pub booked : Tables
  booked = record t { accounts = upsert (same_id (storage_of awrr)) (storage_of awrr) t.accounts }

  create_lem :
      (v : World p) (status : ℕ)
      → v.trace ≡ w.trace
      → p.post w.trace url text ≡ ok status
      → create_bridge_request room e awrr v ≡ (
        if status == 500 then fail "failed to mint" else ret tt,
        record v { trace = posted url text ∷ v.trace },
      )
  create_lem v status same reply =
      create-IsRoute room e awrr v route
      ∙ mint_lem ready e awrr v known (ap (λ tr. p.post tr url text) same ∙ reply)

  -- from the end of the request on, if the request went well
  finish :
      {v : World p} {t' : Tables}
      → Represents v t'
      → IsUnique transaction_id t'.requests
      → Concludes
          (conclude room e awrr)
          (record v { trace = posted url text ∷ v.trace })
          (record t' { requests = others transaction_id t'.requests })
          (posted url text ∷ v.trace)
  finish {v} r unique = conclude-Concludes works room e awrr (Represents-db _ refl r) unique

  -- On a route that wraps, if Redis works and holds the tables `t` (under at most one request with
  -- the id), the certificates and encodings are there, and the shim at the known address answers
  -- with a status other than 500, `dispatch` of a success returns. The account that was paid is
  -- then in the table of accounts, the request is off the table of requests, and what was done
  -- after the one mint request, and nothing was done before it, is reports to the client and the
  -- metrics.
  pub deposit_completes :
      {status : ℕ}
      → awrr.result ≡ "success"
      → p.post w.trace url text ≡ ok status
      → (status == 500) ≡ false
      → IsUnique transaction_id t.requests
      → Concludes
          (dispatch room e awrr)
          w
          (record booked { requests = others transaction_id t.requests })
          (posted url text ∷ w.trace)
  unfolding dispatch
  deposit_completes {status} paid reply good unique =
      let stored = store_account-Performs works held awrr in
      let done = finish stored.represents unique in
      record {
        after = done.after;
        runs = rw (wrap-is_deposit awrr route) (
            simp paid (
              rw stored.runs
                (rw (create_lem stored.after status stored.same_trace reply) (rw good done.runs))));
        represents = done.represents;
        new = done.new;
        reports = done.reports;
        grows = done.grows ∙ ap (λ tr. done.new ++ posted url text ∷ tr) stored.same_trace;
      }

  -- On a route that wraps, under the conditions of a completed deposit but with a result other than
  -- `success`, `dispatch` returns as well: no account is booked, and the same mint request was sent
  -- as for a payment, the request is off the table of requests, and all else that was done is
  -- reports.
  pub unpaid_mints :
      {status : ℕ}
      → str_eq awrr.result "success" ≡ false
      → p.post w.trace url text ≡ ok status
      → (status == 500) ≡ false
      → IsUnique transaction_id t.requests
      → Concludes
          (dispatch room e awrr)
          w
          (record t { requests = others transaction_id t.requests })
          (posted url text ∷ w.trace)
  unfolding dispatch
  unpaid_mints {status} unpaid reply good unique =
      let done = finish held unique in
      record {
        after = done.after;
        runs =
            rw (wrap-is_deposit awrr route)
              (rw unpaid (rw (create_lem w status refl reply) (rw good done.runs)));
        represents = done.represents;
        new = done.new;
        reports = done.reports;
        grows = done.grows;
      }

  -- On a route that wraps, under the same conditions but with a shim that answers 500, `dispatch`
  -- of a success returns the error `failed to mint`; the account that was paid is in the table of
  -- accounts, the other tables are as they were, and after the mint request only reports were made.
  pub deposit_refused :
      {status : ℕ}
      → awrr.result ≡ "success"
      → p.post w.trace url text ≡ ok status
      → (status == 500) ≡ true
      → Fails "failed to mint" (dispatch room e awrr) w booked (posted url text ∷ w.trace)
  unfolding dispatch
  deposit_refused {status} paid reply bad =
      let stored = store_account-Performs works held awrr in
      let w1 : World p = record stored.after { trace = posted url text ∷ stored.after.trace } in
      let counted = bridge_requests_inc-Tells "failed" awrr w1 in
      let w2 : World p = record w1 { trace = counted.new ++ w1.trace } in
      let told = send_status_msg-Tells ws_client_id "error" (support_message awrr) w2 in
      record {
        after = record w2 { trace = told.new ++ w2.trace };
        runs = rw (wrap-is_deposit awrr route) (
            simp paid (
              rw stored.runs (
                rw (create_lem stored.after status stored.same_trace reply)
                  (rw bad (rw counted.runs (rw told.runs refl))))));
        represents = Represents-db _ refl stored.represents;
        new = told.new ++ counted.new;
        reports = All-append IsReport told.new counted.new told.reports counted.reports;
        grows =
            sym (append_assoc told.new counted.new (posted url text ∷ stored.after.trace))
            ∙ ap (λ tr. (told.new ++ counted.new) ++ posted url text ∷ tr) stored.same_trace;
      }
