-- ===== src/Dispatch/Payout.antt =====
-- pkg/helper.go and pkg/shim.go: `Dispatch` on the routes that unwrap, where an account of the
-- bridge pays.
use party_bridge.Base.{
  ℕ, suc, ◌<◌, String, true, false, Option, none, some, List, [], ◌∷◌, ◌++◌, map, ◌≡◌, refl, sym,
  ◌∙◌, ap, ◌==◌, length, get_elem?, All, All-keep_if, All-get_elem?,
}
use party_bridge.Base.Int.{ℤ}
use party_bridge.Base.Text.{codes}
use party_bridge.Types.{AccountWatchRequestResult, BridgeStorage}
use party_bridge.Platform.{Platform, posted, ok}
use party_bridge.Server.{ExchangeServer}
use party_bridge.Exec.{World, Crash, ret, crash}
use party_bridge.Store.Accounts.{is_candidate, retrieve_bridge_account}
use party_bridge.Store.Nearest.{IsFunded, IsSorted, IsNearest}
use party_bridge.Store.Choice.{candidates, retrieve_nothing, retrieve_crashes, retrieve_candidate}
use party_bridge.Store.Balances.{IsChargeable, charged, charge-Performs}
use party_bridge.Store.Removal.{IsUnique, others}
use party_bridge.Store.Tables.{Tables, IsWorking, Represents, Performs}
use party_bridge.Shim.{
  transfer_address, transfer_url, transfer_body, settle,
  request_to_transfer_coin_on_chain_from_shim,
}
use party_bridge.Shim.Requests.{IsReady, transfer_lem}
use party_bridge.Dispatch.{is_deposit, create_bridge_request, dispatch}
use party_bridge.Dispatch.Effects.{Represents-db}
use party_bridge.Dispatch.Conclude.{Concludes, conclude-Concludes}
use party_bridge.Dispatch.Routes.{Plan, IsRoute, create-IsRoute}

-- An account with an amount, under an id as long as a UUID.
abbrev pub IsAccount : BridgeStorage → Type 0
IsAccount a = IsFunded a × (length (codes a.id) ≡ 36)

chargeable :
    (id : String) (xs : List BridgeStorage)
    → length (codes id) ≡ 36
    → All IsAccount xs
    → All (IsChargeable id) xs
chargeable id [] h hs = tt
chargeable id (a ∷ xs) h hs = ((h ∙ sym hs.0.1, hs.0.0), chargeable id xs h hs.1)

funded : (xs : List BridgeStorage) → All IsAccount xs → All IsFunded xs
funded [] h = tt
funded (a ∷ xs) h = (h.0.0, funded xs h.1)

-- A request on a route that unwraps, in a world that reads as `t`; the shim accepts what it is
-- sent.
module _ {p : Platform} (works : IsWorking p) (ready : IsReady p) (room : ℕ) (e : ExchangeServer)
    (awrr : AccountWatchRequestResult) (w : World p) (t : Tables) (held : Represents w t)
    (route : IsRoute awrr.account_watch_request.assisted_sell_order_information Plan.unwrap)
    (wrapped : is_deposit awrr ≡ false) where
  open awrr.account_watch_request use {
    amount, transaction_id, assisted_sell_order_information as info,
  }

  abbrev pub payout_url : String
  payout_url = transfer_url (transfer_address e info.bridge_to info.bridge_from)

  abbrev pub payout_text : Option BridgeStorage → String
  payout_text bs = ready.body (transfer_body awrr bs)

  -- The shim pays for this body.
  abbrev pub Accepts : String → Type 0
  Accepts text =
      (status : ℕ) × (p.post w.trace payout_url text ≡ ok status) × ((status == 500) ≡ false)

  request_lem :
      {v : ℤ} (bs : Option BridgeStorage)
      → amount ≡ some v
      → retrieve_bridge_account awrr w ≡ (ret bs, w)
      → Accepts (payout_text bs)
      → create_bridge_request (suc room) e awrr w
        ≡ settle awrr bs (record w { trace = posted payout_url (payout_text bs) ∷ w.trace })
  request_lem bs some_amount found (status, reply, good) =
      create-IsRoute (suc room) e awrr w route
      ∙ transfer_lem ready e awrr w room bs some_amount found reply good

  -- On a route that unwraps, with a payment that is not booked, the certificates and encodings
  -- there, an amount to pay, no account in store and a shim that accepts the request, `dispatch`
  -- dies on a nil pointer, after the request to pay went to the shim without a key, and with
  -- nothing else changed.
  pub payout_without_account :
      {v : ℤ}
      → amount ≡ some v
      → t.accounts ≡ []
      → Accepts (payout_text none)
      → dispatch (suc room) e awrr w ≡ (
        crash Crash.nil_dereference,
        record w { trace = posted payout_url (payout_text none) ∷ w.trace },
      )
  unfolding dispatch settle
  payout_without_account some_amount empty accepts = rw wrapped (
      rw (request_lem none some_amount (retrieve_nothing awrr held some_amount empty) accepts) refl)

  -- On a route that unwraps, with a payment that is not booked, an amount to pay, and accounts in
  -- store of which none is a candidate, `dispatch` dies on an index out of range before the shim is
  -- asked, and nothing has changed.
  pub payout_without_candidate :
      {v : ℤ}
      → amount ≡ some v
      → 0 < length t.accounts
      → candidates awrr held ≡ []
      → dispatch (suc room) e awrr w ≡ (crash Crash.out_of_range, w)
  unfolding dispatch request_to_transfer_coin_on_chain_from_shim
  payout_without_candidate some_amount ne none_fits = rw wrapped (
      rw (create-IsRoute (suc room) e awrr w route)
        (simp some_amount (rw (retrieve_crashes awrr held some_amount ne none_fits) refl)))

  module _ {v : ℤ} (some_amount : amount ≡ some v) (a : BridgeStorage)
      (accounts : All IsAccount t.accounts) where
    pay_lem :
        (v' : World p)
        → Represents v' t
        → length (codes a.id) ≡ 36
        → Performs
            (settle awrr (some a))
            v'
            (record t { accounts = map (charged a.id v) t.accounts })
    unfolding settle
    pay_lem v' r long =
        let paid = charge-Performs works r a.id v (chargeable a.id t.accounts long accounts) in
        record {
          after = paid.after;
          runs = simp some_amount (rw paid.runs refl);
          represents = paid.represents;
          same_trace = paid.same_trace;
          same_clients = paid.same_clients;
          same_heap = paid.same_heap;
        }

  -- On a route that unwraps, with a payment that is not booked (`is_deposit` is false), if Redis
  -- works and holds the tables `t` (under at most one request with the id), the certificates and
  -- encodings are there, every account in store has an amount and an id of 36 characters, some
  -- account is a candidate, the order has both its amounts, and the shim answers whatever it is
  -- sent with a status other than 500, `dispatch` returns. The one request to the shim carries the
  -- key of an account in store that is a candidate, and the nearest one in amount if the candidates
  -- are in ascending order; that account is then charged, and the request is off the table of
  -- requests; all else that was done is reports.
  pub payout_completes :
      {v s : ℤ}
      → amount ≡ some v
      → info.amount ≡ some s
      → All IsAccount t.accounts
      → 0 < length (candidates awrr held)
      → ((text : String) → Accepts text)
      → IsUnique transaction_id t.requests
      → (j : ℕ) × (a : BridgeStorage) × (get_elem? t.accounts j ≡ some a)
        × (is_candidate info a ≡ true)
        × (IsSorted (candidates awrr held) → IsNearest (candidates awrr held) s a)
        × Concludes
            (dispatch (suc room) e awrr)
            w
            (record t {
              requests = others transaction_id t.requests;
              accounts = map (charged a.id v) t.accounts;
            })
            (posted payout_url (payout_text (some a)) ∷ w.trace)
  unfolding dispatch
  payout_completes {v} some_amount target accounts ne accepts unique =
      let (j, a, run, at, fits, near) =
        retrieve_candidate awrr held some_amount target ne
          (All-keep_if IsFunded (is_candidate info) t.accounts (funded t.accounts accounts)) in
      let w1 : World p = record w { trace = posted payout_url (payout_text (some a)) ∷ w.trace } in
      let paid =
        pay_lem some_amount a accounts w1 (Represents-db w1 refl held)
          (All-get_elem? IsAccount t.accounts j a accounts at).1 in
      let done = conclude-Concludes works (suc room) e awrr paid.represents unique in
      (
        j,
        a,
        at,
        fits,
        near,
        record {
          after = done.after;
          runs = rw wrapped (
              rw (request_lem (some a) some_amount run (accepts (payout_text (some a))))
                (rw paid.runs done.runs));
          represents = done.represents;
          new = done.new;
          reports = done.reports;
          grows = done.grows ∙ ap (λ tr. done.new ++ tr) paid.same_trace;
        },
      )
