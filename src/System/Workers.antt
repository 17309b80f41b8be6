-- ===== src/System/Workers.antt =====
-- pkg/helper.go `watchAccount` and pkg/adapter.go `warrenWorker` as steps of the program for a request
-- that was issued.
use mathlib.Core.Path.{subst}
use party_bridge.Base.{String, ℕ, not, List, ◌∷◌, refl, ◌≡◌, ap, ◌∙◌}
use party_bridge.Base.Int.{ℤ}
use party_bridge.Types.{AccountWatchRequest}
use party_bridge.Platform.{Platform, Event, read_clock}
use party_bridge.Server.{ExchangeServer}
use party_bridge.Exec.{World, Outcome, ret, fail, crash, continue, pure, or_else, ◌>>=◌}
use party_bridge.Store.Requests.{update_account_watch_request_in_db}
use party_bridge.Watch.{Wake, Watching}
use party_bridge.Watch.Bsc.{Wake as BscWake}
use party_bridge.WatchAccount.{lock, begin_watch, watch_account}
use party_bridge.Warren.{warren_worker}
use party_bridge.System.{IsIssued, update, IsFor}
use party_bridge.System.Follows.{
  Follows, one, Steps-map, Follows-if, Follows-pure, Follows-bind_value,
}
use party_bridge.System.Growth.{IsIssued-IsStable}
use party_bridge.System.Calls.{follows_rules}
use party_bridge.System.Writes.{trace_same, update-Writes}
use party_bridge.System.Watches.{Issued, start_watch-Follows}

abbrev pub IsLock : ExchangeServer → AccountWatchRequest → AccountWatchRequest → Type 0
IsLock e r a = (time : ℤ) × (a ≡ lock e time r)

pub lock-IsIssued :
    {p : Platform} (e : ExchangeServer) {tr : List Event} {r : AccountWatchRequest} (time : ℤ)
    → IsIssued p tr r
    → IsIssued p tr (lock e time r)
unfolding lock
lock-IsIssued e time h = record {
  ids_drawn = h.ids_drawn;
  value = h.value;
  has_amount = h.has_amount;
  order_has_amount = h.order_has_amount;
}

-- What is asked for the locked request is asked for the request.
lock-IsFor :
    {p : Platform} (e : ExchangeServer) (time : ℤ) (r : AccountWatchRequest) (text : String)
    → IsFor p (lock e time r) text
    → IsFor p r text
unfolding lock
lock-IsFor e time r text h = record {
  body = h.body;
  encoded = h.encoded;
  same_amount = h.same_amount;
  same_address = h.same_address;
  same_session = h.same_session;
}

-- A watch of a request that was issued begins.
module _ {p : Platform} (e : ExchangeServer) (r : AccountWatchRequest) where
  update-Follows :
      (time : ℤ)
      → Follows (IsFor p r) (Issued p r) (update_account_watch_request_in_db (lock e time r))
  update-Follows time = record { at = λ w h. one (update (lock e time r) (lock-IsIssued e time h)) }

  pub begin-Follows : Follows (IsFor p r) (Issued p r) (begin_watch e r)
  unfolding begin_watch
  begin-Follows = search (follows_rules, IsIssued-IsStable r, update-Follows) depth 12

  pub begin-IsLock :
      (w : World p) (a : AccountWatchRequest)
      → Issued p r w
      → (begin_watch e r w).0 ≡ ret a
      → IsLock e r a
  unfolding begin_watch
  begin-IsLock w a h run = (p.now w.trace, go _ run)
    where
      go :
          (o : Outcome (Unit {0}) × World p)
          → (continue o.0 (λ u. pure (lock e (p.now w.trace) r)) o.1).0 ≡ ret a
          → a ≡ lock e (p.now w.trace) r
      go (ret u, v) run = cc
      go (fail error, v) run = absurd (cc)
      go (crash c, v) run = absurd (cc)

  -- whether or not the lock is stored, the watch has only read the clock
  pub begin-trace : (w : World p) → (begin_watch e r w).1.trace ≡ read_clock ∷ w.trace
  unfolding begin_watch
  begin-trace w =
      ap (λ v. v.trace)
        (go (update_account_watch_request_in_db locked w1).0
          (update_account_watch_request_in_db locked w1).1)
      ∙ trace_same (update-Writes w1 (λ a. Unit) locked (λ rs kept_rs found read looped. tt))
    where
      locked : AccountWatchRequest
      locked = lock e (p.now w.trace) r

      w1 : World p
      w1 = record w { trace = read_clock ∷ w.trace }

      go :
          (o : Outcome (Unit {0})) (v : World p)
          → ((or_else (λ w'. (o, v)) (λ error. pure tt) >>= (λ u. pure locked)) w1).1 ≡ v
      go (ret u) v = refl
      go (fail error) v = refl
      go (crash c) v = refl

-- A worker with a request that was issued.
module _ {p : Platform} (room : ℕ) (e : ExchangeServer) (wakes : List Wake)
    (bsc_wakes : List BscWake) where
  module _ (r : AccountWatchRequest) where
    pub watch_account-Follows :
        Follows (IsFor p r) (Issued p r) (watch_account room e wakes bsc_wakes r)
    unfolding watch_account
    watch_account-Follows =
        Follows-bind_value (IsIssued-IsStable r) (IsLock e r) (begin-Follows e r) (begin-IsLock e r)
          (λ a (time, locks). record {
            at = λ w h.
                Steps-map
                  (λ text asked. lock-IsFor e time r text (subst (λ b. IsFor p b text) locks asked))
                  ((start_watch-Follows room e a wakes bsc_wakes _).at w
                    (rw locks (lock-IsIssued e time h)));
          })

    pub warren_worker-Follows :
        Follows (IsFor p r) (Issued p r) (warren_worker room e wakes bsc_wakes r)
    unfolding warren_worker
    warren_worker-Follows =
        Follows-if (not r.locked) watch_account-Follows (Follows-pure Watching.returned)
