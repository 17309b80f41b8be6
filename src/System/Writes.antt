-- ===== src/System/Writes.antt =====
-- pkg/redis.go: what each operation can leave of the world, also when Redis or JSON fail: the world
-- as it was, or one more list written under its key.
use party_bridge.Base.{
  String, Bool, Option, none, some, List, [], ◌∷◌, ◌++◌, map, ◌≡◌, refl, ap, length, inl, inr,
  if◌then◌else◌,
}
use party_bridge.Base.Int.{ℤ}
use party_bridge.Types.{AccountWatchRequest, AccountWatchRequestResult, BridgeStorage}
use party_bridge.Platform.{Platform, Codec, Result-cases, ok}
use party_bridge.Server.{ExchangeServer}
use party_bridge.Exec.{
  World, Exec, Outcome, ret, Crash, fail, crash, continue, check, or_die, ◌>>=◌,
}
use party_bridge.Store.{
  load, save, account_watch_requests, bridge_accounts, failed_account_watch_requests,
}
use party_bridge.Store.Requests.{
  replace_loop, put_request, remove_loop, unlock, update_account_watch_request_in_db,
  update_account_watch_requests_on_crash, remove_account_watch_request_from_db,
  store_failed_account_watch_request,
}
use party_bridge.Store.Accounts.{
  storage_of, replace_account, store_bridge_account, charge_loop, update_bridge_account_in_db,
}
use party_bridge.Store.Tables.{load_keeps}
use party_bridge.System.Unchanged.{replace_loop_same, charge_loop_same}

-- The world `w`, or `w` with a list of which `Q` holds written under the key.
pub data Writes {p : Platform} {A : Type 0} (c : Codec p.Text A) (key : String) (Q : A → Type 0)
    (w : World p) : World p → Type 0 where
  kept : Writes c key Q w w
  written :
      (a : A) (text : p.Text)
      → Q a
      → c.marshal a ≡ ok text
      → Writes c key Q w (record w { db = (p.redis_set key text w.db).1 })

pub trace_same :
    {p : Platform} {A : Type 0} {c : Codec p.Text A} {key : String} {Q : A → Type 0} {w v : World p}
    → Writes c key Q w v
    → v.trace ≡ w.trace
trace_same kept = refl
trace_same (written a text q e) = refl

module _ {p : Platform} where
  check_lem : (e : Option String) (w : World p) → (check e w).1 ≡ w
  check_lem none w = refl
  check_lem (some e) w = refl

  module _ {A : Type 0} (c : Codec p.Text A) (key : String) (Q : A → Type 0) (w : World p) where
    save-Writes : (a : A) → Q a → Writes c key Q w (save c key a w).1
    unfolding save
    save-Writes a q = elim (Result-cases (c.marshal a)) [
      | inl (text, e) ↦ rw e (
          rw
            (check_lem (p.redis_set key text w.db).0
              (record w { db = (p.redis_set key text w.db).1 }))
            (written a text q e))
      | inr (bad, e) ↦ rw e kept
    ]

    after :
        {B C : Type 0} (o : Outcome B) (rest : B → Exec p C)
        → ((b : B) → o ≡ ret b → Writes c key Q w (rest b w).1)
        → Writes c key Q w (continue o rest w).1
    after (ret b) rest k = k b refl
    after (fail e) rest k = kept
    after (crash d) rest k = kept

    -- a part that leaves the world as it is, and then `rest`
    reads-Writes :
        {B C : Type 0} (m : Exec p B) (rest : B → Exec p C)
        → (m w).1 ≡ w
        → ((b : B) → (m w).0 ≡ ret b → Writes c key Q w (rest b w).1)
        → Writes c key Q w ((m >>= rest) w).1
    reads-Writes m rest same k = rw same (after (m w).0 rest k)

    -- an operation that reads the list, and then goes on with `rest`
    load-Writes :
        {B : Type 0} (empty : A) (rest : A → Exec p B)
        → ((a : A) → (load c empty key w).0 ≡ ret a → Writes c key Q w (rest a w).1)
        → Writes c key Q w ((load c empty key >>= rest) w).1
    load-Writes empty rest k =
        reads-Writes (load c empty key) rest (ap (λ r. r.1) (load_keeps c empty key w)) k

  module _ (w : World p) where
    -- what the key of the requests reads as
    abbrev ReadsRequests : List AccountWatchRequest → Type 0
    ReadsRequests rs = (load p.requests_json [] account_watch_requests w).0 ≡ ret rs

    abbrev ReadsAccounts : List BridgeStorage → Type 0
    ReadsAccounts bs = (load p.accounts_json [] bridge_accounts w).0 ≡ ret bs

    module _ (Q : List AccountWatchRequest → Type 0) where
      abbrev pub WritesRequests : World p → Type 0
      WritesRequests = Writes p.requests_json account_watch_requests Q w

      pub update-Writes :
          (r : AccountWatchRequest)
          → ((rs kept_rs : List AccountWatchRequest) (found : Bool)
              → ReadsRequests rs
              → (replace_loop r rs w).0 ≡ ret (kept_rs, found)
              → Q (if found then kept_rs else kept_rs ++ r ∷ []))
          → WritesRequests (update_account_watch_request_in_db r w).1
      unfolding update_account_watch_request_in_db put_request
      update-Writes r h = load-Writes p.requests_json account_watch_requests Q w [] _ (λ rs read.
          reads-Writes p.requests_json account_watch_requests Q w (replace_loop r rs) _
            (replace_loop_same r rs w)
            (λ (kept_rs, found) looped.
              save-Writes p.requests_json account_watch_requests Q w _
                (h rs kept_rs found read looped)))

      pub remove-Writes :
          (id : String)
          → ((rs kept_rs : List AccountWatchRequest)
              → ReadsRequests rs
              → remove_loop id (length rs) 0 rs (length rs) ≡ some kept_rs
              → Q kept_rs)
          → WritesRequests (remove_account_watch_request_from_db id w).1
      unfolding remove_account_watch_request_from_db
      remove-Writes id h =
          load-Writes p.requests_json account_watch_requests Q w [] _
            (λ rs read. go rs read (remove_loop id (length rs) 0 rs (length rs)) refl)
        where
          go :
              (rs : List AccountWatchRequest)
              → ReadsRequests rs
              → (o : Option (List AccountWatchRequest))
              → remove_loop id (length rs) 0 rs (length rs) ≡ o
              → WritesRequests
                  ((or_die Crash.out_of_range o
                      >>= (λ kept_rs. save p.requests_json account_watch_requests kept_rs))
                    w).1
          go rs read none e = kept
          go rs read (some kept_rs) e =
              save-Writes p.requests_json account_watch_requests Q w kept_rs (h rs kept_rs read e)

      pub on_crash-Writes :
          (e : ExchangeServer)
          → ((rs : List AccountWatchRequest) → ReadsRequests rs → Q (map (unlock e.pod_name) rs))
          → WritesRequests (update_account_watch_requests_on_crash e w).1
      unfolding update_account_watch_requests_on_crash
      on_crash-Writes e h =
          load-Writes p.requests_json account_watch_requests Q w [] _
            (λ rs read. save-Writes p.requests_json account_watch_requests Q w _ (h rs read))

      pub store_failed-Writes :
          (r : AccountWatchRequest)
          → ((rs : List AccountWatchRequest)
              → (load p.requests_json [] failed_account_watch_requests w).0 ≡ ret rs
              → Q (rs ++ r ∷ []))
          → Writes p.requests_json failed_account_watch_requests Q w
              (store_failed_account_watch_request r w).1
      unfolding store_failed_account_watch_request
      store_failed-Writes r h =
          load-Writes p.requests_json failed_account_watch_requests Q w [] _
            (λ rs read. save-Writes p.requests_json failed_account_watch_requests Q w _ (h rs read))

    module _ (Q : List BridgeStorage → Type 0) where
      abbrev pub WritesAccounts : World p → Type 0
      WritesAccounts = Writes p.accounts_json bridge_accounts Q w

      pub store_account-Writes :
          (awrr : AccountWatchRequestResult)
          → ((bs : List BridgeStorage)
              → ReadsAccounts bs
              → let replaced = replace_account (storage_of awrr) bs in
                Q (if replaced.1 then replaced.0 else replaced.0 ++ storage_of awrr ∷ []))
          → WritesAccounts (store_bridge_account awrr w).1
      unfolding store_bridge_account
      store_account-Writes awrr h =
          load-Writes p.accounts_json bridge_accounts Q w [] _
            (λ bs read. save-Writes p.accounts_json bridge_accounts Q w _ (h bs read))

      pub charge-Writes :
          (id : String) (amount : Option ℤ)
          → ((bs charged : List BridgeStorage)
              → ReadsAccounts bs
              → (charge_loop id amount bs w).0 ≡ ret charged
              → Q charged)
          → WritesAccounts (update_bridge_account_in_db id amount w).1
      unfolding update_bridge_account_in_db
      charge-Writes id amount h = load-Writes p.accounts_json bridge_accounts Q w [] _ (λ bs read.
          reads-Writes p.accounts_json bridge_accounts Q w (charge_loop id amount bs) _
            (charge_loop_same id amount bs w)
            (λ charged looped.
              save-Writes p.accounts_json bridge_accounts Q w charged (h bs charged read looped)))
