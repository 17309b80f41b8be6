-- ===== src/System/Sound.antt =====
-- What an honest outside is and what a sound state is, also where Redis or JSON fail.
use party_bridge.Base.{ℕ, String, true, some, List, [], ◌∷◌, map, ◌≡◌, length, All, ◌⊎◌}
use party_bridge.Base.Int.{ℤ}
use party_bridge.Base.Text.{str_eq}
use party_bridge.Types.{AccountWatchRequest, BridgeStorage}
use party_bridge.Platform.{Platform, Event, ok, drew_uuid}
use party_bridge.Exec.{World, ret}
use party_bridge.Store.{
  load, account_watch_requests, bridge_accounts, failed_account_watch_requests,
}
use party_bridge.Store.Tables.{Represents}
use party_bridge.System.{IsIssued}
use party_bridge.System.Growth.{Extends, Extends-trans}
use party_bridge.System.Distinct.{IsDistinct}

-- The outside keeps its promises: a write stores the text under its key or changes nothing, JSON
-- reads what it wrote, every id that is drawn parses, and none is drawn twice in the trace.
pub record IsHonest (p : Platform) (trace : List Event) : Type 0 where
  -- the number that an id parses to, by what was done before it was drawn
  pub number : List Event → ℕ
  pub parses : (tr : List Event) → p.parse_uuid (p.new_uuid tr) ≡ ok (number tr)
  pub distinct :
      (tr tr' : List Event)
      → Extends (drew_uuid ∷ tr) trace
      → Extends (drew_uuid ∷ tr') trace
      → number tr ≡ number tr'
      → length tr ≡ length tr'
  pub set-get :
      (j k : String) (text : p.Text) (db : p.Db)
      → ((str_eq j k ≡ true) × (p.redis_get j (p.redis_set k text db).1 ≡ ok text))
        ⊎ (p.redis_get j (p.redis_set k text db).1 ≡ p.redis_get j db)
  pub requests_read :
      (rs : List AccountWatchRequest) (text : p.Text)
      → p.requests_json.marshal rs ≡ ok text
      → p.requests_json.unmarshal text ≡ ok rs
  pub accounts_read :
      (bs : List BridgeStorage) (text : p.Text)
      → p.accounts_json.marshal bs ≡ ok text
      → p.accounts_json.unmarshal text ≡ ok bs

-- An earlier trace has fewer draws.
pub IsHonest-Extends :
    {p : Platform} {old trace : List Event} → Extends old trace → IsHonest p trace → IsHonest p old
IsHonest-Extends grows honest = record {
  number = honest.number;
  parses = honest.parses;
  distinct = λ tr tr' drawn drawn'.
      honest.distinct tr tr' (Extends-trans grows drawn) (Extends-trans grows drawn');
  set-get = honest.set-get;
  requests_read = honest.requests_read;
  accounts_read = honest.accounts_read;
}

-- An account that was booked for a request that was issued.
pub record IsBooked (p : Platform) (trace : List Event) (a : BridgeStorage) : Type 0 where
  pub request : AccountWatchRequest
  pub issued : IsIssued p trace request
  pub same_id : a.id ≡ request.transaction_id
  pub balance : ℤ
  pub has_amount : a.amount ≡ some balance

module _ (p : Platform) (trace : List Event) where
  abbrev pub SoundRequests : List AccountWatchRequest → Type 0
  SoundRequests rs = All (IsIssued p trace) rs × IsDistinct (map (λ r. r.transaction_id) rs)

  abbrev pub SoundAccounts : List BridgeStorage → Type 0
  SoundAccounts bs = All (IsBooked p trace) bs × IsDistinct (map (λ a. a.id) bs)

-- Whatever the three keys read as, if they read as anything: the waiting requests were issued and
-- have different ids, the accounts were booked for issued requests and have different ids, and the
-- requests set aside were issued.
pub record IsSound {p : Platform} (w : World p) : Type 0 where
  pub requests_sound :
      (rs : List AccountWatchRequest)
      → (load p.requests_json [] account_watch_requests w).0 ≡ ret rs
      → SoundRequests p w.trace rs
  pub accounts_sound :
      (bs : List BridgeStorage)
      → (load p.accounts_json [] bridge_accounts w).0 ≡ ret bs
      → SoundAccounts p w.trace bs
  pub failed_sound :
      (rs : List AccountWatchRequest)
      → (load p.requests_json [] failed_account_watch_requests w).0 ≡ ret rs
      → All (IsIssued p w.trace) rs

-- With nothing in store, the state is sound.
pub empty-IsSound :
    {p : Platform} {w : World p}
    → Represents w (record { requests = []; accounts = []; failed = [] })
    → IsSound w
empty-IsSound {p} {w} held = record {
  requests_sound = λ rs e. let same : [] ≡ rs = cc (held.requests_held, e) in rw (← same) (tt, tt);
  accounts_sound = λ bs e. let same : [] ≡ bs = cc (held.accounts_held, e) in rw (← same) (tt, tt);
  failed_sound = λ rs e. let same : [] ≡ rs = cc (held.failed_held, e) in rw (← same) tt;
}
