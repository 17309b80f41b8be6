-- ===== src/System/Lists.antt =====
-- What the operations on the lists make of sound lists.
use mathlib.Core.Path.{subst}
use party_bridge.Base.{
  String, Bool, true, false, not, Option, some, List, [], ◌∷◌, ◌++◌, map, ◌≡◌, refl, sym, ap,
  length, All, All-keep_if, Bool-cases, inl, inr, any_of, replace_all, upsert, upsert_of_loop,
  if◌then◌else◌,
}
use party_bridge.Base.Int.{ℤ}
use party_bridge.Base.Text.{str_eq}
use party_bridge.Types.{AccountWatchRequest, AccountWatchRequestResult, BridgeStorage}
use party_bridge.Platform.{Platform, Event}
use party_bridge.Exec.{World, ret}
use party_bridge.Store.Requests.{unlock, replace_loop, remove_loop}
use party_bridge.Store.Accounts.{storage_of, replace_account, charge_loop}
use party_bridge.Store.Removal.{others, remove_loop-eq-others}
use party_bridge.Store.Refinement.{replace_loop_lem, same_uuid}
use party_bridge.Store.Balances.{same_id, replace_account_lem}
use party_bridge.System.{IsIssued}
use party_bridge.System.Distinct.{
  IsDistinct, IsDistinct-IsUnique, upsert-IsDistinct, keep_if-IsDistinct, upsert-cong, upsert-All,
}
use party_bridge.System.Sound.{IsHonest, IsBooked, SoundRequests, SoundAccounts}
use party_bridge.System.Ids.{uuid_of, issued-Parses, All-Parses, same_uuid_lem}
use party_bridge.System.Charged.{charge_loop-Returns}

abbrev request_id : AccountWatchRequest → String
request_id r = r.transaction_id

unlock-request_id :
    (pod : String) (r : AccountWatchRequest) → request_id (unlock pod r) ≡ request_id r
unfolding unlock
unlock-request_id pod r = elim (Bool-cases (str_eq r.locked_by pod)) [
  | inl e ↦ rw e refl
  | inr e ↦ rw e refl
]

same_ids :
    (pod : String) (rs : List AccountWatchRequest)
    → map request_id (map (unlock pod) rs) ≡ map request_id rs
same_ids pod [] = refl
same_ids pod (r ∷ rs) = rw (unlock-request_id pod r) (rw (same_ids pod rs) refl)

module _ {p : Platform} {tr : List Event} (honest : IsHonest p tr) where
  pub put-Sound :
      (r : AccountWatchRequest) (rs : List AccountWatchRequest)
      → IsIssued p tr r
      → SoundRequests p tr rs
      → SoundRequests p tr (upsert (same_uuid p (uuid_of p) r) r rs)
  put-Sound r rs hr h =
      subst (SoundRequests p tr)
        (sym (
          upsert-cong r (same_uuid p (uuid_of p) r) (λ x. str_eq (request_id x) (request_id r)) rs
            (same_ids rs h.0)))
        (
          upsert-All r (IsIssued p tr) (λ x. str_eq (request_id x) (request_id r)) rs hr h.0,
          upsert-IsDistinct request_id r rs h.1,
        )
    where
      same_ids :
          (xs : List AccountWatchRequest)
          → All (IsIssued p tr) xs
          → All (λ x. same_uuid p (uuid_of p) r x ≡ str_eq (request_id x) (request_id r)) xs
      same_ids [] hs = tt
      same_ids (x ∷ xs) hs = (same_uuid_lem honest r x hr hs.0, same_ids xs hs.1)

  pub others-Sound :
      (id : String) (rs : List AccountWatchRequest)
      → SoundRequests p tr rs
      → SoundRequests p tr (others id rs)
  others-Sound id rs h = (
    All-keep_if (IsIssued p tr) (λ r. not (str_eq r.transaction_id id)) rs h.0,
    keep_if-IsDistinct request_id (λ r. not (str_eq r.transaction_id id)) rs h.1,
  )

  unlocked :
      (pod : String) (r : AccountWatchRequest) → IsIssued p tr r → IsIssued p tr (unlock pod r)
  unfolding unlock
  unlocked pod r h =
      elim (str_eq r.locked_by pod)
        as (λ b. IsIssued p tr (if b then record r { locked = false; locked_by = "" } else r)) [
          | true ↦ record {
            ids_drawn = h.ids_drawn;
            value = h.value;
            has_amount = h.has_amount;
            order_has_amount = h.order_has_amount;
          }
          | false ↦ h
        ]

  pub unlock-Sound :
      (pod : String) (rs : List AccountWatchRequest)
      → SoundRequests p tr rs
      → SoundRequests p tr (map (unlock pod) rs)
  unlock-Sound pod rs h = (issued rs h.0, subst IsDistinct (sym (same_ids pod rs)) h.1)
    where
      issued :
          (xs : List AccountWatchRequest)
          → All (IsIssued p tr) xs
          → All (IsIssued p tr) (map (unlock pod) xs)
      issued [] hs = tt
      issued (x ∷ xs) hs = (unlocked pod x hs.0, issued xs hs.1)

  -- The account that a paid request leaves to the bridge is booked for it.
  storage_of-IsBooked :
      (awrr : AccountWatchRequestResult)
      → IsIssued p tr awrr.account_watch_request
      → IsBooked p tr (storage_of awrr)
  unfolding storage_of
  storage_of-IsBooked awrr h = record {
    request = awrr.account_watch_request;
    issued = h;
    same_id = refl;
    balance = h.value;
    has_amount = h.order_has_amount;
  }

  pub book-Sound :
      (awrr : AccountWatchRequestResult) (bs : List BridgeStorage)
      → IsIssued p tr awrr.account_watch_request
      → SoundAccounts p tr bs
      → let replaced = replace_account (storage_of awrr) bs in
        SoundAccounts p tr (if replaced.1 then replaced.0 else replaced.0 ++ storage_of awrr ∷ [])
  book-Sound awrr bs hr h =
      subst (SoundAccounts p tr)
        (sym (
          rw (replace_account_lem (storage_of awrr) bs)
            (upsert_of_loop (same_id (storage_of awrr)) (storage_of awrr) bs)))
        (
          upsert-All (storage_of awrr) (IsBooked p tr) (same_id (storage_of awrr)) bs
              (storage_of-IsBooked awrr hr) h.0,
          upsert-IsDistinct (λ a. a.id) (storage_of awrr) bs h.1,
        )

  -- what the loops leave of what they read
  pub replaced-Sound :
      (w : World p) (r : AccountWatchRequest) (rs kept_rs : List AccountWatchRequest) (found : Bool)
      → IsIssued p tr r
      → SoundRequests p tr rs
      → (replace_loop r rs w).0 ≡ ret (kept_rs, found)
      → SoundRequests p tr (if found then kept_rs else kept_rs ++ r ∷ [])
  replaced-Sound w r rs kept_rs found hr h looped =
      let known : (replace_loop r rs w).0 ≡ ret (replace_all same r rs, any_of same rs) =
        ap (λ o. o.0)
          (replace_loop_lem p (uuid_of p) r rs w (issued-Parses honest r hr)
            (All-Parses honest rs h.0)) in
      let all_same : kept_rs ≡ replace_all same r rs = cc (looped, known) in
      let found_same : found ≡ any_of same rs = cc (looped, known) in
      subst (SoundRequests p tr) (sym (rw all_same (rw found_same (upsert_of_loop same r rs))))
        (put-Sound r rs hr h)
    where
      same : AccountWatchRequest → Bool
      same = same_uuid p (uuid_of p) r

  pub removed-Sound :
      (id : String) (rs kept_rs : List AccountWatchRequest)
      → SoundRequests p tr rs
      → remove_loop id (length rs) 0 rs (length rs) ≡ some kept_rs
      → SoundRequests p tr kept_rs
  removed-Sound id rs kept_rs h looped =
      let all_others : kept_rs ≡ others id rs =
        cc (looped, remove_loop-eq-others id rs (IsDistinct-IsUnique id rs h.1)) in
      subst (SoundRequests p tr) (sym all_others) (others-Sound id rs h)

  pub charged-Sound :
      (w : World p) (id : String) (amount : Option ℤ) (bs charged : List BridgeStorage)
      → SoundAccounts p tr bs
      → (charge_loop id amount bs w).0 ≡ ret charged
      → SoundAccounts p tr charged
  charged-Sound w id amount bs charged h looped =
      let (booked, same) = (charge_loop-Returns tr id amount bs h.0).value w charged looped in
      (booked, subst IsDistinct (sym same) h.1)
