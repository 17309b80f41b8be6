-- ===== src/Warren/Laws.antt =====
-- pkg/adapter.go: which requests a tick sends, before and after a watch has locked one.
use party_bridge.Base.{
  ℕ, true, false, not, List, [], ◌∷◌, ◌++◌, ◌≡◌, refl, inl, inr, arith, Bool-cases, keep_if, upsert,
  any_of, replace_all, All,
}
use party_bridge.Types.{Time, AccountWatchRequest}
use party_bridge.Platform.{Platform}
use party_bridge.Server.{ExchangeServer}
use party_bridge.Exec.{World, ret}
use party_bridge.Store.{account_watch_requests}
use party_bridge.Store.Requests.{
  update_account_watch_request_in_db, retrieve_account_watch_requests_from_db,
}
use party_bridge.Store.Tables.{Tables, IsWorking, Represents, load_ret}
use party_bridge.Store.Refinement.{Parses, same_uuid, update-Performs}
use party_bridge.WatchAccount.{lock}
use party_bridge.Warren.{warren, start_warren_tick}

abbrev pub unlocked : List AccountWatchRequest → List AccountWatchRequest
unlocked = keep_if (λ r. not r.locked)

pub warren-unlocked : (rs : List AccountWatchRequest) → warren rs ≡ unlocked rs
unfolding warren
warren-unlocked [] = refl
warren-unlocked (r ∷ rs) = ground arith

pub unlocked_skip :
    (r : AccountWatchRequest) (rs : List AccountWatchRequest)
    → r.locked ≡ true
    → unlocked (r ∷ rs) ≡ unlocked rs
unlocked_skip r rs h = ground arith

pub unlocked_keep :
    (r : AccountWatchRequest) (rs : List AccountWatchRequest)
    → r.locked ≡ false
    → unlocked (r ∷ rs) ≡ r ∷ unlocked rs
unlocked_keep r rs h = ground arith

-- If the store holds the tables `t`, a tick sends exactly the stored requests that are not locked,
-- in their order, and changes nothing.
pub start_warren_tick_lem :
    {p : Platform} {w : World p} {t : Tables}
    → Represents w t
    → start_warren_tick w ≡ (ret (unlocked t.requests), w)
unfolding start_warren_tick retrieve_account_watch_requests_from_db
start_warren_tick_lem {p} {w} {t} held =
    rw (load_ret p.requests_json [] account_watch_requests w held.requests_held)
      (rw (warren-unlocked t.requests) refl)

-- the second request has another id than the first
abbrev pub IsOtherId :
    (p : Platform) → (AccountWatchRequest → ℕ) → AccountWatchRequest → AccountWatchRequest → Type 0
IsOtherId p uuid request r = same_uuid p uuid request r ≡ false

module _ (p : Platform) (uuid : AccountWatchRequest → ℕ) (request : AccountWatchRequest)
    (locked : request.locked ≡ true) where
  unlocked-replace_all :
      (rs : List AccountWatchRequest)
      → All
          (IsOtherId p uuid request)
          (unlocked (replace_all (same_uuid p uuid request) request rs))
  unlocked-replace_all [] = tt
  unlocked-replace_all (r ∷ rs) = elim (Bool-cases (same_uuid p uuid request r)) [
    | inl hit ↦ rw hit (
        rw (unlocked_skip request (replace_all (same_uuid p uuid request) request rs) locked)
          (unlocked-replace_all rs))
    | inr miss ↦ elim (Bool-cases r.locked) [
      | inl l ↦ rw miss (
          rw (unlocked_skip r (replace_all (same_uuid p uuid request) request rs) l)
            (unlocked-replace_all rs))
      | inr l ↦ rw miss (
          rw (unlocked_keep r (replace_all (same_uuid p uuid request) request rs) l)
            (miss, unlocked-replace_all rs))
    ]
  ]

  unlocked-append :
      (rs : List AccountWatchRequest)
      → any_of (same_uuid p uuid request) rs ≡ false
      → All (IsOtherId p uuid request) (unlocked (rs ++ request ∷ []))
  unlocked-append [] h = rw (unlocked_skip request [] locked) tt
  unlocked-append (r ∷ rs) h = elim (Bool-cases r.locked) [
    | inl l ↦ rw (unlocked_skip r (rs ++ request ∷ []) l) (unlocked-append rs (ground (arith, h)))
    | inr l ↦
        rw (unlocked_keep r (rs ++ request ∷ []) l)
          (ground (arith, h), unlocked-append rs (ground (arith, h)))
  ]

  unlocked-upsert :
      (rs : List AccountWatchRequest)
      → All (IsOtherId p uuid request) (unlocked (upsert (same_uuid p uuid request) request rs))
  unlocked-upsert rs = elim (Bool-cases (any_of (same_uuid p uuid request) rs)) [
    | inl h ↦ rw h (unlocked-replace_all rs)
    | inr h ↦ rw h (unlocked-append rs h)
  ]

module _ {p : Platform} (works : IsWorking p) (uuid : AccountWatchRequest → ℕ) (e : ExchangeServer)
    {w : World p} {t : Tables} (held : Represents w t) where
  -- If Redis works and the ids of the request and of all stored requests parse, the update with the
  -- locked request returns, and the next tick returns and sends no request with the id of that one.
  pub start_warren_tick-lock :
      (time : Time) (request : AccountWatchRequest)
      → Parses p uuid (lock e time request)
      → All (Parses p uuid) t.requests
      → (after : World p) × (sent : List AccountWatchRequest) × (update_account_watch_request_in_db
            (lock e time request)
            w
          ≡ (ret tt, after))
        × (start_warren_tick after ≡ (ret sent, after))
        × All (IsOtherId p uuid (lock e time request)) sent
  unfolding lock
  start_warren_tick-lock time request h hs =
      let done = update-Performs works uuid held (lock e time request) h hs in
      (
        done.after,
        unlocked (upsert (same_uuid p uuid (lock e time request)) (lock e time request) t.requests),
        done.runs,
        start_warren_tick_lem done.represents,
        unlocked-upsert p uuid (lock e time request) refl t.requests,
      )
