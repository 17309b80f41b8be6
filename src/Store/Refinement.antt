-- ===== src/Store/Refinement.antt =====
-- pkg/redis.go: each operation on Redis performs its operation on the three lists.
use party_bridge.Base.{
  ℕ, String, Bool, List, [], ◌∷◌, ◌++◌, map, ◌≡◌, refl, arith, All, upsert, any_of, replace_all,
  upsert_of_loop, ◌==◌,
}
use party_bridge.Types.{AccountWatchRequest}
use party_bridge.Platform.{Platform, ok}
use party_bridge.Exec.{World, ret}
use party_bridge.Server.{ExchangeServer}
use party_bridge.Store.{failed_account_watch_requests, account_watch_requests}
use party_bridge.Store.Requests.{
  put_request, replace_loop, unlock, update_account_watch_request_in_db,
  update_account_watch_requests_on_crash, remove_account_watch_request_from_db,
  store_failed_account_watch_request,
}
use party_bridge.Store.Removal.{IsUnique, others, remove_loop-eq-others}
use party_bridge.Store.Tables.{
  Tables, IsWorking, Represents, Performs, Performs-of_eq, load_ret, save_requests-Performs,
  save_failed-Performs,
}

module _ (p : Platform) (uuid : AccountWatchRequest → ℕ) where
  -- the id of the request parses to `uuid`
  abbrev pub Parses : AccountWatchRequest → Type 0
  Parses r = p.parse_uuid r.awrid ≡ ok (uuid r)

  abbrev pub same_uuid : AccountWatchRequest → AccountWatchRequest → Bool
  same_uuid request r = uuid r == uuid request

  pub replace_loop_lem :
      (request : AccountWatchRequest) (rs : List AccountWatchRequest) (w : World p)
      → Parses request
      → All Parses rs
      → replace_loop request rs w
        ≡ (ret (replace_all (same_uuid request) request rs, any_of (same_uuid request) rs), w)
  unfolding replace_loop
  replace_loop_lem request [] w h hs = refl
  replace_loop_lem request (r ∷ rs) w h hs =
      rw hs.0 (rw h (rw (replace_loop_lem request rs w h hs.1) (ground arith)))

module _ {p : Platform} (works : IsWorking p) (uuid : AccountWatchRequest → ℕ) {w : World p}
    {t : Tables} (held : Represents w t) where
  -- what the rest of the operation does with any list that was read
  pub put_request-Performs :
      (request : AccountWatchRequest) (rs : List AccountWatchRequest)
      → Parses p uuid request
      → All (Parses p uuid) rs
      → Performs
          (put_request request rs)
          w
          (record t { requests = upsert (same_uuid p uuid request) request rs })
  unfolding put_request
  put_request-Performs request rs h hs =
      Performs-of_eq
        (rw (replace_loop_lem p uuid request rs w h hs)
          (rw (upsert_of_loop (same_uuid p uuid request) request rs) refl))
        (save_requests-Performs works held (upsert (same_uuid p uuid request) request rs))

  -- If Redis works and the ids of the request and of all stored requests parse, the update returns,
  -- replaces the stored requests with the id of the new one, or appends it if there is none, and
  -- changes nothing else.
  pub update-Performs :
      (request : AccountWatchRequest)
      → Parses p uuid request
      → All (Parses p uuid) t.requests
      → Performs
          (update_account_watch_request_in_db request)
          w
          (record t { requests = upsert (same_uuid p uuid request) request t.requests })
  unfolding update_account_watch_request_in_db
  update-Performs request h hs =
      Performs-of_eq
        (rw (load_ret p.requests_json [] account_watch_requests w held.requests_held) refl)
        (put_request-Performs request t.requests h hs)

module _ {p : Platform} (works : IsWorking p) {w : World p} {t : Tables}
    (held : Represents w t) where
  -- If Redis works, the update at a shutdown returns, unlocks the requests that this pod holds and
  -- no others, and changes nothing else.
  pub on_crash-Performs :
      (e : ExchangeServer)
      → Performs
          (update_account_watch_requests_on_crash e)
          w
          (record t { requests = map (unlock e.pod_name) t.requests })
  unfolding update_account_watch_requests_on_crash
  on_crash-Performs e =
      Performs-of_eq
        (rw (load_ret p.requests_json [] account_watch_requests w held.requests_held) refl)
        (save_requests-Performs works held (map (unlock e.pod_name) t.requests))

  -- If Redis works and at most one request has the id, removing it returns, takes it off the table
  -- of requests, and changes nothing else.
  pub remove-Performs :
      (id : String)
      → IsUnique id t.requests
      → Performs
          (remove_account_watch_request_from_db id)
          w
          (record t { requests = others id t.requests })
  unfolding remove_account_watch_request_from_db
  remove-Performs id unique =
      Performs-of_eq
        (rw (load_ret p.requests_json [] account_watch_requests w held.requests_held)
          (rw (remove_loop-eq-others id t.requests unique) refl))
        (save_requests-Performs works held (others id t.requests))

  -- If Redis works, setting a request aside returns, appends it to the table of failed requests,
  -- and changes nothing else.
  pub store_failed-Performs :
      (awr : AccountWatchRequest)
      → Performs
          (store_failed_account_watch_request awr)
          w
          (record t { failed = t.failed ++ awr ∷ [] })
  unfolding store_failed_account_watch_request
  store_failed-Performs awr =
      Performs-of_eq
        (rw (load_ret p.requests_json [] failed_account_watch_requests w held.failed_held) refl)
        (save_failed-Performs works held (t.failed ++ awr ∷ []))
