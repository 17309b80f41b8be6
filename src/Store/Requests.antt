-- ===== src/Store/Requests.antt =====
-- pkg/redis.go: the operations on the watch requests, waiting and failed. The loop that removes a
-- request shifts the array that it ranges over, so it is modelled on the array.
use party_bridge.Base.{
  ℕ, zero, suc, ◌+◌, ◌-◌, String, Bool, true, false, Option, none, some, List, [], ◌∷◌, ◌++◌, map,
  length, get_elem?, take, drop, ltb, ◌==◌, if◌then◌else◌,
}
use party_bridge.Base.Text.{str_eq}
use party_bridge.Types.{AccountWatchRequest}
use party_bridge.Platform.{Platform}
use party_bridge.Exec.{Exec, Crash, pure, or_die, lift, ◌>>=◌}
use party_bridge.Server.{ExchangeServer}
use party_bridge.Store.{load, save, account_watch_requests, failed_account_watch_requests}

-- `currentRequests[i].Locked = false; currentRequests[i].LockedBy = ""`, where this pod holds it
unfoldable pub unlock : String → AccountWatchRequest → AccountWatchRequest
unlock pod r = if str_eq r.locked_by pod then record r { locked = false; locked_by = "" } else r

-- `currentRequests = append(currentRequests[:i], currentRequests[i+1:]...)` on an array of which
-- the slice is the first `n` cells: the cells above `i` move down, the last one keeps its value.
-- `none` is a slice out of range.
unfoldable pub delete_at : ℕ → List AccountWatchRequest → ℕ → Option (List AccountWatchRequest × ℕ)
delete_at i array n =
    if ltb i n
    then some (take i array ++ (drop (i + 1) (take n array) ++ drop (n - 1) array), n - 1)
    else none

-- The range loop over the original array: rounds left, index, array, length of the slice.
unfoldable pub remove_loop :
    String → ℕ → ℕ → List AccountWatchRequest → ℕ → Option (List AccountWatchRequest)
unfolding delete_at
remove_loop id zero i array n = some (take n array)
remove_loop id (suc rounds) i array n = elim (get_elem? array i) [
  | none ↦ none
  | some r ↦ elim (if str_eq r.transaction_id id then delete_at i array n else some (array, n)) [
    | none ↦ none
    | some (array', n') ↦ remove_loop id rounds (i + 1) array' n'
  ]
]

module _ {p : Platform} where
  -- the loop that replaces a stored request of the same `AWRID`; whether it found one
  unfoldable pub replace_loop :
      AccountWatchRequest → List AccountWatchRequest → Exec p (List AccountWatchRequest × Bool)
  replace_loop request [] = pure ([], false)
  replace_loop request (r ∷ rs) = do
    u1 ← lift (p.parse_uuid r.awrid)
    u2 ← lift (p.parse_uuid request.awrid)
    (rest, found) ← replace_loop request rs
    pure (if u1 == u2 then (request ∷ rest, true) else (r ∷ rest, found))

  -- the rest of the operation, from the list that was read
  unfoldable pub put_request : AccountWatchRequest → List AccountWatchRequest → Exec p (Unit {0})
  unfolding save replace_loop
  put_request request current = do
    (replaced, found) ← replace_loop request current
    save p.requests_json account_watch_requests
        (if found then replaced else replaced ++ request ∷ [])

  unfoldable pub update_account_watch_request_in_db : AccountWatchRequest → Exec p (Unit {0})
  unfolding load put_request
  update_account_watch_request_in_db request = do
    current ← load p.requests_json [] account_watch_requests
    put_request request current

  unfoldable pub update_account_watch_requests_on_crash : ExchangeServer → Exec p (Unit {0})
  unfolding load save unlock
  update_account_watch_requests_on_crash e = do
    current ← load p.requests_json [] account_watch_requests
    save p.requests_json account_watch_requests (map (unlock e.pod_name) current)

  unfoldable pub remove_account_watch_request_from_db : String → Exec p (Unit {0})
  unfolding load save
  remove_account_watch_request_from_db request_id = do
    current ← load p.requests_json [] account_watch_requests
    kept ←
        or_die Crash.out_of_range
          (remove_loop request_id (length current) 0 current (length current))
    save p.requests_json account_watch_requests kept

  unfoldable pub retrieve_account_watch_requests_from_db : Exec p (List AccountWatchRequest)
  unfolding load
  retrieve_account_watch_requests_from_db = load p.requests_json [] account_watch_requests

  unfoldable pub store_failed_account_watch_request : AccountWatchRequest → Exec p (Unit {0})
  unfolding load save
  store_failed_account_watch_request awr = do
    current ← load p.requests_json [] failed_account_watch_requests
    save p.requests_json failed_account_watch_requests (current ++ awr ∷ [])
