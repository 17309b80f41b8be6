-- ===== src/Store/Sequences.antt =====
-- pkg/redis.go: two operations on the watch requests, one after the other and overlapping.
use mathlib.Core.Path.{subst}
use party_bridge.Base.{
  ℕ, String, false, List, [], ◌∷◌, ◌++◌, ◌≡◌, refl, ◌∙◌, arith, All, any_of, upsert,
}
use party_bridge.Base.Text.{str_eq_refl}
use party_bridge.Types.{AccountWatchRequest}
use party_bridge.Platform.{Platform}
use party_bridge.Exec.{World, Exec, ◌>>=◌, ◌>>◌}
use party_bridge.Store.{load, account_watch_requests}
use party_bridge.Store.Requests.{
  put_request, update_account_watch_request_in_db, remove_account_watch_request_from_db,
}
use party_bridge.Store.Removal.{IsOther, IsUnique, others}
use party_bridge.Store.Tables.{Tables, IsWorking, Represents, Performs, load_ret}
use party_bridge.Store.Refinement.{
  Parses, same_uuid, put_request-Performs, update-Performs, remove-Performs,
}

-- A new request at the end of the list is the only one with its id, and the others are what was there.
module _ (r : AccountWatchRequest) where
  append-IsOther :
      (id : String) (rs : List AccountWatchRequest)
      → IsOther id r
      → All (IsOther id) rs
      → All (IsOther id) (rs ++ r ∷ [])
  append-IsOther id [] h hs = (h, tt)
  append-IsOther id (x ∷ rs) h hs = (hs.0, append-IsOther id rs h hs.1)

  pub append-IsUnique :
      (rs : List AccountWatchRequest)
      → All (IsOther r.transaction_id) rs
      → IsUnique r.transaction_id (rs ++ r ∷ [])
  append-IsUnique [] hs = ((λ h. tt), tt)
  append-IsUnique (x ∷ rs) hs = ((λ h. absurd (cc (h, hs.0))), append-IsUnique rs hs.1)

  pub others-append :
      (rs : List AccountWatchRequest)
      → All (IsOther r.transaction_id) rs
      → others r.transaction_id (rs ++ r ∷ []) ≡ rs
  others-append [] hs = ground (arith, str_eq_refl r.transaction_id)
  others-append (x ∷ rs) hs = ground (arith, others-append rs hs.1)

module _ {p : Platform} (works : IsWorking p) (uuid : AccountWatchRequest → ℕ) {w : World p}
    {t : Tables} (held : Represents w t) where
  -- If Redis works, the ids of the request and of all stored requests parse, and no stored request
  -- has either of its ids, storing the request and removing it by its transaction id returns, and
  -- the tables are what they were.
  pub remove-update :
      (request : AccountWatchRequest)
      → Parses p uuid request
      → All (Parses p uuid) t.requests
      → any_of (same_uuid p uuid request) t.requests ≡ false
      → All (IsOther request.transaction_id) t.requests
      → Performs
          (update_account_watch_request_in_db request
            >> remove_account_watch_request_from_db request.transaction_id)
          w
          t
  remove-update request h hs new others_there =
      let stored = update-Performs works uuid held request h hs in
      let grown : Represents stored.after (record t { requests = t.requests ++ request ∷ [] }) =
        subst (λ l. Represents stored.after (record t { requests = l })) (rw new refl)
          stored.represents in
      let removed =
        remove-Performs works grown request.transaction_id
          (append-IsUnique request t.requests others_there) in
      record {
        after = removed.after;
        runs = rw stored.runs removed.runs;
        represents =
            subst (λ l. Represents removed.after (record t { requests = l }))
              (others-append request t.requests others_there) removed.represents;
        same_trace = removed.same_trace ∙ stored.same_trace;
        same_clients = removed.same_clients ∙ stored.same_clients;
        same_heap = removed.same_heap ∙ stored.same_heap;
      }

  -- Two updates of which each reads before the other writes.
  abbrev pub overlapping : AccountWatchRequest → AccountWatchRequest → Exec p (Unit {0})
  overlapping a b = do
    read_by_a ← load p.requests_json [] account_watch_requests
    read_by_b ← load p.requests_json [] account_watch_requests
    put_request a read_by_a
    put_request b read_by_b

  -- If Redis works and the ids parse, two updates of which each reads before the other writes both
  -- return, and the tables are as after the second update alone: the first one is lost.
  pub overlapping-Performs :
      (a b : AccountWatchRequest)
      → Parses p uuid a
      → Parses p uuid b
      → All (Parses p uuid) t.requests
      → Performs
          (overlapping a b)
          w
          (record t { requests = upsert (same_uuid p uuid b) b t.requests })
  overlapping-Performs a b ha hb hs =
      let first = put_request-Performs works uuid held a t.requests ha hs in
      let second = put_request-Performs works uuid first.represents b t.requests hb hs in
      record {
        after = second.after;
        runs = rw (load_ret p.requests_json [] account_watch_requests w held.requests_held) (
            rw (load_ret p.requests_json [] account_watch_requests w held.requests_held)
              (rw first.runs second.runs));
        represents = second.represents;
        same_trace = second.same_trace ∙ first.same_trace;
        same_clients = second.same_clients ∙ first.same_clients;
        same_heap = second.same_heap ∙ first.same_heap;
      }
