-- ===== src/Store/Tables.antt =====
-- pkg/redis.go, seen from above: three lists, which a working Redis server and a lossless JSON
-- encoding hold under the three keys.
use party_bridge.Base.{String, false, List, [], ◌≡◌, refl, ◌∙◌, inl, inr}
use party_bridge.Base.Text.{str_eq, str_eq_refl}
use party_bridge.Types.{AccountWatchRequest, BridgeStorage}
use party_bridge.Platform.{Platform, Codec, IsLossless, IsReachable, Result-cases}
use party_bridge.Exec.{World, Exec, ret}
use party_bridge.Store.{
  load, save, decode, account_watch_requests, bridge_accounts, failed_account_watch_requests,
}

pub record Tables : Type 0 where
  pub requests : List AccountWatchRequest
  pub accounts : List BridgeStorage
  pub failed : List AccountWatchRequest

-- Redis answers, and JSON loses nothing of what the server stores.
pub record IsWorking (p : Platform) : Type 0 where
  pub reachable : IsReachable p
  pub requests_lossless : IsLossless p p.requests_json
  pub accounts_lossless : IsLossless p p.accounts_json

-- What the three keys read as.
pub record Represents {p : Platform} (w : World p) (t : Tables) : Type 0 where
  pub requests_held : (load p.requests_json [] account_watch_requests w).0 ≡ ret t.requests
  pub accounts_held : (load p.accounts_json [] bridge_accounts w).0 ≡ ret t.accounts
  pub failed_held : (load p.requests_json [] failed_account_watch_requests w).0 ≡ ret t.failed

-- The call returns, the keys then read as `t`, and nothing but the database has changed.
pub record Performs {p : Platform} (m : Exec p (Unit {0})) (w : World p) (t : Tables) : Type 0 where
  pub after : World p
  pub runs : m w ≡ (ret tt, after)
  pub represents : Represents after t
  pub same_trace : after.trace ≡ w.trace
  pub same_clients : after.ws_clients ≡ w.ws_clients
  pub same_heap : after.heap ≡ w.heap

-- A call that comes down to another one performs what that one performs.
pub Performs-of_eq :
    {p : Platform} {m n : Exec p (Unit {0})} {w : World p} {t : Tables}
    → m w ≡ n w
    → Performs n w t
    → Performs m w t
Performs-of_eq e r = record {
  after = r.after;
  runs = e ∙ r.runs;
  represents = r.represents;
  same_trace = r.same_trace;
  same_clients = r.same_clients;
  same_heap = r.same_heap;
}

module _ {p : Platform} {A : Type 0} (c : Codec p.Text A) (empty : A) where
  -- reading changes nothing
  pub load_keeps : (key : String) (w : World p) → load c empty key w ≡ ((load c empty key w).0, w)
  unfolding load
  load_keeps key w = elim (Result-cases (decode p.is_empty c empty (p.redis_get key w.db))) [
    | inl (a, d) ↦ rw d
    | inr (m, d) ↦ rw d
  ]

  pub load_ret :
      (key : String) (w : World p) {a : A}
      → (load c empty key w).0 ≡ ret a
      → load c empty key w ≡ (ret a, w)
  load_ret key w e = load_keeps key w ∙ rw e

module _ {p : Platform} (r : IsReachable p) where
  abbrev pub saved : String → p.Text → World p → World p
  saved key text w = record w { db = (p.redis_set key text w.db).1 }

  module _ {A : Type 0} (c : Codec p.Text A) (l : IsLossless p c) where
    pub save_lem :
        (key : String) (a : A) (w : World p) → save c key a w ≡ (ret tt, saved key (l.encode a) w)
    unfolding save
    save_lem key a w = rw (l.marshal-encode a) (rw (r.set-accepts key (l.encode a) w.db))

    pub load-saved_self :
        (empty : A) (key : String) (a : A) (w : World p)
        → (load c empty key (saved key (l.encode a) w)).0 ≡ ret a
    unfolding load
    load-saved_self empty key a w =
        rw (r.get-set key key (l.encode a) w.db)
          (rw (str_eq_refl key) (rw (l.encode-ne-empty a) (rw (l.unmarshal-encode a))))

  pub load-saved_ne :
      {A : Type 0} (c : Codec p.Text A) (empty : A) (j k : String) (text : p.Text) (w : World p)
      → str_eq j k ≡ false
      → (load c empty j (saved k text w)).0 ≡ (load c empty j w).0
  unfolding load
  load-saved_ne c empty j k text w h = rw (r.get-set j k text w.db) (
      rw h (elim (Result-cases (decode p.is_empty c empty (p.redis_get j w.db))) [
        | inl (a, d) ↦ rw d
        | inr (m, d) ↦ rw d
      ]))

-- Writing one of the lists under its key changes that table alone.
module _ {p : Platform} (works : IsWorking p) {w : World p} {t : Tables}
    (held : Represents w t) where
  pub save_requests-Performs :
      (rs : List AccountWatchRequest)
      → Performs (save p.requests_json account_watch_requests rs) w (record t { requests = rs })
  save_requests-Performs rs = record {
    after = saved works.reachable account_watch_requests (works.requests_lossless.encode rs) w;
    runs =
        save_lem works.reachable p.requests_json works.requests_lossless account_watch_requests rs
          w;
    represents = record {
      requests_held =
          load-saved_self works.reachable p.requests_json works.requests_lossless []
            account_watch_requests rs w;
      accounts_held =
          load-saved_ne works.reachable p.accounts_json [] bridge_accounts account_watch_requests
            (works.requests_lossless.encode rs) w refl
          ∙ held.accounts_held;
      failed_held =
          load-saved_ne works.reachable p.requests_json [] failed_account_watch_requests
            account_watch_requests (works.requests_lossless.encode rs) w refl
          ∙ held.failed_held;
    };
    same_trace = refl;
    same_clients = refl;
    same_heap = refl;
  }

  pub save_accounts-Performs :
      (bs : List BridgeStorage)
      → Performs (save p.accounts_json bridge_accounts bs) w (record t { accounts = bs })
  save_accounts-Performs bs = record {
    after = saved works.reachable bridge_accounts (works.accounts_lossless.encode bs) w;
    runs = save_lem works.reachable p.accounts_json works.accounts_lossless bridge_accounts bs w;
    represents = record {
      requests_held =
          load-saved_ne works.reachable p.requests_json [] account_watch_requests bridge_accounts
            (works.accounts_lossless.encode bs) w refl
          ∙ held.requests_held;
      accounts_held =
          load-saved_self works.reachable p.accounts_json works.accounts_lossless [] bridge_accounts
            bs w;
      failed_held =
          load-saved_ne works.reachable p.requests_json [] failed_account_watch_requests
            bridge_accounts (works.accounts_lossless.encode bs) w refl
          ∙ held.failed_held;
    };
    same_trace = refl;
    same_clients = refl;
    same_heap = refl;
  }

  pub save_failed-Performs :
      (rs : List AccountWatchRequest)
      → Performs
          (save p.requests_json failed_account_watch_requests rs)
          w
          (record t { failed = rs })
  save_failed-Performs rs = record {
    after =
        saved works.reachable failed_account_watch_requests (works.requests_lossless.encode rs) w;
    runs =
        save_lem works.reachable p.requests_json works.requests_lossless
          failed_account_watch_requests rs w;
    represents = record {
      requests_held =
          load-saved_ne works.reachable p.requests_json [] account_watch_requests
            failed_account_watch_requests (works.requests_lossless.encode rs) w refl
          ∙ held.requests_held;
      accounts_held =
          load-saved_ne works.reachable p.accounts_json [] bridge_accounts
            failed_account_watch_requests (works.requests_lossless.encode rs) w refl
          ∙ held.accounts_held;
      failed_held =
          load-saved_self works.reachable p.requests_json works.requests_lossless []
            failed_account_watch_requests rs w;
    };
    same_trace = refl;
    same_clients = refl;
    same_heap = refl;
  }
