-- ===== src/System/Kept.antt =====
-- Steps of the program and sound states.
use mathlib.Core.Path.{subst}
use party_bridge.Base.{String, List, [], ◌∷◌, ◌≡◌, refl, sym, ◌∙◌, All, All-append}
use party_bridge.Types.{AccountWatchRequest, BridgeStorage}
use party_bridge.Platform.{Platform, Event, posted}
use party_bridge.Exec.{World, ret}
use party_bridge.Store.{
  load, account_watch_requests, bridge_accounts, failed_account_watch_requests,
}
use party_bridge.System.{
  IsIssued, Step, effect, ask, memory, update, remove, set_aside, unlock_all, book, charge, Steps,
  stay, more,
}
use party_bridge.System.Writes.{
  Writes, trace_same, update-Writes, remove-Writes, on_crash-Writes, store_failed-Writes,
  store_account-Writes, charge-Writes,
}
use party_bridge.System.Sound.{
  IsHonest, IsHonest-Extends, IsBooked, IsSound, SoundRequests, SoundAccounts,
}
use party_bridge.System.ReadBack.{load_same, load-Writes_self, load-Writes_ne}
use party_bridge.System.Lists.{
  replaced-Sound, removed-Sound, unlock-Sound, book-Sound, charged-Sound,
}
use party_bridge.System.Growth.{Extends, Step-Grows, IsIssued-Extends}

-- what is sound of a key that reads as before
module _ {p : Platform} {w : World p} (sound : IsSound w) (v : World p)
    (same : v.trace ≡ w.trace) where
  requests_kept :
      (load p.requests_json [] account_watch_requests v).0
        ≡ (load p.requests_json [] account_watch_requests w).0
      → (rs : List AccountWatchRequest)
      → (load p.requests_json [] account_watch_requests v).0 ≡ ret rs
      → SoundRequests p v.trace rs
  requests_kept reads rs e =
      subst (λ tr. SoundRequests p tr rs) (sym same) (sound.requests_sound rs (sym reads ∙ e))

  accounts_kept :
      (load p.accounts_json [] bridge_accounts v).0 ≡ (load p.accounts_json [] bridge_accounts w).0
      → (bs : List BridgeStorage) → (load p.accounts_json [] bridge_accounts v).0 ≡ ret bs
      → SoundAccounts p v.trace bs
  accounts_kept reads bs e =
      subst (λ tr. SoundAccounts p tr bs) (sym same) (sound.accounts_sound bs (sym reads ∙ e))

  failed_kept :
      (load p.requests_json [] failed_account_watch_requests v).0
        ≡ (load p.requests_json [] failed_account_watch_requests w).0
      → (rs : List AccountWatchRequest)
      → (load p.requests_json [] failed_account_watch_requests v).0 ≡ ret rs
      → All (IsIssued p v.trace) rs
  failed_kept reads rs e =
      subst (λ tr. All (IsIssued p tr) rs) (sym same) (sound.failed_sound rs (sym reads ∙ e))

module _ {p : Platform} {w v : World p} (honest : IsHonest p w.trace) (sound : IsSound w) where
  requests-Sound :
      Writes p.requests_json account_watch_requests (SoundRequests p w.trace) w v → IsSound v
  requests-Sound writes = record {
    requests_sound = λ rs e.
        subst (λ tr. SoundRequests p tr rs) (sym (trace_same writes))
          (load-Writes_self honest [] honest.requests_read (tt, tt) sound.requests_sound writes rs
            e);
    accounts_sound =
        accounts_kept sound v (trace_same writes)
          (load-Writes_ne honest p.accounts_json [] bridge_accounts refl writes);
    failed_sound =
        failed_kept sound v (trace_same writes)
          (load-Writes_ne honest p.requests_json [] failed_account_watch_requests refl writes);
  }

  accounts-Sound : Writes p.accounts_json bridge_accounts (SoundAccounts p w.trace) w v → IsSound v
  accounts-Sound writes = record {
    requests_sound =
        requests_kept sound v (trace_same writes)
          (load-Writes_ne honest p.requests_json [] account_watch_requests refl writes);
    accounts_sound = λ bs e.
        subst (λ tr. SoundAccounts p tr bs) (sym (trace_same writes))
          (load-Writes_self honest [] honest.accounts_read (tt, tt) sound.accounts_sound writes bs
            e);
    failed_sound =
        failed_kept sound v (trace_same writes)
          (load-Writes_ne honest p.requests_json [] failed_account_watch_requests refl writes);
  }

  failed-Sound :
      Writes p.requests_json failed_account_watch_requests (All (IsIssued p w.trace)) w v
      → IsSound v
  failed-Sound writes = record {
    requests_sound =
        requests_kept sound v (trace_same writes)
          (load-Writes_ne honest p.requests_json [] account_watch_requests refl writes);
    accounts_sound =
        accounts_kept sound v (trace_same writes)
          (load-Writes_ne honest p.accounts_json [] bridge_accounts refl writes);
    failed_sound = λ rs e.
        subst (λ tr. All (IsIssued p tr) rs) (sym (trace_same writes))
          (load-Writes_self honest [] honest.requests_read tt sound.failed_sound writes rs e);
  }

-- What is sound stays sound as the trace grows.
module _ (p : Platform) {old tr : List Event} (grows : Extends old tr) where
  pub All-IsIssued-Extends :
      (rs : List AccountWatchRequest) → All (IsIssued p old) rs → All (IsIssued p tr) rs
  All-IsIssued-Extends [] h = tt
  All-IsIssued-Extends (r ∷ rs) h = (IsIssued-Extends grows h.0, All-IsIssued-Extends rs h.1)

  All-IsBooked-Extends :
      (bs : List BridgeStorage) → All (IsBooked p old) bs → All (IsBooked p tr) bs
  All-IsBooked-Extends [] h = tt
  All-IsBooked-Extends (a ∷ bs) h = (
    record {
      request = h.0.request;
      issued = IsIssued-Extends grows h.0.issued;
      same_id = h.0.same_id;
      balance = h.0.balance;
      has_amount = h.0.has_amount;
    },
    All-IsBooked-Extends bs h.1,
  )

-- nothing was written
unwritten-Sound :
    {p : Platform} {w v : World p} → IsSound w → Extends w.trace v.trace → v.db ≡ w.db → IsSound v
unwritten-Sound {p} {w} {v} sound grows same = record {
  requests_sound = λ rs e.
      let (issued, distinct) =
        sound.requests_sound rs
          (sym (load_same p.requests_json [] account_watch_requests w v (rw same refl)) ∙ e) in
      (All-IsIssued-Extends p grows rs issued, distinct);
  accounts_sound = λ bs e.
      let (booked, distinct) =
        sound.accounts_sound bs
          (sym (load_same p.accounts_json [] bridge_accounts w v (rw same refl)) ∙ e) in
      (All-IsBooked-Extends p grows bs booked, distinct);
  failed_sound = λ rs e. All-IsIssued-Extends p grows rs (
      sound.failed_sound rs
        (sym (load_same p.requests_json [] failed_account_watch_requests w v (rw same refl)) ∙ e));
}

module _ {p : Platform} {asks : String → Type 0} where
  Step-IsSound : {w v : World p} → IsHonest p w.trace → IsSound w → Step asks w v → IsSound v
  Step-IsSound honest sound (effect event other) = unwritten-Sound sound (event ∷ [], refl) refl
  Step-IsSound honest sound (ask url text asked) =
      unwritten-Sound sound (posted url text ∷ [], refl) refl
  Step-IsSound honest sound (memory clients heap) = unwritten-Sound sound ([], refl) refl
  Step-IsSound {w} honest sound (update r h) = requests-Sound honest sound (
      update-Writes w (SoundRequests p w.trace) r (λ rs kept_rs found read looped.
        replaced-Sound honest w r rs kept_rs found h (sound.requests_sound rs read) looped))
  Step-IsSound {w} honest sound (remove id) = requests-Sound honest sound (
      remove-Writes w (SoundRequests p w.trace) id (λ rs kept_rs read looped.
        removed-Sound honest id rs kept_rs (sound.requests_sound rs read) looped))
  Step-IsSound {w} honest sound (set_aside r h) = failed-Sound honest sound (
      store_failed-Writes w (All (IsIssued p w.trace)) r (λ rs read.
        All-append (IsIssued p w.trace) rs (r ∷ []) (sound.failed_sound rs read) (h, tt)))
  Step-IsSound {w} honest sound (unlock_all e) = requests-Sound honest sound (
      on_crash-Writes w (SoundRequests p w.trace) e
        (λ rs read. unlock-Sound honest e.pod_name rs (sound.requests_sound rs read)))
  Step-IsSound {w} honest sound (book awrr h) = accounts-Sound honest sound (
      store_account-Writes w (SoundAccounts p w.trace) awrr
        (λ bs read. book-Sound honest awrr bs h (sound.accounts_sound bs read)))
  Step-IsSound {w} honest sound (charge id x) = accounts-Sound honest sound (
      charge-Writes w (SoundAccounts p w.trace) id x (λ bs charged read looped.
        charged-Sound honest w id x bs charged (sound.accounts_sound bs read) looped))

  -- Take any steps of the program from a sound state, in any order: changes of the sessions,
  -- effects on the outside, and the operations on Redis, of which those that store do so for an
  -- issued request, and each of which goes through or fails as the database and JSON decide. If the
  -- outside is honest up to their end (a write stores the text under its key or changes nothing,
  -- JSON reads what it wrote, the ids that are drawn parse, and none is drawn twice), the state is
  -- sound again. That is, of what the keys then read as, every waiting request is under two ids
  -- that were drawn for it one after the other and has one amount to watch for and to bridge, no
  -- two of them have the same transaction id, every account was booked for such a request under its
  -- transaction id and has an amount, no two accounts have the same id, and the requests set aside
  -- are such requests.
  pub Steps-IsSound : {w v : World p} → Steps asks w v → IsHonest p v.trace → IsSound w → IsSound v
  Steps-IsSound stay honest sound = sound
  Steps-IsSound (more steps step) honest sound =
      let sooner = IsHonest-Extends (Step-Grows step) honest in
      Step-IsSound sooner (Steps-IsSound steps sooner sound) step
