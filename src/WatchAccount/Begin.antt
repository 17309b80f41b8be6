-- ===== src/WatchAccount/Begin.antt =====
-- pkg/helper.go `watchAccount`: what it does before it waits, for an order for a chain's own coins
-- whose request is the last one on the list.
use mathlib.Core.Path.{subst}
use party_bridge.Base.{
  All-append, ◌==◌, ℕ, zero, suc, String, Bool, true, false, none, some, List, [], ◌∷◌, ◌++◌, map,
  ◌≡◌, refl, ◌∙◌, ap, arith, All, any_of, upsert, if◌then◌else◌,
}
use party_bridge.Base.Int.{ℤ}
use party_bridge.Base.Text.{str_eq}
use party_bridge.Types.{Time, AccountWatchRequest, AssistedTradeOrderInformation, grams, octa}
use party_bridge.Platform.{Platform, asked_balance, read_clock}
use party_bridge.Server.{ExchangeServer}
use party_bridge.Exec.{World, ret}
use party_bridge.Store.Refinement.{Parses, same_uuid, update-Performs}
use party_bridge.Store.Tables.{Tables, IsWorking, Represents}
use party_bridge.Dispatch.Effects.{Represents-db}
use party_bridge.Dispatch.Routes.{Plan, IsRoute}
use party_bridge.Watch.{Wake, wait_and_verify_evm_chain}
use party_bridge.Watch.Bsc.{Wake as BscWake}
use party_bridge.Watch.Laws.{asked, asked_times, Answers}
use party_bridge.WatchAccount.{lock, begin_watch, watched_of, start_watch}

-- The request is the last one that `same` finds.
module _ (same : AccountWatchRequest → Bool) (a b : AccountWatchRequest)
    (found : same a ≡ true) where
  replaced-append :
      (rs : List AccountWatchRequest)
      → any_of same rs ≡ false
      → map (λ x. if same x then b else x) (rs ++ a ∷ []) ≡ rs ++ b ∷ []
  replaced-append [] h = rw found refl
  replaced-append (x ∷ rs) h = ground (arith, replaced-append rs, h)

  any_of-append : (rs : List AccountWatchRequest) → any_of same (rs ++ a ∷ []) ≡ true
  any_of-append [] = ground (arith, found)
  any_of-append (x ∷ rs) = ground (arith, any_of-append rs)

  pub upsert-append :
      (rs : List AccountWatchRequest)
      → any_of same rs ≡ false
      → upsert same b (rs ++ a ∷ []) ≡ rs ++ b ∷ []
  upsert-append rs h = rw (any_of-append rs) (replaced-append rs h)

-- An order for a chain's own coins to the other chain, and the clients that look for them.
pub data IsCoins (e : ExchangeServer) (client second : String) (chain : String)
    (info : AssistedTradeOrderInformation) : Type 0 where
  on_octa :
      chain ≡ octa
      → info.bridge_to ≡ grams
      → info.currency ≡ octa
      → e.oct_node.rpc_client ≡ some client
      → e.oct_node.rpc_client_two ≡ some second
      → IsCoins e client second chain info
  on_party :
      chain ≡ grams
      → info.bridge_to ≡ octa
      → info.currency ≡ grams
      → e.party_chain.rpc_client ≡ some client
      → e.party_chain.rpc_client_two ≡ some second
      → IsCoins e client second chain info

module _ {p : Platform} (room : ℕ) (e : ExchangeServer) (wakes : List Wake)
    (bsc_wakes : List BscWake) (locked : AccountWatchRequest) where
  pub start_watch-IsCoins :
      {client second chain : String} {info : AssistedTradeOrderInformation}
      → IsCoins e client second chain info
      → start_watch {p = p} room e wakes bsc_wakes locked
          (if str_eq info.bridge_to "" then none else watched_of chain info)
        ≡ wait_and_verify_evm_chain room e (some client) (some second) locked wakes
  unfolding start_watch watched_of
  start_watch-IsCoins (on_octa a b c d f) = simp (a, b, c, d, f)
  start_watch-IsCoins (on_party a b c d f) = simp (a, b, c, d, f)

pub IsCoins-wrap :
    {e : ExchangeServer} {client second chain : String} {info : AssistedTradeOrderInformation}
    → IsCoins e client second chain info
    → IsRoute info Plan.wrap
IsCoins-wrap (on_octa a b c d f) = IsRoute.octa_to_grams b c
IsCoins-wrap (on_party a b c d f) = IsRoute.grams_to_octa b c

-- Two ids that parse alike.
same_uuid-lock :
    (p : Platform) (uuid : AccountWatchRequest → ℕ) (e : ExchangeServer) (time : Time)
    (awr : AccountWatchRequest)
    → Parses p uuid (lock e time awr)
    → Parses p uuid awr
    → uuid (lock e time awr) ≡ uuid awr
unfolding lock
same_uuid-lock p uuid e time awr h h' = cc (h, h')

-- The request stands at the end of the list, and what was done so far is what was done in `base`.
module _ {p : Platform} (works : IsWorking p) (uuid : AccountWatchRequest → ℕ) (e : ExchangeServer)
    (awr : AccountWatchRequest) {w : World p} (t : Tables)
    (held : Represents w (record t { requests = t.requests ++ awr ∷ [] })) (base : World p)
    (base_trace : w.trace ≡ base.trace) where
  -- the request with the lock of this pod
  abbrev pub locked_now : AccountWatchRequest
  locked_now = lock e (p.now base.trace) awr

  -- The call returns the locked request, and has stored it and read the clock.
  pub record Begins : Type 0 where
    pub after : World p
    pub runs : begin_watch e awr w ≡ (ret locked_now, after)
    pub represents : Represents after (record t { requests = t.requests ++ locked_now ∷ [] })
    pub same_trace : after.trace ≡ read_clock ∷ base.trace

  pub begin_watch-Begins :
      Parses p uuid awr
      → Parses p uuid locked_now
      → All (Parses p uuid) t.requests
      → any_of (same_uuid p uuid awr) t.requests ≡ false
      → Begins
  unfolding begin_watch
  begin_watch-Begins parses parses_locked all_parse new =
      let clocked : World p = record w { trace = read_clock ∷ w.trace } in
      let requests : List AccountWatchRequest = t.requests ++ awr ∷ [] in
      let same : uuid locked_now ≡ uuid awr =
        same_uuid-lock p uuid e (p.now base.trace) awr parses_locked parses in
      let stored =
        update-Performs works uuid {t = record t { requests = requests }}
          (Represents-db clocked refl held) locked_now parses_locked
          (All-append (Parses p uuid) t.requests (awr ∷ []) all_parse (parses, tt)) in
      let once : upsert (same_uuid p uuid locked_now) locked_now requests
          ≡ t.requests ++ locked_now ∷ [] =
        upsert-append (same_uuid p uuid locked_now) awr locked_now (ground (arith, same)) t.requests
          (ap (λ u. any_of (λ r. uuid r == u) t.requests) same ∙ new) in
      record {
        after = stored.after;
        runs = rw (ap p.now base_trace) (rw stored.runs refl);
        represents =
            subst (λ l. Represents stored.after (record t { requests = l })) once stored.represents;
        same_trace = stored.same_trace ∙ ap (λ tr. read_clock ∷ tr) base_trace;
      }

module _ {p : Platform} (account : String) where
  pub asked_times-trace :
      (client : String) (k : ℕ) (w v : World p)
      → w.trace ≡ v.trace
      → (asked_times account client k w).trace ≡ (asked_times account client k v).trace
  asked_times-trace client zero w v same = same
  asked_times-trace client (suc k) w v same =
      asked_times-trace client k (asked account client w) (asked account client v)
        (ap (λ tr. asked_balance client account ∷ tr) same)

  pub Answers-trace :
      (client : String) (x : ℤ) (enough : Bool) (w v : World p)
      → w.trace ≡ v.trace
      → Answers account client x enough v
      → Answers account client x enough w
  Answers-trace client x enough w v same (b, reply, test) =
      (b, ap (λ tr. p.balance_at tr client account) same ∙ reply, test)
