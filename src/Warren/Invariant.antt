-- ===== src/Warren/Invariant.antt =====
-- pkg/adapter.go: what holds of every pod in every state that the service reaches.
use mathlib.Core.Path.{subst}
use party_bridge.Base.{
  ℕ, ◌≤◌, false, List, [], ◌∷◌, ◌++◌, ◌≡◌, refl, ap, inl, inr, arith, length, length-append, All,
  All-append, Bool-cases, ◌==◌,
}
use party_bridge.Types.{AccountWatchRequest}
use party_bridge.Platform.{Platform}
use party_bridge.Server.{ExchangeServer}
use party_bridge.Exec.{World, Outcome, ret, fail, crash, pure, continue, recover}
use party_bridge.Store.Requests.{retrieve_account_watch_requests_from_db}
use party_bridge.Warren.{warren, start_warren_tick}
use party_bridge.Warren.Laws.{unlocked, warren-unlocked, unlocked_skip, unlocked_keep}
use party_bridge.Warren.Service.{
  Pod, Move, tick, send, receive, begin, cancel, stop_worker, stop_loop, Service, Step, pick, other,
  Reach, here, next, new_service,
}

abbrev pub IsUnlocked : AccountWatchRequest → Type 0
IsUnlocked r = r.locked ≡ false

-- The channel keeps its capacity, there are no more workers than were started, and what is sent,
-- received and started on was not locked when it was read.
pub record IsSound (cpus : ℕ) (pod : Pod) : Type 0 where
  pub fits : length pod.channel ≤ cpus
  pub staffed : pod.workers ≤ cpus
  pub sends_unlocked : All IsUnlocked pod.sending
  pub holds_unlocked : All IsUnlocked pod.channel
  pub starts_unlocked : All IsUnlocked pod.started

pub unlocked-All : (rs : List AccountWatchRequest) → All IsUnlocked (unlocked rs)
unlocked-All [] = tt
unlocked-All (r ∷ rs) = elim (Bool-cases r.locked) [
  | inl l ↦ rw (unlocked_skip r rs l) (unlocked-All rs)
  | inr l ↦ rw (unlocked_keep r rs l) (l, unlocked-All rs)
]

All-remove :
    (before after : List AccountWatchRequest) (r : AccountWatchRequest)
    → All IsUnlocked (before ++ r ∷ after)
    → All IsUnlocked (before ++ after)
All-remove [] after r h = h.1
All-remove (b ∷ before) after r h = (h.0, All-remove before after r h.1)

module _ {p : Platform} where
  -- the end of a tick, from what the store tells
  sent-All :
      (r : Outcome (List AccountWatchRequest) × World p) {sent : List AccountWatchRequest}
      {w : World p}
      → (let (o, v) = continue r.0 (λ awr. pure (warren awr)) r.1 in
          let result : Outcome (List AccountWatchRequest) × World p = (recover [] o, v) in result)
        ≡ (ret sent, w)
      → All IsUnlocked sent
  sent-All (ret rs, v) {sent} e =
      let same : unlocked rs ≡ sent = cc (warren-unlocked rs, e) in rw (← same) (unlocked-All rs)
  sent-All (fail m, v) {sent} e = let same : [] ≡ sent = cc e in rw (← same) tt
  sent-All (crash c, v) e = cc

  tick-All :
      (w : World p) {sent : List AccountWatchRequest} {w' : World p}
      → start_warren_tick w ≡ (ret sent, w')
      → All IsUnlocked sent
  unfolding start_warren_tick
  tick-All w e = sent-All (retrieve_account_watch_requests_from_db w) e

  module _ (cpus : ℕ) where
    Move-IsSound :
        {w w' : World p} {pod pod' : Pod}
        → Move cpus w pod w' pod'
        → IsSound cpus pod
        → IsSound cpus pod'
    Move-IsSound {w} (tick a b e) s = record {
      fits = s.fits;
      staffed = s.staffed;
      sends_unlocked = tick-All w e;
      holds_unlocked = s.holds_unlocked;
      starts_unlocked = s.starts_unlocked;
    }
    Move-IsSound {pod = pod} (send {r} {rest} e h) s =
        let sends : All IsUnlocked (r ∷ rest) = subst (All IsUnlocked) e s.sends_unlocked in
        record {
          fits = omega (arith, length-append pod.channel (r ∷ []));
          staffed = s.staffed;
          sends_unlocked = sends.1;
          holds_unlocked =
              All-append IsUnlocked pod.channel (r ∷ []) s.holds_unlocked (sends.0, tt);
          starts_unlocked = s.starts_unlocked;
        }
    Move-IsSound (receive r {rest} h e) s =
        let holds : All IsUnlocked (r ∷ rest) = subst (All IsUnlocked) e s.holds_unlocked in
        record {
          fits = omega (arith, s.fits, ap length e);
          staffed = s.staffed;
          sends_unlocked = s.sends_unlocked;
          holds_unlocked = holds.1;
          starts_unlocked = simp holds.0 (refl, s.starts_unlocked);
        }
    Move-IsSound (begin r before after e h) s = record {
      fits = s.fits;
      staffed = s.staffed;
      sends_unlocked = s.sends_unlocked;
      holds_unlocked = s.holds_unlocked;
      starts_unlocked = All-remove before after r (subst (All IsUnlocked) e s.starts_unlocked);
    }
    Move-IsSound cancel s = record {
      fits = s.fits;
      staffed = s.staffed;
      sends_unlocked = s.sends_unlocked;
      holds_unlocked = s.holds_unlocked;
      starts_unlocked = s.starts_unlocked;
    }
    Move-IsSound (stop_worker {k} a e) s = record {
      fits = s.fits;
      staffed = omega (arith, s.staffed, e);
      sends_unlocked = s.sends_unlocked;
      holds_unlocked = s.holds_unlocked;
      starts_unlocked = s.starts_unlocked;
    }
    Move-IsSound (stop_loop a e) s = record {
      fits = s.fits;
      staffed = s.staffed;
      sends_unlocked = s.sends_unlocked;
      holds_unlocked = s.holds_unlocked;
      starts_unlocked = s.starts_unlocked;
    }

  abbrev pub IsServiceSound : ℕ → Service p → Type 0
  IsServiceSound cpus s = (i : ℕ) → IsSound cpus (s.pods i)

  Step-IsSound :
      (cpus : ℕ) {s t : Service p} → Step cpus s t → IsServiceSound cpus s → IsServiceSound cpus t
  Step-IsSound cpus (pick i {pod = pod} m) h j = elim (Bool-cases (i == j)) [
    | inl e ↦ rw e (Move-IsSound cpus m (h i))
    | inr e ↦ rw e (h j)
  ]
  Step-IsSound cpus (other w) h j = h j

  -- Take a pod for each number, all just started with `cpus` workers each, over any store, and any
  -- steps that they take, interleaved with each other and with any change of the world: the loop
  -- ticks and sends, workers receive and stop, watches store their lock, signals come. In every
  -- state that is reached, every pod's channel holds at most `cpus` requests, no more than `cpus`
  -- workers run, and no request that is being sent, stands in the channel, or has a watch started
  -- but not yet locked, was locked when it was read.
  pub Reach-IsSound :
      (cpus : ℕ) (servers : ℕ → ExchangeServer) (w : World p) {s : Service p}
      → Reach cpus (new_service cpus servers w) s
      → IsServiceSound cpus s
  Reach-IsSound cpus servers w here i = record {
    fits = omega arith;
    staffed = omega arith;
    sends_unlocked = tt;
    holds_unlocked = tt;
    starts_unlocked = tt;
  }
  Reach-IsSound cpus servers w (next r st) i =
      Step-IsSound cpus st (Reach-IsSound cpus servers w r) i
