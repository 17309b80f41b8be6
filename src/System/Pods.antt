-- ===== src/System/Pods.antt =====
-- pkg/adapter.go `StartWarren`, `Warren` and `warrenWorker` on several pods, over one Redis that the
-- whole program uses: between two moves of the pods come steps of the sessions and the watches.
use party_bridge.Base.{
  ℕ, true, false, List, [], ◌∷◌, ◌++◌, ◌≡◌, refl, sym, ◌∙◌, ap, All, All-append, ◌==◌,
  if◌then◌else◌,
}
use mathlib.Core.Path.{subst}
use party_bridge.Types.{AccountWatchRequest}
use party_bridge.Platform.{Platform, Event, read_clock}
use party_bridge.Server.{ExchangeServer}
use party_bridge.Exec.{World, ret, Outcome, fail, crash, pure, continue}
use party_bridge.Store.{account_watch_requests}
use party_bridge.Store.Requests.{retrieve_account_watch_requests_from_db}
use party_bridge.Store.Tables.{load_keeps}
use party_bridge.WatchAccount.{begin_watch}
use party_bridge.Warren.{warren, start_warren_tick}
use party_bridge.Warren.Service.{
  Pod, Move, tick, send, receive, begin, cancel, stop_worker, stop_loop, Service, new_pod,
  new_service, update as set_pod,
}
use party_bridge.System.{IsIssued, Anything, Step, Steps, stay, more}
use party_bridge.System.Growth.{Extends, Step-Grows}
use party_bridge.System.Follows.{one, Steps-any}
use party_bridge.System.Sound.{IsHonest, IsHonest-Extends, IsSound}
use party_bridge.System.Kept.{Steps-IsSound, All-IsIssued-Extends}
use party_bridge.System.Service.{sent-IsIssued}
use party_bridge.System.Workers.{lock-IsIssued, begin-Follows, begin-IsLock, begin-trace}

-- The states that moves of the pods and steps of the rest of the program lead to.
pub data Runs {p : Platform} (cpus : ℕ) (s : Service p) : Service p → Type 0 where
  rest : Runs cpus s s
  move :
      {t : Service p} (i : ℕ) {w : World p} {pod : Pod}
      → Runs cpus s t
      → Move cpus t.world (t.pods i) w pod
      → Runs cpus s (record { world = w; pods = set_pod t.pods i pod })
  elsewhere :
      {t : Service p} {w : World p}
      → Runs cpus s t
      → Step Anything t.world w
      → Runs cpus s (record { world = w; pods = t.pods })

-- any number of such steps
pub elsewhere_all :
    {p : Platform} {cpus : ℕ} {s t : Service p} {w : World p}
    → Runs cpus s t
    → Steps Anything t.world w
    → Runs cpus s (record { world = w; pods = t.pods })
elsewhere_all runs stay = runs
elsewhere_all runs (more steps step) = elsewhere (elsewhere_all runs steps) step

-- All requests in the hands of the pod were issued.
pub record HoldsIssued (p : Platform) (trace : List Event) (pod : Pod) : Type 0 where
  pub sends : All (IsIssued p trace) pod.sending
  pub holds : All (IsIssued p trace) pod.channel
  pub starts : All (IsIssued p trace) pod.started
  pub watches : All (IsIssued p trace) pod.watching

HoldsIssued-Extends :
    {p : Platform} {old trace : List Event} {pod : Pod}
    → Extends old trace
    → HoldsIssued p old pod
    → HoldsIssued p trace pod
HoldsIssued-Extends {p} grows h = record {
  sends = All-IsIssued-Extends p grows _ h.sends;
  holds = All-IsIssued-Extends p grows _ h.holds;
  starts = All-IsIssued-Extends p grows _ h.starts;
  watches = All-IsIssued-Extends p grows _ h.watches;
}

module _ {p : Platform} where
  -- a tick only reads
  tick_same : (w : World p) → (start_warren_tick w).1 ≡ w
  unfolding start_warren_tick retrieve_account_watch_requests_from_db
  tick_same w = rw (load_keeps p.requests_json [] account_watch_requests w) (go _)
    where
      go :
          (o : Outcome (List AccountWatchRequest))
          → (continue o (λ awr. pure {p = p} (warren awr)) w).1 ≡ w
      go (ret rs) = refl
      go (fail e) = refl
      go (crash c) = refl

  Move-Grows :
      {cpus : ℕ} {w w' : World p} {pod pod' : Pod}
      → Move cpus w pod w' pod'
      → Extends w.trace w'.trace
  Move-Grows {w = w} (tick a b e) =
      ([], ap (λ r. r.1.trace) (sym e) ∙ ap (λ v. v.trace) (tick_same w))
  Move-Grows (send e h) = ([], refl)
  Move-Grows (receive r h e) = ([], refl)
  Move-Grows {w = w} {pod = pod} (begin r before after e run) =
      (read_clock ∷ [], ap (λ o. o.1.trace) (sym run) ∙ begin-trace pod.server r w)
  Move-Grows cancel = ([], refl)
  Move-Grows (stop_worker a e) = ([], refl)
  Move-Grows (stop_loop a e) = ([], refl)

  All-one_less :
      {tr : List Event} (before after : List AccountWatchRequest) (r : AccountWatchRequest)
      → All (IsIssued p tr) (before ++ r ∷ after)
      → IsIssued p tr r × All (IsIssued p tr) (before ++ after)
  All-one_less [] after r h = h
  All-one_less (b ∷ before) after r h =
      let (here, others) = All-one_less before after r h.1 in (here, (h.0, others))

  module _ {cpus : ℕ} {w : World p} (sound : IsSound w) where
    Move-HoldsIssued :
        {w' : World p} {pod pod' : Pod}
        → Move cpus w pod w' pod'
        → HoldsIssued p w.trace pod
        → HoldsIssued p w'.trace pod'
    Move-HoldsIssued {w' = w'} {pod = pod} (tick {sent} a b e) h =
        let same : w'.trace ≡ w.trace =
          ap (λ r. r.1.trace) (sym e) ∙ ap (λ v. v.trace) (tick_same w) in
        rw same (record {
          sends = sent-IsIssued sound sent (ap (λ r. r.0) e);
          holds = h.holds;
          starts = h.starts;
          watches = h.watches;
        })
    Move-HoldsIssued {pod = pod} (send {r} {rest} e room) h =
        let sends : All (IsIssued p w.trace) (r ∷ rest) =
          subst (All (IsIssued p w.trace)) e h.sends in
        record {
          sends = sends.1;
          holds = All-append (IsIssued p w.trace) pod.channel (r ∷ []) h.holds (sends.0, tt);
          starts = h.starts;
          watches = h.watches;
        }
    Move-HoldsIssued {pod = pod} (receive r {rest} some_worker e) h =
        let holds : All (IsIssued p w.trace) (r ∷ rest) =
          subst (All (IsIssued p w.trace)) e h.holds in
        record {
          sends = h.sends;
          holds = holds.1;
          starts =
              elim r.locked
                as (λ b. All (IsIssued p w.trace) (if b then pod.started else r ∷ pod.started)) [
                  | true ↦ h.starts
                  | false ↦ (holds.0, h.starts)
                ];
          watches = h.watches;
        }
    Move-HoldsIssued {w' = w'} {pod = pod} (begin r before after {locked} e run) h =
        let starts : All (IsIssued p w.trace) (before ++ r ∷ after) =
          subst (All (IsIssued p w.trace)) e h.starts in
        let (issued, others) = All-one_less before after r starts in
        let (time, locks) = begin-IsLock pod.server r w locked issued (ap (λ o. o.0) run) in
        let begun : IsIssued p w.trace locked =
          subst (IsIssued p w.trace) (sym locks) (lock-IsIssued pod.server time issued) in
        HoldsIssued-Extends (Move-Grows {cpus = cpus} {pod = pod} (begin r before after e run))
          (record {
            sends = h.sends;
            holds = h.holds;
            starts = others;
            watches = (begun, h.watches);
          })
    Move-HoldsIssued cancel h = record {
      sends = h.sends;
      holds = h.holds;
      starts = h.starts;
      watches = h.watches;
    }
    Move-HoldsIssued (stop_worker a e) h = record {
      sends = h.sends;
      holds = h.holds;
      starts = h.starts;
      watches = h.watches;
    }
    Move-HoldsIssued (stop_loop a e) h = record {
      sends = h.sends;
      holds = h.holds;
      starts = h.starts;
      watches = h.watches;
    }

    -- a move leaves a sound state
    Move-IsSound :
        {w' : World p} {pod pod' : Pod}
        → Move cpus w pod w' pod'
        → IsHonest p w'.trace
        → HoldsIssued p w.trace pod
        → IsSound w'
    Move-IsSound (tick a b e) honest h =
        let same = ap (λ r. r.1) (sym e) ∙ tick_same w in subst IsSound (sym same) sound
    Move-IsSound (send e room) honest h = sound
    Move-IsSound (receive r some_worker e) honest h = sound
    Move-IsSound {w'} {pod} (begin r before after e run) honest h =
        let starts : All (IsIssued p w.trace) (before ++ r ∷ after) =
          subst (All (IsIssued p w.trace)) e h.starts in
        let same : (begin_watch pod.server r w).1 ≡ w' = ap (λ o. o.1) run in
        let steps : Steps Anything w w' =
          subst (Steps Anything w) same (
            Steps-any ((begin-Follows pod.server r).at w (All-one_less before after r starts).0)) in
        Steps-IsSound steps honest sound
    Move-IsSound cancel honest h = sound
    Move-IsSound (stop_worker a e) honest h = sound
    Move-IsSound (stop_loop a e) honest h = sound

  -- every pod holds issued requests only, and the store is sound
  pub record IsServiceSound (s : Service p) : Type 0 where
    pub sound : IsSound s.world
    pub issued : (i : ℕ) → HoldsIssued p s.world.trace (s.pods i)

  new-HoldsIssued :
      (cpus : ℕ) (e : ExchangeServer) (tr : List Event) → HoldsIssued p tr (new_pod cpus e)
  new-HoldsIssued cpus e tr = record { sends = tt; holds = tt; starts = tt; watches = tt }

  -- Take a pod for each number, all just started with `cpus` workers each, over a sound state, and
  -- any moves of the pods (the loop ticks and sends, workers receive and stop, watches store their
  -- lock, signals come) and steps of the rest of the program, interleaved with each other. If the
  -- outside is honest up to their end (a write stores the text under its key or changes nothing,
  -- JSON reads what it wrote, the ids that are drawn parse, and none is drawn twice), the state is
  -- sound again (as for steps of the program), and every request that a pod is sending, has in its
  -- channel, has started a watch on or has locked was issued: it is under two ids that were drawn
  -- for it one after the other, and has one amount to watch for and to bridge.
  pub Runs-IsServiceSound :
      (cpus : ℕ) (servers : ℕ → ExchangeServer) {w : World p} {s : Service p}
      → IsSound w
      → Runs cpus (new_service cpus servers w) s
      → IsHonest p s.world.trace
      → IsServiceSound s
  Runs-IsServiceSound cpus servers {w} start rest honest = record {
    sound = start;
    issued = λ i. new-HoldsIssued cpus (servers i) w.trace;
  }
  Runs-IsServiceSound cpus servers start (move {t} i {w = w'} {pod} runs m) honest =
      let before =
        Runs-IsServiceSound cpus servers start runs (IsHonest-Extends (Move-Grows m) honest) in
      record {
        sound = Move-IsSound before.sound m honest (before.issued i);
        issued = λ j. elim (i == j) as (λ b. HoldsIssued p w'.trace (if b then pod else t.pods j)) [
          | true ↦ Move-HoldsIssued before.sound m (before.issued i)
          | false ↦ HoldsIssued-Extends (Move-Grows m) (before.issued j)
        ];
      }
  Runs-IsServiceSound cpus servers start (elsewhere {t} {w = w'} runs step) honest =
      let sooner = IsHonest-Extends (Step-Grows step) honest in
      let before = Runs-IsServiceSound cpus servers start runs sooner in
      record {
        sound = Steps-IsSound (one step) honest before.sound;
        issued = λ j. HoldsIssued-Extends (Step-Grows step) (before.issued j);
      }
