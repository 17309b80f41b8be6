-- ===== src/Warren/Service.antt =====
-- pkg/adapter.go: `StartWarren`, `Warren`, `warrenWorker` and the start of `watchAccount` on several
-- pods over one Redis, a step at a time. The trace lists the effects of all pods; the sessions and
-- the heap play no part here.
use party_bridge.Base.{
  ℕ, suc, ◌<◌, Bool, true, false, List, [], ◌∷◌, ◌++◌, ◌≡◌, length, ◌==◌, if◌then◌else◌,
}
use party_bridge.Types.{AccountWatchRequest}
use party_bridge.Platform.{Platform}
use party_bridge.Server.{ExchangeServer}
use party_bridge.Exec.{World, ret}
use party_bridge.WatchAccount.{begin_watch}
use party_bridge.Warren.{start_warren_tick}

pub record Pod : Type 0 where
  pub server : ExchangeServer
  -- the context of `Start` is cancelled; the loop of `StartWarren` goes on
  pub cancelled : Bool
  pub looping : Bool
  -- what the loop of `Warren` has still to send, and what `warrenChan` holds
  pub sending : List AccountWatchRequest
  pub channel : List AccountWatchRequest
  -- the workers that have not returned
  pub workers : ℕ
  -- the calls of `watchAccount` that have not stored their lock, and those that have
  pub started : List AccountWatchRequest
  pub watching : List AccountWatchRequest

-- One step of one pod; `cpus` is `runtime.NumCPU()`.
pub data Move {p : Platform} (cpus : ℕ) (w : World p) (pod : Pod) : World p → Pod → Type 0 where
  -- the ticker fires while the loop waits for it
  tick :
      {sent : List AccountWatchRequest} {w' : World p}
      → pod.looping ≡ true
      → pod.sending ≡ []
      → start_warren_tick w ≡ (ret sent, w')
      → Move cpus w pod w' (record pod { sending = sent })
  -- `e.warrenChan <- request`, when there is room
  send :
      {r : AccountWatchRequest} {rest : List AccountWatchRequest}
      → pod.sending ≡ r ∷ rest
      → length pod.channel < cpus
      → Move cpus w pod w (record pod { sending = rest; channel = pod.channel ++ r ∷ [] })
  -- a worker receives a request, and starts a watch unless it is locked
  receive :
      (r : AccountWatchRequest) {rest : List AccountWatchRequest}
      → 0 < pod.workers
      → pod.channel ≡ r ∷ rest
      → Move cpus w pod w (record pod {
        channel = rest;
        started = if r.locked then pod.started else r ∷ pod.started;
      })
  -- one of the watches that were started stores its lock
  begin :
      (r : AccountWatchRequest) (before after : List AccountWatchRequest)
      {locked : AccountWatchRequest} {w' : World p}
      → pod.started ≡ before ++ r ∷ after
      → begin_watch pod.server r w ≡ (ret locked, w')
      → Move cpus w pod w'
          (record pod { started = before ++ after; watching = locked ∷ pod.watching })
  -- a signal
  cancel : Move cpus w pod w (record pod { cancelled = true })
  -- a worker or the loop sees that the context is done
  stop_worker :
      {k : ℕ}
      → pod.cancelled ≡ true
      → pod.workers ≡ suc k
      → Move cpus w pod w (record pod { workers = k })
  stop_loop :
      pod.cancelled ≡ true → pod.sending ≡ [] → Move cpus w pod w (record pod { looping = false })

pub record Service (p : Platform) : Type 0 where
  pub world : World p
  pub pods : ℕ → Pod

abbrev pub update : (ℕ → Pod) → ℕ → Pod → ℕ → Pod
update pods i pod j = if i == j then pod else pods j

pub data Step {p : Platform} (cpus : ℕ) (s : Service p) : Service p → Type 0 where
  pick :
      (i : ℕ) {w : World p} {pod : Pod}
      → Move cpus s.world (s.pods i) w pod
      → Step cpus s (record { world = w; pods = update s.pods i pod })
  -- anything that the sessions, the watches and other programs do
  other : (w : World p) → Step cpus s (record { world = w; pods = s.pods })

-- The states that steps lead to.
pub data Reach {p : Platform} (cpus : ℕ) (s : Service p) : Service p → Type 0 where
  here : Reach cpus s s
  next : {t u : Service p} → Reach cpus s t → Step cpus t u → Reach cpus s u

-- `StartWarren` has just been called.
abbrev pub new_pod : ℕ → ExchangeServer → Pod
new_pod cpus e = record {
  server = e;
  cancelled = false;
  looping = true;
  sending = [];
  channel = [];
  workers = cpus;
  started = [];
  watching = [];
}

abbrev pub new_service : {p : Platform} → ℕ → (ℕ → ExchangeServer) → World p → Service p
new_service cpus servers w = record { world = w; pods = λ i. new_pod cpus (servers i) }
