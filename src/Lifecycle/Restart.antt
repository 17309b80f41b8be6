-- ===== src/Lifecycle/Restart.antt =====
-- pkg/adapter.go: a pod that shuts down, alone and at the end of `Start`, and the first tick of the
-- service after it.
use party_bridge.Base.{
  ℕ, zero, suc, String, true, false, Option, none, some, List, [], ◌∷◌, map, ◌≡◌, refl, inl, inr,
  get_elem?, Bool-cases,
}
use party_bridge.Base.Text.{str_eq}
use party_bridge.Types.{AccountWatchRequest}
use party_bridge.Platform.{Platform}
use party_bridge.Server.{ExchangeServer}
use party_bridge.Exec.{Exec, World, Outcome, Crash, ret, crash}
use party_bridge.Store.Requests.{unlock}
use party_bridge.Store.Tables.{Tables, IsWorking, Represents}
use party_bridge.Store.Refinement.{on_crash-Performs}
use party_bridge.Warren.{start_warren_tick}
use party_bridge.Warren.Laws.{unlocked, unlocked_skip, unlocked_keep, start_warren_tick_lem}
use party_bridge.Lifecycle.{start, panic_on, shutdown}

-- The request stands in the list.
abbrev pub IsIn : AccountWatchRequest → List AccountWatchRequest → Type 0
IsIn r rs = (k : ℕ) × (get_elem? rs k ≡ some r)

IsIn-cons :
    (x r : AccountWatchRequest) (rs : List AccountWatchRequest) → IsIn r rs → IsIn r (x ∷ rs)
IsIn-cons x r rs (k, h) = (suc k, h)

pub unlocked-IsIn :
    (rs : List AccountWatchRequest) (k : ℕ) {r : AccountWatchRequest}
    → get_elem? rs k ≡ some r
    → r.locked ≡ false
    → IsIn r (unlocked rs)
unlocked-IsIn [] k h l = absurd (cc h)
unlocked-IsIn (x ∷ rs) zero {r} h l =
    let same : x ≡ r = cc h in rw same (rw (unlocked_keep r rs l) (zero, refl))
unlocked-IsIn (x ∷ rs) (suc k) {r} h l =
    let rest : IsIn r (unlocked rs) = unlocked-IsIn rs k h l in
    elim (Bool-cases x.locked) [
      | inl e ↦ rw (unlocked_skip x rs e) rest
      | inr e ↦ rw (unlocked_keep x rs e) (IsIn-cons x r (unlocked rs) rest)
    ]

map-get_elem? :
    (f : AccountWatchRequest → AccountWatchRequest) (rs : List AccountWatchRequest) (k : ℕ)
    {r : AccountWatchRequest}
    → get_elem? rs k ≡ some r
    → get_elem? (map f rs) k ≡ some (f r)
map-get_elem? f [] k h = absurd (cc h)
map-get_elem? f (x ∷ rs) zero h = cc
map-get_elem? f (x ∷ rs) (suc k) h = map-get_elem? f rs k h

-- what `shutdown` comes to, by the error of the HTTP server
abbrev pub stopped : Option String → Outcome (Unit {0})
stopped none = ret tt
stopped (some e) = crash Crash.panicked

panic_on_lem :
    {p : Platform} (e : ExchangeServer) (error : Option String) (w : World p)
    → panic_on e error w ≡ (stopped error, w)
panic_on_lem e none w = refl
panic_on_lem e (some error) w = refl

module _ {p : Platform} (works : IsWorking p) (e : ExchangeServer) {w : World p} {t : Tables}
    (held : Represents w t) where
  -- If Redis works and the stored request `r` is held by this pod, `shutdown` runs to its end (a
  -- panic if the HTTP server does not stop, and else a return), and the next tick of any pod then
  -- sends `r`, unlocked and held by no pod, to its workers.
  pub shutdown-resumes :
      (server_error : Option String) (k : ℕ) {r : AccountWatchRequest}
      → get_elem? t.requests k ≡ some r
      → str_eq r.locked_by e.pod_name ≡ true
      → (after : World p) × (sent : List AccountWatchRequest) × (shutdown e server_error w
          ≡ (stopped server_error, after))
        × (start_warren_tick after ≡ (ret sent, after))
        × IsIn (unlock e.pod_name r) sent
  unfolding shutdown unlock
  shutdown-resumes server_error k {r} at ours =
      let done = on_crash-Performs works held e in
      (
        done.after,
        unlocked (map (unlock e.pod_name) t.requests),
        rw done.runs (panic_on_lem e server_error done.after),
        start_warren_tick_lem done.represents,
        unlocked-IsIn (map (unlock e.pod_name) t.requests) k
            (map-get_elem? (unlock e.pod_name) t.requests k at) (rw ours refl),
      )

  -- If Redis works, the certificate loads, what runs until the signal returns, and the store then
  -- holds the request `r` as one that this pod has locked, then, if `StartWarren` has run by then,
  -- `start` goes on to the end of `shutdown` (a panic if the HTTP server does not stop, and else a
  -- return), and the next tick after that sends `r`, unlocked and held by no pod, to the workers.
  -- If `StartWarren` has not run, `start` dies on a nil pointer, and the store is as it was.
  pub start-resumes :
      (serve : Exec p (Unit {0})) (w0 : World p) (server_error : Option String) (k : ℕ)
      {r : AccountWatchRequest}
      → p.load_key_pair w0.trace e.ssl_crt_location e.server_ssl_key_file_path ≡ none
      → serve w0 ≡ (ret tt, w)
      → get_elem? t.requests k ≡ some r
      → str_eq r.locked_by e.pod_name ≡ true
      → ((after : World p) × (sent : List AccountWatchRequest) × (start e serve true server_error w0
            ≡ (stopped server_error, after))
          × (start_warren_tick after ≡ (ret sent, after))
          × IsIn (unlock e.pod_name r) sent)
        × (start e serve false server_error w0 ≡ (crash Crash.nil_dereference, w))
  unfolding start
  start-resumes serve w0 server_error k loads served at ours =
      let (after, sent, run, tick, found) = shutdown-resumes server_error k at ours in
      ((after, sent, rw loads (rw served run), tick, found), rw loads (rw served refl))
