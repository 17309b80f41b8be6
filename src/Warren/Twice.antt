-- ===== src/Warren/Twice.antt =====
-- pkg/adapter.go: one request that two pods start to watch.
use mathlib.Core.Path.{subst}
use party_bridge.Base.{
  ℕ, ◌<◌, true, false, List, [], ◌∷◌, ◌++◌, ◌≡◌, refl, sym, ◌∙◌, ap, arith, length, All, ◌==◌,
  if◌then◌else◌,
}
use party_bridge.Types.{AccountWatchRequest}
use party_bridge.Platform.{Platform}
use party_bridge.Exec.{World, ret}
use party_bridge.Store.Tables.{Tables, Represents}
use party_bridge.Warren.{start_warren_tick}
use party_bridge.Warren.Laws.{unlocked, start_warren_tick_lem}
use party_bridge.Warren.Invariant.{IsUnlocked, unlocked-All}
use party_bridge.Warren.Service.{
  Pod, Move, tick, send, receive, Service, update, pick, Reach, here, next,
}

-- Waiting for the next tick, with a worker.
pub record IsFree (pod : Pod) : Type 0 where
  pub loops : pod.looping ≡ true
  pub nothing_to_send : pod.sending ≡ []
  pub empty_channel : pod.channel ≡ []
  pub has_worker : 0 < pod.workers

==_refl : (i : ℕ) → (i == i) ≡ true
==_refl i = ground arith

==_sym : (i j : ℕ) → (i == j) ≡ false → (j == i) ≡ false
==_sym i j h = ground arith

update_self : (pods : ℕ → Pod) (i : ℕ) (pod : Pod) → update pods i pod i ≡ pod
update_self pods i pod = rw (==_refl i) refl

update_other :
    (pods : ℕ → Pod) (i j : ℕ) (pod : Pod) → (i == j) ≡ false → update pods i pod j ≡ pods j
update_other pods i j pod h = rw h refl

-- the request was read as one that is not locked
first-unlocked :
    (rs : List AccountWatchRequest) {r : AccountWatchRequest} {rest : List AccountWatchRequest}
    → unlocked rs ≡ r ∷ rest
    → r.locked ≡ false
first-unlocked rs {r} {rest} e =
    let both : All IsUnlocked (r ∷ rest) = subst (All IsUnlocked) e (unlocked-All rs) in both.0

abbrev moved : {p : Platform} → Service p → ℕ → World p → Pod → Service p
moved t i w pod = record { world = w; pods = update t.pods i pod }

module _ {p : Platform} (cpus : ℕ) where
  Reach-append : {s t u : Service p} → Reach cpus s t → Reach cpus t u → Reach cpus s u
  Reach-append r here = r
  Reach-append r (next q st) = next (Reach-append r q) st

  advance :
      {s t : Service p} {w : World p} (i : ℕ) (pod pod' : Pod)
      → Reach cpus s t
      → t.pods i ≡ pod
      → Move cpus t.world pod w pod'
      → Reach cpus s (moved t i w pod')
  advance {t = t} {w = w} i pod pod' r e m =
      next r (pick i (subst (λ q. Move cpus t.world q w pod') (sym e) m))

  -- The pod has started a watch on the request; the world and the other pods are as they were.
  pub record Starts (s : Service p) (i : ℕ) (r : AccountWatchRequest) : Type 0 where
    pub later : Service p
    pub reached : Reach cpus s later
    pub same_world : later.world ≡ s.world
    pub started : (later.pods i).started ≡ r ∷ (s.pods i).started
    pub others : (k : ℕ) → (i == k) ≡ false → later.pods k ≡ s.pods k

  pod-Starts :
      (s : Service p) (i : ℕ) {t : Tables} {r : AccountWatchRequest}
      {rest : List AccountWatchRequest}
      → 0 < cpus
      → Represents s.world t
      → unlocked t.requests ≡ r ∷ rest
      → IsFree (s.pods i)
      → Starts s i r
  pod-Starts s i {t} {r} {rest} room held first free =
      let pod : Pod = s.pods i in
      let p1 : Pod = record pod { sending = r ∷ rest } in
      let p2 : Pod = record p1 { sending = rest; channel = pod.channel ++ r ∷ [] } in
      let p3 : Pod = record p2 {
        channel = [];
        started = if r.locked then pod.started else r ∷ pod.started;
      } in
      let s1 : Service p = moved s i s.world p1 in
      let s2 : Service p = moved s1 i s.world p2 in
      let s3 : Service p = moved s2 i s.world p3 in
      let ticked : start_warren_tick s.world ≡ (ret (r ∷ rest), s.world) =
        start_warren_tick_lem held ∙ rw first refl in
      let has_room : length p1.channel < cpus = omega (arith, ap length free.empty_channel) in
      let one : p2.channel ≡ r ∷ [] = ap (λ c. c ++ r ∷ []) free.empty_channel in
      let r1 : Reach cpus s s1 =
        advance i pod p1 here refl (tick free.loops free.nothing_to_send ticked) in
      let r2 : Reach cpus s s2 =
        advance i p1 p2 r1 (update_self s.pods i p1) (send refl has_room) in
      record {
        later = s3;
        reached = advance i p2 p3 r2 (update_self s1.pods i p2) (receive r free.has_worker one);
        same_world = refl;
        started =
            ap (λ q. q.started) (update_self s2.pods i p3)
            ∙ rw (first-unlocked t.requests first) refl;
        others = λ k h.
            update_other s2.pods i k p3 h
            ∙ (update_other s1.pods i k p2 h ∙ update_other s.pods i k p1 h);
      }

  -- If the store holds the tables `t`, `r` is the first request in them that is not locked, and two
  -- pods wait for their next tick with nothing to send, an empty channel and a worker, then there
  -- are steps after which both have started a watch on `r`, with the store as it was: nothing keeps
  -- two pods off one request before the lock of one is stored.
  pub two_pods_start :
      (s : Service p) (i j : ℕ) {t : Tables} {r : AccountWatchRequest}
      {rest : List AccountWatchRequest}
      → (i == j) ≡ false
      → 0 < cpus
      → Represents s.world t
      → unlocked t.requests ≡ r ∷ rest
      → IsFree (s.pods i)
      → IsFree (s.pods j)
      → (later : Service p) × Reach cpus s later
        × (later.world ≡ s.world)
        × ((later.pods i).started ≡ r ∷ (s.pods i).started)
        × ((later.pods j).started ≡ r ∷ (s.pods j).started)
  two_pods_start s i j {t} {r} apart room held first free free' =
      let one = pod-Starts s i room held first free in
      let two =
        pod-Starts one.later j {t = t} room (subst (λ v. Represents v t) (sym one.same_world) held)
          first (subst IsFree (sym (one.others j apart)) free') in
      (
        two.later,
        Reach-append one.reached two.reached,
        two.same_world ∙ one.same_world,
        ap (λ q. q.started) (two.others i (==_sym i j apart)) ∙ one.started,
        two.started ∙ ap (λ q. r ∷ q.started) (one.others j apart),
      )
