-- ===== src/Watch/Rounds.antt =====
-- pkg/evm.go: the loop of a watch through ticks at which nothing is decided.
use party_bridge.Base.{ℕ, zero, suc, ◌<◌, List, ◌∷◌, ◌≡◌, refl, arith}
use party_bridge.Platform.{Platform}
use party_bridge.Exec.{World, Exec, ret}
use party_bridge.Watch.{Wake, Verdict, watch_loop}

-- `n` ticks, and then `rest`
abbrev pub ticks : ℕ → List Wake → List Wake
ticks zero rest = rest
ticks (suc n) rest = Wake.tick ∷ ticks n rest

-- `f`, `n` times, from the first on
abbrev pub times {ℓ} : {A : Type ℓ} → (A → A) → ℕ → A → A
times f zero a = a
times f (suc n) a = times f n (f a)

module _ {p : Platform} (see : Exec p Verdict) (after : World p → World p)
    (pay expire : Exec p (Unit {0})) where
  pub watch_loop-ticks :
      (n : ℕ) (rest : List Wake) (w : World p)
      → ((k : ℕ) → k < n → see (times after k w) ≡ (ret Verdict.again, after (times after k w)))
      → watch_loop see pay expire (ticks n rest) w
        ≡ watch_loop see pay expire rest (times after n w)
  unfolding watch_loop
  watch_loop-ticks zero rest w low = refl
  watch_loop-ticks (suc n) rest w low =
      rw (low 0 (omega arith))
        (watch_loop-ticks n rest (after w) (λ k h. low (suc k) (omega arith)))
