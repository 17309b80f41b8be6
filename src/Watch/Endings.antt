-- ===== src/Watch/Endings.antt =====
-- pkg/evm.go and pkg/bscusdt.go: every watch ends by its timeout.
use party_bridge.Base.{List, [], ◌∷◌}
use party_bridge.Platform.{Platform}
use party_bridge.Exec.{World, Exec, Outcome, ret, fail, crash, pure, continue, ◌>>◌}
use party_bridge.Watch.Bsc.{Wake as BscWake, watch_loop_bsc}
use party_bridge.Watch.{Wake, Watching, Verdict, watch_loop, follow}

-- Among the wakes there is one by the timer.
abbrev pub TimesOut : List Wake → Type 0
TimesOut [] = ⊥
TimesOut (Wake.tick ∷ rest) = TimesOut rest
TimesOut (Wake.timeout ∷ rest) = Unit

abbrev pub BscTimesOut : List BscWake → Type 0
BscTimesOut [] = ⊥
BscTimesOut (BscWake.tick ∷ rest) = BscTimesOut rest
BscTimesOut (BscWake.timeout ∷ rest) = Unit
BscTimesOut (BscWake.cancelled ∷ rest) = Unit

-- The call is over: it did not stop for lack of wakes.
abbrev pub IsOver : Outcome Watching → Type 0
IsOver (ret Watching.waiting) = ⊥
IsOver outcome = Unit

module _ {p : Platform} where
  pub finish-IsOver :
      (m : Exec p (Unit {0})) (w : World p) → IsOver ((m >> pure Watching.returned) w).0
  finish-IsOver m w = go (m w)
    where
      go :
          (r : Outcome (Unit {0}) × World p)
          → IsOver (continue {B = Watching} r.0 (λ u. pure Watching.returned) r.1).0
      go (ret a, v) = tt
      go (fail e, v) = tt
      go (crash c, v) = tt

  -- what follows a look is over if the rest of the loop is
  follow-IsOver :
      (pay : Exec p (Unit {0})) (rest : Exec p Watching)
      → ((v : World p) → IsOver (rest v).0)
      → (r : Outcome Verdict × World p) → IsOver (continue r.0 (λ v. follow v pay rest) r.1).0
  follow-IsOver pay rest over (ret Verdict.again, v) = over v
  follow-IsOver pay rest over (ret Verdict.stop, v) = tt
  follow-IsOver pay rest over (ret Verdict.paid, v) = finish-IsOver pay v
  follow-IsOver pay rest over (fail e, v) = tt
  follow-IsOver pay rest over (crash c, v) = tt

  module _ (see : Exec p Verdict) (pay expire : Exec p (Unit {0})) where
    pub watch_loop-IsOver :
        (wakes : List Wake) (w : World p)
        → TimesOut wakes
        → IsOver (watch_loop see pay expire wakes w).0
    unfolding watch_loop
    watch_loop-IsOver [] w h = absurd h
    watch_loop-IsOver (Wake.timeout ∷ rest) w h = finish-IsOver expire w
    watch_loop-IsOver (Wake.tick ∷ rest) w h =
        follow-IsOver pay (watch_loop see pay expire rest) (λ v. watch_loop-IsOver rest v h) (see w)

    pub watch_loop_bsc-IsOver :
        (wakes : List BscWake) (w : World p)
        → BscTimesOut wakes
        → IsOver (watch_loop_bsc see pay expire wakes w).0
    unfolding watch_loop_bsc
    watch_loop_bsc-IsOver [] w h = absurd h
    watch_loop_bsc-IsOver (BscWake.timeout ∷ rest) w h = finish-IsOver expire w
    watch_loop_bsc-IsOver (BscWake.cancelled ∷ rest) w h = finish-IsOver expire w
    watch_loop_bsc-IsOver (BscWake.tick ∷ rest) w h =
        follow-IsOver pay (watch_loop_bsc see pay expire rest) (λ v. watch_loop_bsc-IsOver rest v h)
          (see w)
