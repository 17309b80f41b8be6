-- ===== src/System/Returns.antt =====
-- What holds of every value that a call returns.
use party_bridge.Base.{Bool, true, false, Option, none, some, refl, ◌≡◌, if◌then◌else◌}
use party_bridge.Platform.{Platform}
use party_bridge.Exec.{
  World, Exec, Outcome, ret, fail, crash, continue, recover, Crash, or_die, pure, or_return, ◌>>=◌,
  ◌>>◌,
}

-- What every value has that the call returns.
pub record Returns {p : Platform} {A : Type 0} (Q : A → Type 0) (m : Exec p A) : Type 0 where
  pub value : (w : World p) (a : A) → (m w).0 ≡ ret a → Q a

module _ {p : Platform} {A : Type 0} {Q : A → Type 0} where
  pub Returns-pure : (a : A) → Q a → Returns Q (pure {p = p} a)
  Returns-pure a q = record { value = λ w b e. let same : a ≡ b = cc e in rw (← same) q }

  pub Returns-if :
      (b : Bool) {m n : Exec p A} → Returns Q m → Returns Q n → Returns Q (if b then m else n)
  Returns-if true f g = f
  Returns-if false f g = g

  pub Returns-or_return : (d : A) {m : Exec p A} → Q d → Returns Q m → Returns Q (or_return d m)
  Returns-or_return d {m} q f = record { value = λ w a e. go (m w).0 (f.value w) a e }
    where
      go : (o : Outcome A) → ((a : A) → o ≡ ret a → Q a) → (a : A) → recover d o ≡ ret a → Q a
      go (ret x) h a e = h a e
      go (fail m) h a e = let same : d ≡ a = cc e in rw (← same) q
      go (crash c) h a e = absurd (cc e)

  module _ {B : Type 0} where
    Returns-continue :
        (o : Outcome B) {f : B → Exec p A} → ((b : B) → Returns Q (f b)) → Returns Q (continue o f)
    Returns-continue (ret b) k = k b
    Returns-continue (fail e) k = record { value = λ w a e. absurd (cc e) }
    Returns-continue (crash c) k = record { value = λ w a e. absurd (cc e) }

    pub Returns-bind :
        (m : Exec p B) {f : B → Exec p A} → ((b : B) → Returns Q (f b)) → Returns Q (m >>= f)
    Returns-bind m k = record { value = λ w. (Returns-continue (m w).0 k).value (m w).1 }

    Returns-continue_value :
        {R : B → Type 0} (o : Outcome B) {f : B → Exec p A}
        → ((b : B) → o ≡ ret b → R b)
        → ((b : B) → R b → Returns Q (f b))
        → Returns Q (continue o f)
    Returns-continue_value (ret b) r k = k b (r b refl)
    Returns-continue_value (fail e) r k = record { value = λ w a e. absurd (cc e) }
    Returns-continue_value (crash c) r k = record { value = λ w a e. absurd (cc e) }

    pub Returns-bind_value :
        {R : B → Type 0} {m : Exec p B} {f : B → Exec p A}
        → Returns R m
        → ((b : B) → R b → Returns Q (f b))
        → Returns Q (m >>= f)
    Returns-bind_value {m} r k = record {
      value = λ w. (Returns-continue_value (m w).0 (r.value w) k).value (m w).1;
    }

    pub Returns-then : (m : Exec p B) {n : Exec p A} → Returns Q n → Returns Q (m >> n)
    Returns-then m k = record { value = λ w. (Returns-continue (m w).0 (λ b. k)).value (m w).1 }

    pub Returns-bind_or_die :
        (c : Crash) (x : Option B) {f : B → Exec p A}
        → ((b : B) → x ≡ some b → Returns Q (f b))
        → Returns Q (or_die c x >>= f)
    Returns-bind_or_die c none k = record { value = λ w a e. absurd (cc e) }
    Returns-bind_or_die c (some b) k = record { value = λ w. (k b refl).value w }
