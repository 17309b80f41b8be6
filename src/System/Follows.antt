-- ===== src/System/Follows.antt =====
-- How steps follow from the parts that a call is made of.
use party_bridge.Base.{String, Bool, true, false, Option, none, some, ◌≡◌, refl, if◌then◌else◌}
use party_bridge.Platform.{Platform, Event, Result, ok, err}
use party_bridge.Exec.{
  World, Exec, Outcome, Crash, ret, fail, crash, pure, throw, die, gets, lift, or_die, emit, check,
  check_nil, on_error, fatal, when, continue, rescue, or_else, or_return, ◌>>=◌, ◌>>◌,
}
use party_bridge.System.{
  is_request, Anything, Step, effect, ask, memory, update, remove, set_aside, unlock_all, book,
  charge, Steps, stay, more,
}

module _ {p : Platform} where
  module _ {asks : String → Type 0} where
    pub Steps-append : {w v u : World p} → Steps asks w v → Steps asks v u → Steps asks w u
    Steps-append s stay = s
    Steps-append s (more t step) = more (Steps-append s t) step

    pub one : {w v : World p} → Step asks w v → Steps asks w v
    one s = more stay s

  -- A part may also ask for more.
  module _ {asks asks' : String → Type 0} (all : (text : String) → asks text → asks' text) where
    Step-map : {w v : World p} → Step asks w v → Step asks' w v
    Step-map (effect event other) = effect event other
    Step-map (ask url text asked) = ask url text (all text asked)
    Step-map (memory clients heap) = memory clients heap
    Step-map (update r h) = update r h
    Step-map (remove id) = remove id
    Step-map (set_aside r h) = set_aside r h
    Step-map (unlock_all e) = unlock_all e
    Step-map (book awrr h) = book awrr h
    Step-map (charge id x) = charge id x

    pub Steps-map : {w v : World p} → Steps asks w v → Steps asks' w v
    Steps-map stay = stay
    Steps-map (more steps step) = more (Steps-map steps) (Step-map step)

  pub Steps-any : {asks : String → Type 0} {w v : World p} → Steps asks w v → Steps Anything w v
  Steps-any steps = Steps-map (λ text asked. tt) steps

  -- What holds before steps still holds after them.
  abbrev pub IsStable : (World p → Type 0) → Type 0
  IsStable P = (w v : World p) → Steps Anything w v → P w → P v

  -- Where `P` holds, the call comes to steps, however it ends.
  pub record Follows (asks : String → Type 0) (P : World p → Type 0) {A : Type 0} (m : Exec p A)
      : Type 0 where
    pub at : (w : World p) → P w → Steps asks w (m w).1

  module _ {asks : String → Type 0} {P : World p → Type 0} where
    pub Follows-emit : (event : Event) → is_request event ≡ false → Follows asks P (emit event)
    Follows-emit event other = record { at = λ w h. one (effect event other) }

    pub Follows-check : (e : Option String) → Follows asks P (check e)
    Follows-check none = record { at = λ w h. stay }
    Follows-check (some e) = record { at = λ w h. stay }

    pub Follows-fatal : (e : Option String) → Follows asks P (fatal e)
    Follows-fatal none = record { at = λ w h. stay }
    Follows-fatal (some e) = record { at = λ w h. stay }

    pub Follows-when :
        (b : Bool) {m : Exec p (Unit {0})} → Follows asks P m → Follows asks P (when b m)
    Follows-when true f = f
    Follows-when false f = record { at = λ w h. stay }

    module _ {A : Type 0} where
      pub Follows-pure : (a : A) → Follows asks P (pure a)
      Follows-pure a = record { at = λ w h. stay }

      pub Follows-throw : (e : String) → Follows asks P (throw {A = A} e)
      Follows-throw e = record { at = λ w h. stay }

      pub Follows-die : (c : Crash) → Follows asks P (die {A = A} c)
      Follows-die c = record { at = λ w h. stay }

      pub Follows-gets : (f : World p → A) → Follows asks P (gets f)
      Follows-gets f = record { at = λ w h. stay }

      pub Follows-lift : (r : Result A) → Follows asks P (lift r)
      Follows-lift (ok a) = record { at = λ w h. stay }
      Follows-lift (err e) = record { at = λ w h. stay }

      pub Follows-or_die : (c : Crash) (a : Option A) → Follows asks P (or_die c a)
      Follows-or_die c none = record { at = λ w h. stay }
      Follows-or_die c (some a) = record { at = λ w h. stay }

      pub Follows-check_nil : (a : Option A) (e : String) → Follows asks P (check_nil a e)
      Follows-check_nil none e = record { at = λ w h. stay }
      Follows-check_nil (some a) e = record { at = λ w h. stay }

      pub Follows-if :
          (b : Bool) {m n : Exec p A}
          → Follows asks P m
          → Follows asks P n
          → Follows asks P (if b then m else n)
      Follows-if true f g = f
      Follows-if false f g = g

      pub Follows-on_error :
          (e : Option String) {k : String → Exec p A} {m : Exec p A}
          → ((bad : String) → Follows asks P (k bad))
          → Follows asks P m
          → Follows asks P (on_error e k m)
      Follows-on_error none f g = g
      Follows-on_error (some bad) f g = f bad

      pub Follows-or_return :
          (d : A) {m : Exec p A} → Follows asks P m → Follows asks P (or_return d m)
      Follows-or_return d f = record { at = λ w h. f.at w h }

    -- the rest may use the equation of what was lifted
    pub Follows-bind_lift :
        {A B : Type 0} (x : Result A) {f : A → Exec p B}
        → ((a : A) → x ≡ ok a → Follows asks P (f a))
        → Follows asks P (lift x >>= f)
    Follows-bind_lift (err e) k = record { at = λ w h. stay }
    Follows-bind_lift (ok a) k = record { at = λ w h. (k a refl).at w h }

    pub Follows-bind_or_die :
        {A B : Type 0} (c : Crash) (x : Option A) {f : A → Exec p B}
        → ((a : A) → x ≡ some a → Follows asks P (f a))
        → Follows asks P (or_die c x >>= f)
    Follows-bind_or_die c none k = record { at = λ w h. stay }
    Follows-bind_or_die c (some a) k = record { at = λ w h. (k a refl).at w h }

    module _ (stable : IsStable P) where
      module _ {A B : Type 0} where
        Follows-continue :
            {f : A → Exec p B} (o : Outcome A)
            → ((a : A) → Follows asks P (f a))
            → Follows asks P (continue o f)
        Follows-continue (ret a) g = g a
        Follows-continue (fail e) g = record { at = λ w h. stay }
        Follows-continue (crash c) g = record { at = λ w h. stay }

        pub Follows-bind :
            {m : Exec p A} {f : A → Exec p B}
            → Follows asks P m
            → ((a : A) → Follows asks P (f a))
            → Follows asks P (m >>= f)
        Follows-bind {m} g k = record {
          at = λ w h.
              let first = g.at w h in
              Steps-append first
                ((Follows-continue (m w).0 k).at (m w).1 (stable w (m w).1 (Steps-any first) h));
        }

        -- the rest may use what holds of every value that the first part returns
        pub Follows-bind_value :
            {m : Exec p A} {f : A → Exec p B} (Q : A → Type 0)
            → Follows asks P m
            → ((w : World p) (a : A) → P w → (m w).0 ≡ ret a → Q a)
            → ((a : A) → Q a → Follows asks P (f a))
            → Follows asks P (m >>= f)
        Follows-bind_value {m} {f} Q g holds k = record {
          at = λ w h.
              let first = g.at w h in
              Steps-append first
                (go (m w).0 (m w).1 (stable w (m w).1 (Steps-any first) h) (λ a e. holds w a h e));
        }
          where
            go :
                (o : Outcome A) (v : World p)
                → P v
                → ((a : A) → o ≡ ret a → Q a)
                → Steps asks v (continue o f v).1
            go (ret a) v h q = (k a (q a refl)).at v h
            go (fail e) v h q = stay
            go (crash c) v h q = stay

        pub Follows-then :
            {m : Exec p A} {n : Exec p B}
            → Follows asks P m
            → Follows asks P n
            → Follows asks P (m >> n)
        Follows-then {m} g k = record {
          at = λ w h.
              let first = g.at w h in
              Steps-append first (
                (Follows-continue (m w).0 (λ a. k)).at (m w).1
                  (stable w (m w).1 (Steps-any first) h));
        }

      Follows-rescue :
          {k : String → Exec p (Unit {0})} (o : Outcome (Unit {0}))
          → ((e : String) → Follows asks P (k e))
          → Follows asks P (rescue o k)
      Follows-rescue (ret a) g = record { at = λ w h. stay }
      Follows-rescue (fail e) g = g e
      Follows-rescue (crash c) g = record { at = λ w h. stay }

      pub Follows-or_else :
          {m : Exec p (Unit {0})} {k : String → Exec p (Unit {0})}
          → Follows asks P m
          → ((e : String) → Follows asks P (k e))
          → Follows asks P (or_else m k)
      Follows-or_else {m} g k = record {
        at = λ w h.
            let first = g.at w h in
            Steps-append first
              ((Follows-rescue (m w).0 k).at (m w).1 (stable w (m w).1 (Steps-any first) h));
      }
