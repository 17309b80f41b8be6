-- ===== src/Exec.antt =====
-- The state of one exchange server as its methods see it, and the effects of a Go call: it
-- returns, it returns an error, or the process dies. What was done before stays done.
use party_bridge.Base.{ℕ, String, Bool, Option, none, some, List, ◌∷◌, get_elem?, if◌then◌else◌}
use party_bridge.Base.Int.{ℤ}
use party_bridge.Types.{BridgeRequest}
use party_bridge.Platform.{Platform, Event, Result, ok, err}

-- How the process dies: a nil pointer, an index or a slice out of range, the stack, or
-- `os.Exit(1)` (also by `log.Fatal`), or a `panic` of the program's own.
pub data Crash : Type 0 where
  nil_dereference out_of_range stack_overflow exit panicked : Crash

pub data Outcome {ℓ} (A : Type ℓ) : Type ℓ where
  ret : A → Outcome A
  fail : String → Outcome A
  crash : Crash → Outcome A

-- A pointer to a `big.Int` that structs share: its place in the heap.
abbrev pub Pointer : Type 0
Pointer = ℕ

-- `WebSocketClient`; the connection is known by the session's id.
pub record WebSocketClient : Type 0 where
  pub sid : String
  pub acc : Option ℕ
  pub request : BridgeRequest Pointer

-- `trace` holds the effects so far, the last one first.
pub record World (p : Platform) : Type 0 where
  pub db : p.Db
  pub trace : List Event
  pub ws_clients : List (String × WebSocketClient)
  pub heap : List ℤ

abbrev pub Exec : Platform → Type 0 → Type 0
Exec p A = World p → Outcome A × World p

module _ {p : Platform} {A : Type 0} where
  abbrev pub pure : A → Exec p A
  pure a w = (ret a, w)

  -- `return err`
  abbrev pub throw : String → Exec p A
  throw e w = (fail e, w)

  abbrev pub die : Crash → Exec p A
  die c w = (crash c, w)

  abbrev pub gets : (World p → A) → Exec p A
  gets f w = (ret (f w), w)

  -- `x, err := …; if err != nil { return err }`
  abbrev pub lift : Result A → Exec p A
  lift (ok a) w = (ret a, w)
  lift (err e) w = (fail e, w)

  -- `none` is a panic of this kind
  abbrev pub or_die : Crash → Option A → Exec p A
  or_die c none w = (crash c, w)
  or_die c (some a) w = (ret a, w)

  -- a dereference
  abbrev pub deref : Option A → Exec p A
  deref = or_die Crash.nil_dereference

  -- `a[i]`
  abbrev pub index : List A → ℕ → Exec p A
  index xs i = or_die Crash.out_of_range (get_elem? xs i)

module _ {p : Platform} where
  abbrev pub emit : Event → Exec p (Unit {0})
  emit e w = (ret tt, record w { trace = e ∷ w.trace })

  -- `if err := …; err != nil { return err }`
  abbrev pub check : Option String → Exec p (Unit {0})
  check none w = (ret tt, w)
  check (some e) w = (fail e, w)

  -- `if x == nil { return errors.New(e) }`
  abbrev pub check_nil : {A : Type 0} → Option A → String → Exec p (Unit {0})
  check_nil none e w = (fail e, w)
  check_nil (some a) e w = (ret tt, w)

  -- `if err != nil { k }`, where `k` returns, and then `m`
  abbrev pub on_error : {A : Type 0} → Option String → (String → Exec p A) → Exec p A → Exec p A
  on_error none k m w = m w
  on_error (some e) k m w = k e w

  -- `if err != nil { log.Fatal(err) }`
  abbrev pub fatal : Option String → Exec p (Unit {0})
  fatal none w = (ret tt, w)
  fatal (some e) w = (crash Crash.exit, w)

  -- `if test { … }` with no other branch
  abbrev pub when : Bool → Exec p (Unit {0}) → Exec p (Unit {0})
  when b m w = if b then m w else (ret tt, w)

module _ {p : Platform} {A B : Type 0} where
  abbrev pub continue : Outcome A → (A → Exec p B) → Exec p B
  continue (ret a) f w = f a w
  continue (fail e) f w = (fail e, w)
  continue (crash c) f w = (crash c, w)

  infixl 5 ◌>>=◌ ◌>>◌
  abbrev pub ◌>>=◌ : Exec p A → (A → Exec p B) → Exec p B
  ◌>>=◌ m f w = let (r, w') = m w in continue r f w'

  abbrev pub ◌>>◌ : Exec p A → Exec p B → Exec p B
  ◌>>◌ m k w = let (r, w') = m w in continue r (λ _. k) w'

module _ {p : Platform} where
  abbrev pub rescue : Outcome (Unit {0}) → (String → Exec p (Unit {0})) → Exec p (Unit {0})
  rescue (ret a) k w = (ret a, w)
  rescue (fail e) k w = k e w
  rescue (crash c) k w = (crash c, w)

  -- `if err := m(); err != nil { k }`
  abbrev pub or_else : Exec p (Unit {0}) → (String → Exec p (Unit {0})) → Exec p (Unit {0})
  or_else m k w = let (r, w') = m w in rescue r k w'

-- `x, err := m(); if err != nil { return }`, where returning is the outcome `d`
abbrev pub recover {ℓ} : {A : Type ℓ} → A → Outcome A → Outcome A
recover d (ret a) = ret a
recover d (fail e) = ret d
recover d (crash c) = crash c

abbrev pub or_return : {p : Platform} {A : Type 0} → A → Exec p A → Exec p A
or_return d m w = let (r, w') = m w in (recover d r, w')
