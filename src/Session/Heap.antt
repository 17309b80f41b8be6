-- ===== src/Session/Heap.antt =====
-- pkg/adapter.go: the `big.Int` values that a message and its session share.
use party_bridge.Base.{zero, suc, Option, none, some, List, [], ◌∷◌, ◌++◌, length, get_elem?}
use party_bridge.Base.Int.{ℤ}
use party_bridge.Platform.{Platform}
use party_bridge.Exec.{Outcome, Exec, Pointer, pure, gets, deref, ◌>>=◌}

-- the cell of the heap at this place
abbrev pub set_cell : List ℤ → Pointer → ℤ → List ℤ
set_cell [] i x = []
set_cell (y ∷ ys) zero x = x ∷ ys
set_cell (y ∷ ys) (suc i) x = y ∷ set_cell ys i x

module _ {p : Platform} where
  -- `new(big.Int)` with a value
  unfoldable pub place : ℤ → Exec p Pointer
  place x = do
    at ← gets (λ w. length w.heap)
    (λ w. (Outcome.ret at, record w { heap = w.heap ++ x ∷ [] }))

  unfoldable pub place_amount : Option ℤ → Exec p (Option Pointer)
  unfolding place
  place_amount none = pure none
  place_amount (some x) = do at ← place x; pure (some at)

  unfoldable pub read : Pointer → Exec p ℤ
  read at = do heap ← gets (λ w. w.heap); deref (get_elem? heap at)

  unfoldable pub write : Pointer → ℤ → Exec p (Unit {0})
  write at x w = (Outcome.ret tt, record w { heap = set_cell w.heap at x })

  -- the value of an amount that may be nil
  unfoldable pub read_amount : Option Pointer → Exec p (Option ℤ)
  unfolding read
  read_amount none = pure none
  read_amount (some at) = do x ← read at; pure (some x)
