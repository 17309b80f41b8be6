-- ===== src/Store/Search.antt =====
-- `sort.Search(n, f)`: the binary search of Go's library. `f` may panic, which `none` stands for.
use party_bridge.Base.{ℕ, zero, suc, ◌+◌, ◌/◌, Bool, true, false, Option, none, some, ltb}

module _ (f : ℕ → Option Bool) where
  -- `for i < j { h := (i + j) / 2; if !f(h) { i = h + 1 } else { j = h } }; return i`
  unfoldable pub search_loop : ℕ → ℕ → ℕ → Option ℕ
  search_loop zero i j = some i
  search_loop (suc fuel) i j = elim (ltb i j) [
    | false ↦ some i
    | true ↦ elim (f ((i + j) / 2)) [
      | none ↦ none
      | some false ↦ search_loop fuel ((i + j) / 2 + 1) j
      | some true ↦ search_loop fuel i ((i + j) / 2)
    ]
  ]

unfoldable pub search : ℕ → (ℕ → Option Bool) → Option ℕ
unfolding search_loop
search n f = search_loop f n 0 n
