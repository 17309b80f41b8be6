-- ===== src/Store/Nearest.antt =====
-- pkg/redis.go: the account that `retrieveBridgeAccount` chooses.
use party_bridge.Base.{
  ℕ, zero, suc, ◌+◌, ◌-◌, ◌/◌, ◌≤◌, ◌<◌, Bool, true, false, Option, none, some, List, ◌≡◌, refl,
  sym, ◌∙◌, ap, inl, inr, ◌⊎◌, arith, length, get_elem?, All, All-get_elem?, get_elem?_of_lt, ltb,
  leb, Bool-cases,
}
use native.Mathlib.Nat.{le_trans}
use party_bridge.Base.Int.{
  ℤ, pos, ◌-ℤ◌, ◌≤ℤ◌, geb_ℤ, dist, dist_above, dist_below, dist_low, dist_high, geb_ℤ→≤ℤ,
  geb_ℤ_false→≤ℤ,
}
use party_bridge.Types.{BridgeStorage}
use party_bridge.Store.Search.{search_loop, search}
use party_bridge.Store.Accounts.{reaches}

-- `r` is an index of 0..n where a test turns from false to true, or an end of the range.
pub record IsTurn (g : ℕ → Bool) (n r : ℕ) : Type 0 where
  pub inside : r ≤ n
  pub below : 0 < r → g (r - 1) ≡ false
  pub above : r < n → g r ≡ true

stop-IsTurn :
    (g : ℕ → Bool) (n i j : ℕ)
    → i ≡ j
    → j ≤ n
    → (0 < i → g (i - 1) ≡ false)
    → (j < n → g j ≡ true)
    → IsTurn g n i
stop-IsTurn g n i j e jn lo hi = record {
  inside = omega arith;
  below = lo;
  above = λ h. rw e (hi (omega arith));
}

module _ (f : ℕ → Option Bool) (fuel i j : ℕ) (more : ltb i j ≡ true) where
  search_loop_right :
      f ((i + j) / 2) ≡ some false
      → search_loop f (suc fuel) i j ≡ search_loop f fuel ((i + j) / 2 + 1) j
  unfolding search_loop
  search_loop_right e = rw (more, search_loop) (rw (e, search_loop) refl)

  search_loop_left :
      f ((i + j) / 2) ≡ some true
      → search_loop f (suc fuel) i j ≡ search_loop f fuel i ((i + j) / 2)
  unfolding search_loop
  search_loop_left e = rw (more, search_loop) (rw (e, search_loop) refl)

module _ (f : ℕ → Option Bool) (g : ℕ → Bool) (n : ℕ)
    (total : (i : ℕ) → i < n → f i ≡ some (g i)) where
  search_loop-IsTurn :
      (fuel i j : ℕ)
      → i ≤ j
      → j ≤ n
      → j ≤ i + fuel
      → (0 < i → g (i - 1) ≡ false)
      → (j < n → g j ≡ true)
      → (r : ℕ) × (search_loop f fuel i j ≡ some r) × IsTurn g n r
  unfolding search_loop
  search_loop-IsTurn zero i j ij jn enough lo hi =
      (i, refl, stop-IsTurn g n i j (omega arith) jn lo hi)
  search_loop-IsTurn (suc fuel) i j ij jn enough lo hi = elim (Bool-cases (ltb i j)) [
    | inr done ↦ (i, rw (done, search_loop) refl, stop-IsTurn g n i j (ground arith) jn lo hi)
    | inl more ↦ elim (Bool-cases (g ((i + j) / 2))) [
      | inr low ↦
          let (r, e, turn) =
            search_loop-IsTurn fuel ((i + j) / 2 + 1) j (ground arith) jn (ground arith)
              (λ h. rw (before (i + j)) low) hi in
          (
            r,
            search_loop_right f fuel i j more (total _ (ground arith) ∙ ap (λ b. some b) low) ∙ e,
            turn,
          )
      | inl high ↦
          let (r, e, turn) =
            search_loop-IsTurn fuel i ((i + j) / 2) (ground arith) (ground arith) (ground arith) lo
              (λ h. high) in
          (
            r,
            search_loop_left f fuel i j more (total _ (ground arith) ∙ ap (λ b. some b) high) ∙ e,
            turn,
          )
    ]
  ]
    where
      before : (k : ℕ) → k / 2 + 1 - 1 ≡ k / 2
      before k = omega arith

  -- Whatever the test, the search ends within `n` rounds, at an index where it turns.
  pub search-IsTurn : (r : ℕ) × (search n f ≡ some r) × IsTurn g n r
  unfolding search
  search-IsTurn =
      search_loop-IsTurn n 0 n (omega arith) (omega arith) (omega arith) (λ h. absurd (omega arith))
        (λ h. absurd (omega arith))

abbrev pub value_of : BridgeStorage → ℤ
value_of a = elim a.amount [ none ↦ pos 0 | some x ↦ x ]

-- The account has an amount.
abbrev pub IsFunded : BridgeStorage → Type 0
IsFunded a = a.amount ≡ some (value_of a)

-- The amount at an index; every use stands under a bound.
abbrev pub value_at : List BridgeStorage → ℕ → ℤ
value_at accounts i = elim (get_elem? accounts i) [ none ↦ pos 0 | some a ↦ value_of a ]

pub value_at_lem :
    (accounts : List BridgeStorage) (i : ℕ) {a : BridgeStorage}
    → get_elem? accounts i ≡ some a
    → value_at accounts i ≡ value_of a
value_at_lem accounts i e = rw (e, value_at)

abbrev pub IsSorted : List BridgeStorage → Type 0
IsSorted accounts =
    (i j : ℕ) → i ≤ j → j < length accounts → value_at accounts i ≤ℤ value_at accounts j

module _ (accounts : List BridgeStorage) (t : ℤ) (funded : All IsFunded accounts) where
  -- the test of the search
  abbrev pub reach : ℕ → Bool
  reach i = geb_ℤ (value_at accounts i) t

  pub reaches-reach : (i : ℕ) → i < length accounts → reaches (some t) accounts i ≡ some (reach i)
  unfolding reaches
  reaches-reach i h =
      let (a, e) = get_elem?_of_lt accounts i h in
      rw (e, reaches)
        (rw (All-get_elem? IsFunded accounts i a funded e)
          (ap (λ v. some (geb_ℤ v t)) (sym (value_at_lem accounts i e))))

  -- what the choice between the neighbours rests on
  abbrev pub Picks : ℕ → ℕ → Type 0
  Picks i k =
      ((i ≡ 0) × (k ≡ 0))
      ⊎ ((i ≡ length accounts) × (k + 1 ≡ i))
      ⊎ ((i < length accounts)
          × (k + 1 ≡ i)
          × (t -ℤ value_at accounts k ≤ℤ value_at accounts i -ℤ t))
      ⊎ ((0 < i)
          × (k ≡ i)
          × (k < length accounts)
          × (value_at accounts k -ℤ t ≤ℤ t -ℤ value_at accounts (k - 1)))

  -- What the search says of the amounts on its two sides.
  module _ (sorted : IsSorted accounts) {i : ℕ} (turn : IsTurn reach (length accounts) i) where
    under : (j : ℕ) → j < i → value_at accounts j ≤ℤ t
    under j h = omega (
      arith,
      turn.inside,
      sorted j (i - 1) (omega arith) (omega (arith, turn.inside)),
      geb_ℤ_false→≤ℤ (value_at accounts (i - 1)) t (turn.below (omega arith)),
    )

    over : (j : ℕ) → i ≤ j → j < length accounts → t ≤ℤ value_at accounts j
    over j h l =
        omega (arith, sorted i j h l, geb_ℤ→≤ℤ (value_at accounts i) t (turn.above (omega arith)))

    pub Picks-nearest :
        (k j : ℕ)
        → k < length accounts
        → Picks i k
        → j < length accounts
        → dist (value_at accounts k) t ≤ dist (value_at accounts j) t
    Picks-nearest k j kn (inl (p, q)) h =
        dist_above _ _ t (over k (omega arith) kn) (sorted k j (omega arith) h)
    Picks-nearest k j kn (inr (inl (p, q))) h =
        dist_below _ _ t (under k (omega arith)) (sorted j k (omega arith) kn)
    Picks-nearest k j kn (inr (inr (inl (p, q, r)))) h = elim (Bool-cases (leb j k)) [
      | inl le ↦ dist_below _ _ t (under k (omega arith)) (sorted j k (ground arith) kn)
      | inr gt ↦
          le_trans (dist_low _ _ t (under k (omega arith)) (over i (omega arith) p) r)
            (dist_above _ _ t (over i (omega arith) p) (sorted i j (ground arith) h))
    ]
    Picks-nearest k j kn (inr (inr (inr (p, q, l, r)))) h = elim (Bool-cases (leb i j)) [
      | inl le ↦ dist_above _ _ t (over k (omega arith) l) (sorted k j (ground arith) h)
      | inr gt ↦
          le_trans (dist_high _ _ t (under (k - 1) (omega arith)) (over k (omega arith) l) r) (
            dist_below _ _ t (under (k - 1) (omega arith))
              (sorted j (k - 1) (ground arith) (omega arith)))
    ]

-- A member of the list whose amount is nearest to `t`.
pub record IsNearest (accounts : List BridgeStorage) (t : ℤ) (a : BridgeStorage) : Type 0 where
  pub at : ℕ
  pub found : get_elem? accounts at ≡ some a
  pub nearest : (j : ℕ) → j < length accounts → dist (value_of a) t ≤ dist (value_at accounts j) t
