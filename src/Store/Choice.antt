-- ===== src/Store/Choice.antt =====
-- pkg/redis.go: what `closest` and `retrieveBridgeAccount` return, on every branch.
use party_bridge.Base.{
  ℕ, ◌-◌, ◌≤◌, ◌<◌, true, false, none, some, List, [], ◌≡◌, refl, ◌∙◌, inl, inr, arith, length,
  get_elem?, keep_if, All, All-get_elem?, get_elem?_of_lt, lt_of_get_elem?, get_elem?-keep_if, ◌==◌,
  Bool-cases, ==_iff, if◌then◌else◌,
}
use party_bridge.Base.Int.{ℤ, ◌-ℤ◌, leb_ℤ, leb_ℤ→≤ℤ, leb_ℤ_false→≤ℤ}
use party_bridge.Types.{BridgeStorage, AssistedTradeOrderInformation, AccountWatchRequestResult}
use party_bridge.Platform.{Platform}
use party_bridge.Exec.{World, Crash, ret, crash}
use party_bridge.Store.{bridge_accounts}
use party_bridge.Store.Accounts.{reaches, closest, choose, is_candidate, retrieve_bridge_account}
use party_bridge.Store.Search.{search}
use party_bridge.Store.Nearest.{
  search-IsTurn, value_of, value_at_lem, IsFunded, IsSorted, IsNearest, Picks, reach, reaches-reach,
  Picks-nearest,
}
use party_bridge.Store.Tables.{Tables, Represents, load_ret}

module _ {p : Platform} (accounts : List BridgeStorage) (t : ℤ) (funded : All IsFunded accounts)
    (w : World p) where
  closest_between :
      (i : ℕ) {l r : BridgeStorage}
      → (i == 0) ≡ false
      → (i == length accounts) ≡ false
      → get_elem? accounts (i - 1) ≡ some l
      → get_elem? accounts i ≡ some r
      → closest accounts (some t) i w
        ≡ (ret (if leb_ℤ (t -ℤ value_of l) (value_of r -ℤ t) then l else r), w)
  unfolding closest
  closest_between i {l} {r} more inside el er = rw more (
      rw inside (
        rw el (
          rw er (
            rw (All-get_elem? IsFunded accounts (i - 1) l funded el)
              (rw (All-get_elem? IsFunded accounts i r funded er) refl)))))

  -- The index is in range, and the choice is an end of the list or a neighbour of the index.
  closest_lem :
      (i : ℕ)
      → i ≤ length accounts
      → 0 < length accounts
      → (k : ℕ) × (a : BridgeStorage) × (get_elem? accounts k ≡ some a)
        × (closest accounts (some t) i w ≡ (ret a, w))
        × Picks accounts t funded i k
  unfolding closest
  closest_lem i le ne = elim (Bool-cases (i == 0)) [
    | inl first ↦
        let (a, e) = get_elem?_of_lt accounts 0 ne in
        (0, a, e, rw first (rw e refl), inl ((==_iff i 0).0 first, refl))
    | inr more ↦ elim (Bool-cases (i == length accounts)) [
      | inl last ↦
          let (a, e) = get_elem?_of_lt accounts (i - 1) (ground arith) in
          (i - 1, a, e, rw more (rw last (rw e refl)), inr (inl (ground arith, ground arith)))
      | inr inside ↦
          let (l, el) = get_elem?_of_lt accounts (i - 1) (ground arith) in
          let (r, er) = get_elem?_of_lt accounts i (ground arith) in
          elim (Bool-cases (leb_ℤ (t -ℤ value_of l) (value_of r -ℤ t))) [
            | inl low ↦ (
              i - 1,
              l,
              el,
              closest_between i more inside el er ∙ rw low,
              inr (
                  inr (
                    inl (
                      ground arith,
                      ground arith,
                      rw (value_at_lem accounts (i - 1) el) (
                          rw (value_at_lem accounts i er)
                            (leb_ℤ→≤ℤ (t -ℤ value_of l) (value_of r -ℤ t) low)),
                    ))),
            )
            | inr high ↦ (
              i,
              r,
              er,
              closest_between i more inside el er ∙ rw high,
              inr (
                  inr (
                    inr (
                      ground arith,
                      refl,
                      ground arith,
                      rw (value_at_lem accounts (i - 1) el) (
                          rw (value_at_lem accounts i er)
                            (leb_ℤ_false→≤ℤ (t -ℤ value_of l) (value_of r -ℤ t) high)),
                    ))),
            )
          ]
    ]
  ]

module _ {p : Platform} (info : AssistedTradeOrderInformation) (accounts : List BridgeStorage)
    (t : ℤ) (wanted : info.amount ≡ some t) (funded : All IsFunded accounts)
    (ne : 0 < length accounts) (w : World p) where
  -- The account is one of the list.
  choose_lem :
      (k : ℕ) × (a : BridgeStorage) × (get_elem? accounts k ≡ some a)
      × (choose info accounts w ≡ (ret a, w))
      × (IsSorted accounts → IsNearest accounts t a)
  unfolding choose
  choose_lem =
      let (i, found, turn) =
        search-IsTurn (reaches (some t) accounts) (reach accounts t funded) (length accounts)
          (reaches-reach accounts t funded) in
      let (k, a, e, run, pick) = closest_lem accounts t funded w i turn.inside ne in
      (
        k,
        a,
        e,
        rw wanted (rw found run),
        λ sorted. record {
          at = k;
          found = e;
          nearest = λ j h. rw (← value_at_lem accounts k e) (
              Picks-nearest accounts t funded sorted turn k j (lt_of_get_elem? accounts k a e) pick
                h);
        },
      )

==_false : (n : ℕ) → 0 < n → (n == 0) ≡ false
==_false n h = ground arith

lt_of_lt : (j : ℕ) {n : ℕ} → j < n → 0 < n
lt_of_lt j h = omega arith

module _ {p : Platform} (awrr : AccountWatchRequestResult) {w : World p} {tables : Tables}
    (held : Represents w tables) where
  open awrr.account_watch_request use {amount, assisted_sell_order_information as info}

  -- the accounts that can pay
  abbrev pub candidates : List BridgeStorage
  candidates = keep_if (is_candidate info) tables.accounts

  pub retrieve_nothing :
      {v : ℤ}
      → amount ≡ some v
      → tables.accounts ≡ []
      → retrieve_bridge_account awrr w ≡ (ret none, w)
  unfolding retrieve_bridge_account
  retrieve_nothing e empty =
      simp e (rw (load_ret p.accounts_json [] bridge_accounts w held.accounts_held) (rw empty refl))

  -- With accounts in store but no candidate among them, the index is out of range.
  pub retrieve_crashes :
      {v : ℤ}
      → amount ≡ some v
      → 0 < length tables.accounts
      → candidates ≡ []
      → retrieve_bridge_account awrr w ≡ (crash Crash.out_of_range, w)
  unfolding retrieve_bridge_account closest search
  retrieve_crashes e ne none_fits = simp e (
      rw (load_ret p.accounts_json [] bridge_accounts w held.accounts_held)
        (rw (==_false (length tables.accounts) ne) (rw none_fits refl)))

  -- If the order has both its amounts, some account in store is a candidate and all candidates have
  -- amounts, the retrieval returns an account in store that is a candidate, changes nothing, and if
  -- the candidates are in ascending order no candidate's amount is nearer to the amount of the
  -- order.
  pub retrieve_candidate :
      {v t : ℤ}
      → amount ≡ some v
      → info.amount ≡ some t
      → 0 < length candidates
      → All IsFunded candidates
      → (j : ℕ) × (a : BridgeStorage) × (retrieve_bridge_account awrr w ≡ (ret (some a), w))
        × (get_elem? tables.accounts j ≡ some a)
        × (is_candidate info a ≡ true)
        × (IsSorted candidates → IsNearest candidates t a)
  unfolding retrieve_bridge_account
  retrieve_candidate {t = t} e wanted ne funded =
      let (k, a, at, run, near) = choose_lem info candidates t wanted funded ne w in
      let (fits, j, found) = get_elem?-keep_if (is_candidate info) tables.accounts k at in
      (
        j,
        a,
        simp e (
            rw (load_ret p.accounts_json [] bridge_accounts w held.accounts_held) (
              rw
                (==_false (length tables.accounts)
                  (lt_of_lt j (lt_of_get_elem? tables.accounts j a found)))
                (rw run refl))),
        found,
        fits,
        near,
      )
