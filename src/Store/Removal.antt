-- ===== src/Store/Removal.antt =====
-- pkg/redis.go: the removal loop of `removeAccountWatchRequestFromDB`, against a plain filter.
use party_bridge.Base.{
  ℕ, suc, ◌+◌, ◌-◌, String, true, false, not, some, List, [], ◌∷◌, ◌++◌, ◌≡◌, refl, sym, ◌∙◌, arith,
  length, get_elem?, take, drop, keep_if, ltb, All, All-append, All-drop, length-drop,
  length-append, get_elem?-append, take-append, drop-append, take-length, inl, inr, Bool-cases,
}
use mathlib.Core.List.{append_assoc, append-nil}
use native.Mathlib.Nat.{add-zero}
use party_bridge.Base.Text.{str_eq}
use party_bridge.Types.{AccountWatchRequest}
use party_bridge.Store.Requests.{remove_loop}

module _ (id : String) where
  abbrev pub IsOther : AccountWatchRequest → Type 0
  IsOther r = str_eq r.transaction_id id ≡ false

  remove_loop_other :
      (k i n : ℕ) (array : List AccountWatchRequest) {r : AccountWatchRequest}
      → get_elem? array i ≡ some r
      → IsOther r
      → remove_loop id (suc k) i array n ≡ remove_loop id k (i + 1) array n
  unfolding remove_loop
  remove_loop_other k i n array e h = rw (e, remove_loop) (rw (h, remove_loop) refl)

  remove_loop_hit :
      (k i n : ℕ) (array : List AccountWatchRequest) {r : AccountWatchRequest}
      → get_elem? array i ≡ some r
      → str_eq r.transaction_id id ≡ true
      → ltb i n ≡ true
      → remove_loop id (suc k) i array n
        ≡ remove_loop id k
            (i + 1)
            (take i array ++ (drop (i + 1) (take n array) ++ drop (n - 1) array))
            (n - 1)
  unfolding remove_loop
  remove_loop_hit k i n array e h l =
      rw (e, remove_loop) (rw (h, remove_loop) (rw (l, remove_loop) refl))

  -- Cells that hold other requests change nothing.
  remove_loop-All-IsOther :
      (pre mid suf : List AccountWatchRequest) (n : ℕ)
      → All IsOther mid
      → remove_loop id (length mid) (length pre) (pre ++ (mid ++ suf)) n
        ≡ some (take n (pre ++ (mid ++ suf)))
  unfolding remove_loop
  remove_loop-All-IsOther pre [] suf n h = refl
  remove_loop-All-IsOther pre (r ∷ mid) suf n h =
      remove_loop_other (length mid) (length pre) n (pre ++ r ∷ (mid ++ suf))
        (get_elem?-append pre (mid ++ suf) r) h.0
      ∙ rw (← append_assoc pre (r ∷ []) (mid ++ suf)) (
          rw (sym (length-append pre (r ∷ [])))
            (remove_loop-All-IsOther (pre ++ r ∷ []) mid suf n h.1))

  -- At most one request carries the id.
  abbrev pub IsUnique : List AccountWatchRequest → Type 0
  IsUnique [] = Unit
  IsUnique (r ∷ rs) = (str_eq r.transaction_id id ≡ true → All IsOther rs) × IsUnique rs

  abbrev pub others : List AccountWatchRequest → List AccountWatchRequest
  others = keep_if (λ r. not (str_eq r.transaction_id id))

  pub others-All-IsOther : (rs : List AccountWatchRequest) → All IsOther rs → others rs ≡ rs
  others-All-IsOther [] h = refl
  others-All-IsOther (r ∷ rs) h = ground (arith, others-All-IsOther rs h.1)

  last_index :
      (pre : List AccountWatchRequest) (r : AccountWatchRequest) (rest : List AccountWatchRequest)
      → length (pre ++ r ∷ rest) - 1 ≡ length pre + length rest
  last_index pre r rest = omega (arith, length-append pre (r ∷ rest))

  -- The array after the cell that holds `r` was deleted: the last cell is there twice.
  delete_array :
      (pre : List AccountWatchRequest) (r : AccountWatchRequest) (rest : List AccountWatchRequest)
      → let array = pre ++ r ∷ rest in
        take (length pre) array
          ++ (drop (length pre + 1) (take (length array) array) ++ drop (length array - 1) array)
        ≡ pre ++ (rest ++ drop (length rest) (r ∷ rest))
  delete_array pre r rest = rw (take-length (pre ++ r ∷ rest)) (
      rw (take-append pre (r ∷ rest)) (
        rw (drop-append 1 pre (r ∷ rest))
          (rw (last_index pre r rest) (rw (drop-append (length rest) pre (r ∷ rest)) refl))))

  -- The rounds after a hit meet the cells that moved down, and the last one once more.
  remove_loop_after :
      (pre : List AccountWatchRequest) (r : AccountWatchRequest) (rest : List AccountWatchRequest)
      → All IsOther rest
      → remove_loop id
          (length rest)
          (length pre + 1)
          (pre ++ (rest ++ drop (length rest) (r ∷ rest)))
          (length pre + length rest)
        ≡ some (pre ++ rest)
  unfolding remove_loop
  remove_loop_after pre r [] h = simp (add-zero, append-nil) (rw (take-append pre (r ∷ [])))
  remove_loop_after pre r (y ∷ q) h = cc (
    rounds,
    length-append pre (y ∷ []),
    reassociated,
    taken,
    remove_loop-All-IsOther (pre ++ y ∷ []) (q ++ repeated) [] (length pre + suc (length q))
        (All-append IsOther q repeated h.1 (All-drop IsOther (length q) (y ∷ q) h)),
  )
    where
      repeated : List AccountWatchRequest
      repeated = drop (length q) (y ∷ q)

      rounds : length (q ++ repeated) ≡ suc (length q)
      rounds = omega (arith, length-append q repeated, length-drop (length q) (y ∷ q))

      reassociated : (pre ++ y ∷ []) ++ ((q ++ repeated) ++ []) ≡ pre ++ y ∷ (q ++ repeated)
      reassociated = simp (append-nil, append_assoc)

      taken : take (length pre + suc (length q)) (pre ++ y ∷ (q ++ repeated)) ≡ pre ++ y ∷ q
      taken =
          rw (← append_assoc pre (y ∷ q) repeated)
            (rw (sym (length-append pre (y ∷ q))) (take-append (pre ++ y ∷ q) repeated))

  others_hit :
      (r : AccountWatchRequest) (rs : List AccountWatchRequest)
      → str_eq r.transaction_id id ≡ true
      → others (r ∷ rs) ≡ others rs
  others_hit r rs h = ground arith

  others_miss :
      (r : AccountWatchRequest) (rs : List AccountWatchRequest)
      → IsOther r
      → others (r ∷ rs) ≡ r ∷ others rs
  others_miss r rs h = ground arith

  remove_loop_from :
      (pre rest : List AccountWatchRequest)
      → IsUnique rest
      → remove_loop id (length rest) (length pre) (pre ++ rest) (length (pre ++ rest))
        ≡ some (pre ++ others rest)
  unfolding remove_loop
  remove_loop_from pre [] u = rw (take-length (pre ++ []))
  remove_loop_from pre (r ∷ rest) u = elim (Bool-cases (str_eq r.transaction_id id)) [
    | inl hit ↦
        remove_loop_hit (length rest) (length pre) (length array) array here hit
          (ground (arith, length-append pre (r ∷ rest)))
        ∙ cc (
          delete_array pre r rest,
          last_index pre r rest,
          remove_loop_after pre r rest (u.0 hit),
          others_hit r rest hit,
          others-All-IsOther rest (u.0 hit),
        )
    | inr miss ↦
        remove_loop_other (length rest) (length pre) (length array) array here miss
        ∙ cc (
          length-append pre (r ∷ []),
          append_assoc pre (r ∷ []) rest,
          append_assoc pre (r ∷ []) (others rest),
          others_miss r rest miss,
          remove_loop_from (pre ++ r ∷ []) rest u.1,
        )
  ]
    where
      array : List AccountWatchRequest
      array = pre ++ r ∷ rest

      here : get_elem? array (length pre) ≡ some r
      here = get_elem?-append pre rest r

  -- On a list in which at most one request has the id, the loop that deletes from the slice it
  -- ranges over does not run out of range, and leaves exactly the requests with other ids, in
  -- order.
  pub remove_loop-eq-others :
      (rs : List AccountWatchRequest)
      → IsUnique rs
      → remove_loop id (length rs) 0 rs (length rs) ≡ some (others rs)
  remove_loop-eq-others rs u = remove_loop_from [] rs u
