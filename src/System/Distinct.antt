-- ===== src/System/Distinct.antt =====
-- Lists in which no text stands twice.
use mathlib.Core.Path.{subst}
use party_bridge.Base.{
  String, Bool, true, false, List, [], ◌∷◌, ◌++◌, map, ◌≡◌, refl, sym, ap, arith, All, inl, inr,
  Bool-cases, if◌then◌else◌, any_of, replace_all, All-append, upsert, keep_if,
}
use party_bridge.Base.Text.{str_eq, str_eq→eq, str_eq_refl}
use party_bridge.Types.{AccountWatchRequest}
use party_bridge.Store.Removal.{IsOther, IsUnique}

-- Not this text.
abbrev pub IsNot : String → String → Type 0
IsNot s t = str_eq t s ≡ false

abbrev pub IsDistinct : List String → Type 0
IsDistinct [] = Unit
IsDistinct (s ∷ ss) = All (IsNot s) ss × IsDistinct ss

IsNot-sym : (s t : String) → IsNot s t → IsNot t s
IsNot-sym s t h = elim (Bool-cases (str_eq s t)) [
  | inl e ↦
      let same : s ≡ t = str_eq→eq s t e in
      let hit : str_eq t s ≡ true = rw same (str_eq_refl t) in absurd (cc (hit, h))
  | inr e ↦ e
]

IsDistinct-append :
    (ss : List String) (t : String) → IsDistinct ss → All (IsNot t) ss → IsDistinct (ss ++ t ∷ [])
IsDistinct-append [] t d h = (tt, tt)
IsDistinct-append (s ∷ ss) t d h = (snoc ss d.0, IsDistinct-append ss t d.1 h.1)
  where
    snoc : (us : List String) → All (IsNot s) us → All (IsNot s) (us ++ t ∷ [])
    snoc [] n = (IsNot-sym t s h.0, tt)
    snoc (u ∷ us) n = (n.0, snoc us n.1)

module _ {A : Type 0} (f : A → String) where
  All-IsNot_found :
      (a : A) (xs : List A)
      → any_of (λ x. str_eq (f x) (f a)) xs ≡ false
      → All (IsNot (f a)) (map f xs)
  All-IsNot_found a [] h = tt
  All-IsNot_found a (x ∷ xs) h = (ground (arith, h), All-IsNot_found a xs (ground (arith, h)))

  map-append : (xs : List A) (a : A) → map f (xs ++ a ∷ []) ≡ map f xs ++ f a ∷ []
  map-append [] a = refl
  map-append (x ∷ xs) a = ap (λ l. f x ∷ l) (map-append xs a)

  map-replaced :
      (a : A) (xs : List A) → map f (map (λ x. if str_eq (f x) (f a) then a else x) xs) ≡ map f xs
  map-replaced a [] = refl
  map-replaced a (x ∷ xs) = elim (Bool-cases (str_eq (f x) (f a))) [
    | inl e ↦ rw e (rw (map-replaced a xs) (rw (str_eq→eq (f x) (f a) e) refl))
    | inr e ↦ rw e (rw (map-replaced a xs) refl)
  ]

  -- Replacing what has the text, or appending, keeps the texts distinct.
  pub upsert-IsDistinct :
      (a : A) (xs : List A)
      → IsDistinct (map f xs)
      → IsDistinct (map f (upsert (λ x. str_eq (f x) (f a)) a xs))
  upsert-IsDistinct a xs d = elim (Bool-cases (any_of (λ x. str_eq (f x) (f a)) xs)) [
    | inl h ↦ rw h (subst IsDistinct (sym (map-replaced a xs)) d)
    | inr h ↦ rw h (
        subst IsDistinct (sym (map-append xs a))
          (IsDistinct-append (map f xs) (f a) d (All-IsNot_found a xs h)))
  ]

  All-kept :
      (s : String) (q : A → Bool) (xs : List A)
      → All (IsNot s) (map f xs)
      → All (IsNot s) (map f (keep_if q xs))
  All-kept s q [] h = tt
  All-kept s q (x ∷ xs) h =
      elim (q x)
        as (λ b.
          All (IsNot s) (map f (elim b [ true ↦ x ∷ keep_if q xs | false ↦ keep_if q xs ]))) [
            | true ↦ (h.0, All-kept s q xs h.1)
            | false ↦ All-kept s q xs h.1
          ]

  pub keep_if-IsDistinct :
      (q : A → Bool) (xs : List A) → IsDistinct (map f xs) → IsDistinct (map f (keep_if q xs))
  keep_if-IsDistinct q [] d = tt
  keep_if-IsDistinct q (x ∷ xs) d =
      elim (q x)
        as (λ b. IsDistinct (map f (elim b [ true ↦ x ∷ keep_if q xs | false ↦ keep_if q xs ]))) [
          | true ↦ (All-kept (f x) q xs d.0, keep_if-IsDistinct q xs d.1)
          | false ↦ keep_if-IsDistinct q xs d.1
        ]

module _ {A : Type 0} (a : A) where
  loop-cong :
      (same same' : A → Bool) (xs : List A)
      → All (λ x. same x ≡ same' x) xs
      → (replace_all same a xs ≡ replace_all same' a xs) × (any_of same xs ≡ any_of same' xs)
  loop-cong same same' [] h = (refl, refl)
  loop-cong same same' (x ∷ xs) h =
      let (replaced, found) = loop-cong same same' xs h.1 in
      (rw h.0 (ap (λ l. (if same' x then a else x) ∷ l) replaced), rw h.0 (rw found refl))

  pub upsert-cong :
      (same same' : A → Bool) (xs : List A)
      → All (λ x. same x ≡ same' x) xs
      → upsert same a xs ≡ upsert same' a xs
  upsert-cong same same' xs h =
      let (replaced, found) = loop-cong same same' xs h in rw found (rw replaced refl)

  replace_all-All :
      (P : A → Type 0) (same : A → Bool) (xs : List A)
      → P a
      → All P xs
      → All P (replace_all same a xs)
  replace_all-All P same [] h hs = tt
  replace_all-All P same (x ∷ xs) h hs = (
    elim (same x) as (λ b. P (if b then a else x)) [ true ↦ h | false ↦ hs.0 ],
    replace_all-All P same xs h hs.1,
  )

  pub upsert-All :
      (P : A → Type 0) (same : A → Bool) (xs : List A) → P a → All P xs → All P (upsert same a xs)
  upsert-All P same xs h hs =
      elim (any_of same xs) as (λ b. All P (if b then replace_all same a xs else xs ++ a ∷ [])) [
        | true ↦ replace_all-All P same xs h hs
        | false ↦ All-append P xs (a ∷ []) hs (h, tt)
      ]

-- Then at most one request has any given id.
pub IsDistinct-IsUnique :
    (id : String) (rs : List AccountWatchRequest)
    → IsDistinct (map (λ r. r.transaction_id) rs)
    → IsUnique id rs
IsDistinct-IsUnique id [] d = tt
IsDistinct-IsUnique id (r ∷ rs) d = (
  (λ e. subst (λ s. All (IsOther s) rs) (str_eq→eq r.transaction_id id e) (others_there rs d.0)),
  IsDistinct-IsUnique id rs d.1,
)
  where
    others_there :
        (xs : List AccountWatchRequest)
        → All (IsNot r.transaction_id) (map (λ r. r.transaction_id) xs)
        → All (IsOther r.transaction_id) xs
    others_there [] h = tt
    others_there (x ∷ xs) h = (h.0, others_there xs h.1)
