-- ===== src/Store/Balances.antt =====
-- pkg/redis.go: what storing and charging do to the table of bridge accounts, and to its total.
use party_bridge.Base.{
  String, Bool, true, false, some, List, [], ◌∷◌, ◌++◌, map, ◌≡◌, refl, inl, inr, arith, length,
  ◌⊎◌, All, upsert, any_of, replace_all, upsert_of_loop, Bool-cases, if◌then◌else◌,
}
use party_bridge.Base.Int.{ℤ, pos, ◌+ℤ◌, ◌-ℤ◌, int_laws}
use party_bridge.Base.Text.{str_eq, codes, contains-str_eq}
use party_bridge.Types.{BridgeStorage, AccountWatchRequestResult}
use party_bridge.Platform.{Platform}
use party_bridge.Exec.{World, ret}
use party_bridge.Store.{bridge_accounts}
use party_bridge.Store.Accounts.{
  storage_of, replace_account, store_bridge_account, charge_loop, update_bridge_account_in_db,
}
use party_bridge.Store.Nearest.{value_of, IsFunded}
use party_bridge.Store.Tables.{
  Tables, IsWorking, Represents, Performs, Performs-of_eq, load_ret, save_accounts-Performs,
}

abbrev pub same_id : BridgeStorage → BridgeStorage → Bool
same_id bs a = str_eq a.id bs.id

pub replace_account_lem :
    (bs : BridgeStorage) (xs : List BridgeStorage)
    → replace_account bs xs ≡ (replace_all (same_id bs) bs xs, any_of (same_id bs) xs)
unfolding replace_account
replace_account_lem bs [] = refl
replace_account_lem bs (a ∷ xs) = rw (replace_account_lem bs xs) (ground arith)

-- The ids are equally long, as UUIDs are, and the account has an amount.
abbrev pub IsChargeable : String → BridgeStorage → Type 0
IsChargeable id a = (length (codes id) ≡ length (codes a.id)) × IsFunded a

-- The account with this id pays `x`.
abbrev pub charged : String → ℤ → BridgeStorage → BridgeStorage
charged id x a = if str_eq a.id id then record a { amount = some (value_of a -ℤ x) } else a

charge_loop_lem :
    {p : Platform} (id : String) (x : ℤ) (xs : List BridgeStorage) (w : World p)
    → All (IsChargeable id) xs
    → charge_loop id (some x) xs w ≡ (ret (map (charged id x) xs), w)
unfolding charge_loop
charge_loop_lem id x [] w h = refl
charge_loop_lem id x (a ∷ xs) w h = elim (Bool-cases (str_eq a.id id)) [
  | inl hit ↦
      rw (contains-str_eq a.id id h.0.0)
        (rw hit (rw h.0.1 (rw (charge_loop_lem id x xs w h.1) refl)))
  | inr miss ↦
      rw (contains-str_eq a.id id h.0.0) (rw miss (rw (charge_loop_lem id x xs w h.1) refl))
]

module _ {p : Platform} (works : IsWorking p) {w : World p} {t : Tables}
    (held : Represents w t) where
  -- If Redis works, booking a payment returns, replaces the accounts in store with the id of the
  -- request, or appends the account if there is none, and changes nothing else.
  pub store_account-Performs :
      (awrr : AccountWatchRequestResult)
      → Performs
          (store_bridge_account awrr)
          w
          (record t { accounts = upsert (same_id (storage_of awrr)) (storage_of awrr) t.accounts })
  unfolding store_bridge_account
  store_account-Performs awrr =
      Performs-of_eq
        (rw (load_ret p.accounts_json [] bridge_accounts w held.accounts_held) (
          rw (replace_account_lem (storage_of awrr) t.accounts)
            (rw (upsert_of_loop (same_id (storage_of awrr)) (storage_of awrr) t.accounts) refl)))
        (save_accounts-Performs works held
          (upsert (same_id (storage_of awrr)) (storage_of awrr) t.accounts))

  -- If Redis works and every account has an amount and an id as long as the given one, a charge
  -- returns, takes the charge from every account with that id, and changes nothing else.
  pub charge-Performs :
      (id : String) (x : ℤ)
      → All (IsChargeable id) t.accounts
      → Performs
          (update_bridge_account_in_db id (some x))
          w
          (record t { accounts = map (charged id x) t.accounts })
  unfolding update_bridge_account_in_db
  charge-Performs id x h =
      Performs-of_eq
        (rw (load_ret p.accounts_json [] bridge_accounts w held.accounts_held)
          (rw (charge_loop_lem id x t.accounts w h) refl))
        (save_accounts-Performs works held (map (charged id x) t.accounts))

-- The coins of all accounts together.
abbrev pub total : List BridgeStorage → ℤ
total [] = pos 0
total (a ∷ xs) = value_of a +ℤ total xs

abbrev pub HasId : String → BridgeStorage → Bool → Type 0
HasId id a b = str_eq a.id id ≡ b

-- Exactly one account has the id.
abbrev pub HasOnce : String → List BridgeStorage → Type 0
HasOnce id [] = ⊥
HasOnce id (a ∷ xs) =
    (HasId id a true × All (λ b. HasId id b false) xs) ⊎ (HasId id a false × HasOnce id xs)

total-charged_other :
    (id : String) (x : ℤ) (xs : List BridgeStorage)
    → All (λ b. HasId id b false) xs
    → total (map (charged id x) xs) ≡ total xs
total-charged_other id x [] h = refl
total-charged_other id x (a ∷ xs) h = rw (total-charged_other id x xs h.1) (rw h.0 refl)

-- A charge on an account that is there once lowers the total by exactly the charge.
pub total-charged :
    (id : String) (x : ℤ) (xs : List BridgeStorage)
    → HasOnce id xs
    → total (map (charged id x) xs) ≡ total xs -ℤ x
total-charged id x [] h = absurd h
total-charged id x (a ∷ xs) (inl (hit, rest)) =
    rw (total-charged_other id x xs rest) (rw hit (omega int_laws))
total-charged id x (a ∷ xs) (inr (miss, rest)) =
    rw (total-charged id x xs rest) (rw miss (omega int_laws))

total-append :
    (xs : List BridgeStorage) (a : BridgeStorage) → total (xs ++ a ∷ []) ≡ total xs +ℤ value_of a
total-append [] a = omega int_laws
total-append (b ∷ xs) a = rw (total-append xs a) (omega int_laws)

-- A deposit under a new id raises the total by exactly its amount.
pub total-upsert_new :
    (bs : BridgeStorage) (xs : List BridgeStorage)
    → any_of (same_id bs) xs ≡ false
    → total (upsert (same_id bs) bs xs) ≡ total xs +ℤ value_of bs
total-upsert_new bs xs h = rw h (total-append xs bs)

module _ {p : Platform} (works : IsWorking p) {w : World p} {t : Tables}
    (held : Represents w t) where
  -- If Redis works, every account has an amount and an id as long as the given one, and exactly one
  -- account has that id, a charge returns, takes the charge from every account with the id, and
  -- changes nothing else; the coins of all accounts in store together are then lower by exactly the
  -- charge.
  pub charge_total :
      (id : String) (x : ℤ)
      → All (IsChargeable id) t.accounts
      → HasOnce id t.accounts
      → Performs
          (update_bridge_account_in_db id (some x))
          w
          (record t { accounts = map (charged id x) t.accounts })
        × (total (map (charged id x) t.accounts) ≡ total t.accounts -ℤ x)
  charge_total id x h once = (charge-Performs works held id x h, total-charged id x t.accounts once)

  -- If Redis works and no account has the id of the paid request, booking it returns, stores the
  -- accounts with that of the request, and changes nothing else; the coins of all accounts in store
  -- together are then higher by the amount of the booked account, where no amount counts as zero.
  pub deposit_total :
      (awrr : AccountWatchRequestResult)
      → any_of (same_id (storage_of awrr)) t.accounts ≡ false
      → let bs : BridgeStorage = storage_of awrr in
        Performs
          (store_bridge_account awrr)
          w
          (record t { accounts = upsert (same_id bs) bs t.accounts })
        × (total (upsert (same_id bs) bs t.accounts) ≡ total t.accounts +ℤ value_of bs)
  deposit_total awrr new =
      (store_account-Performs works held awrr, total-upsert_new (storage_of awrr) t.accounts new)
