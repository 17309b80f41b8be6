-- ===== src/Store/Accounts.antt =====
-- pkg/redis.go: the operations on the bridge accounts, and the choice of the account that pays
-- for an unwrapping.
use party_bridge.Base.{
  ℕ, ◌-◌, String, Bool, true, false, Option, none, some, List, [], ◌∷◌, ◌++◌, ◌&&◌, length,
  get_elem?, keep_if, ◌==◌, if◌then◌else◌,
}
use party_bridge.Base.Int.{ℤ, ◌-ℤ◌, cmp_geb, leb_ℤ}
use party_bridge.Base.Text.{str_eq, contains}
use party_bridge.Types.{AccountWatchRequestResult, BridgeStorage, AssistedTradeOrderInformation}
use party_bridge.Platform.{Platform}
use party_bridge.Exec.{Exec, Crash, pure, check_nil, or_die, deref, index, ◌>>=◌, ◌>>◌}
use party_bridge.Store.{load, save, bridge_accounts}
use party_bridge.Store.Search.{search}

-- The account that a paid request leaves to the bridge.
unfoldable pub storage_of : AccountWatchRequestResult → BridgeStorage
storage_of awrr = record {
  chain = awr.chain;
  private_key = info.sellers_escrow_wallet.private_key;
  amount = info.amount;
  asset = info.currency;
  id = awr.transaction_id;
  bridge_from = info.bridge_from;
  bridge_to = info.bridge_to;
}
  where
    open awrr use {account_watch_request as awr}
    open awrr.account_watch_request use {assisted_sell_order_information as info}

-- the loop of `storeBridgeAccount`, and whether it found the ID
unfoldable pub replace_account : BridgeStorage → List BridgeStorage → List BridgeStorage × Bool
replace_account bs [] = ([], false)
replace_account bs (a ∷ rest) =
    let (rest', found) = replace_account bs rest in
    if str_eq a.id bs.id then (bs ∷ rest', true) else (a ∷ rest', found)

-- the `switch` that turns a wrapped currency into what it wraps
unfoldable pub unwrapped : String → String
unwrapped currency =
    if str_eq currency "wgrams"
    then "grams"
    else if str_eq currency "wocta"
    then "octa"
    else if str_eq currency "wbscusdt"
    then "bscusdt"
    else currency

-- the accounts of the asset that were bridged to where the request comes from
unfoldable pub is_candidate : AssistedTradeOrderInformation → BridgeStorage → Bool
unfolding unwrapped
is_candidate info a =
    str_eq a.asset (unwrapped info.currency) && str_eq a.bridge_to info.bridge_from

-- `filteredAccounts[i].Amount.Cmp(amount) >= 0`; `none` is a panic
unfoldable pub reaches : Option ℤ → List BridgeStorage → ℕ → Option Bool
reaches target accounts i = elim (get_elem? accounts i) [
  | none ↦ none
  | some a ↦ cmp_geb a.amount target
]

module _ {p : Platform} where
  unfoldable pub store_bridge_account : AccountWatchRequestResult → Exec p (Unit {0})
  unfolding load save replace_account storage_of
  store_bridge_account awrr = do
    current ← load p.accounts_json [] bridge_accounts
    let replaced = replace_account (storage_of awrr) current
    save p.accounts_json bridge_accounts
        (if replaced.1 then replaced.0 else replaced.0 ++ storage_of awrr ∷ [])

  -- the choice between the neighbours of the index that the search returns
  unfoldable pub closest : List BridgeStorage → Option ℤ → ℕ → Exec p BridgeStorage
  closest accounts target i =
      if i == 0
      then index accounts 0
      else if i == length accounts
      then index accounts (i - 1)
      else do
        left ← index accounts (i - 1)
        right ← index accounts i
        wanted ← deref target
        low ← deref left.amount
        high ← deref right.amount
        pure (if leb_ℤ (wanted -ℤ low) (high -ℤ wanted) then left else right)

  -- search the candidates, which are still in the order of the list, and choose one
  unfoldable pub choose : AssistedTradeOrderInformation → List BridgeStorage → Exec p BridgeStorage
  unfolding search reaches closest
  choose info filtered = do
    i ← or_die Crash.nil_dereference (search (length filtered) (reaches info.amount filtered))
    closest filtered info.amount i

  unfoldable pub retrieve_bridge_account : AccountWatchRequestResult → Exec p (Option BridgeStorage)
  unfolding load is_candidate choose
  retrieve_bridge_account awrr = do
    check_nil awrr.account_watch_request.amount "valueSearch cannot be nil"
    current ← load p.accounts_json [] bridge_accounts
    if length current == 0
        then pure none
        else do a ← choose info (keep_if (is_candidate info) current); pure (some a)
    where
      open awrr.account_watch_request use {assisted_sell_order_information as info}

  -- the loop of `updateBridgeAccountInDB`
  unfoldable pub charge_loop : String → Option ℤ → List BridgeStorage → Exec p (List BridgeStorage)
  unfolding contains
  charge_loop id amount [] = pure []
  charge_loop id amount (a ∷ rest) = do
    a' ←
        if contains a.id id
        then (do
          held ← deref a.amount
          paid ← deref amount
          pure (record a { amount = some (held -ℤ paid) }))
        else pure a
    rest' ← charge_loop id amount rest
    pure (a' ∷ rest')

  unfoldable pub update_bridge_account_in_db : String → Option ℤ → Exec p (Unit {0})
  unfolding load save charge_loop
  update_bridge_account_in_db id amount = do
    current ← load p.accounts_json [] bridge_accounts
    charged ← charge_loop id amount current
    save p.accounts_json bridge_accounts charged
