-- ===== src/System/Unchanged.antt =====
-- pkg/redis.go: the parts that only read, and those that work on a list that was read.
use party_bridge.Base.{
  ℕ, ◌-◌, get_elem?, keep_if, String, Bool, true, false, Option, none, some, List, [], ◌∷◌, ◌≡◌,
  refl, ap, length, if◌then◌else◌, ◌==◌,
}
use party_bridge.Base.Int.{ℤ, ◌-ℤ◌, leb_ℤ}
use party_bridge.Base.Text.{contains}
use party_bridge.Types.{
  AccountWatchRequest, AccountWatchRequestResult, BridgeStorage, AssistedTradeOrderInformation,
}
use party_bridge.Platform.{Platform, Result, ok, err}
use party_bridge.Exec.{
  World, Exec, Outcome, ret, Crash, fail, crash, continue, lift, or_die, deref, check_nil, index,
  pure, ◌>>=◌,
}
use party_bridge.Store.{load, bridge_accounts}
use party_bridge.Store.Requests.{replace_loop}
use party_bridge.Store.Accounts.{
  reaches, closest, choose, is_candidate, retrieve_bridge_account, charge_loop,
}
use party_bridge.Store.Search.{search}
use party_bridge.Store.Tables.{load_keeps}

module _ {p : Platform} where
  lift_same : {A : Type 0} (r : Result A) (w : World p) → (lift r w).1 ≡ w
  lift_same (ok a) w = refl
  lift_same (err e) w = refl

  or_die_same : {A : Type 0} (d : Crash) (a : Option A) (w : World p) → (or_die d a w).1 ≡ w
  or_die_same d none w = refl
  or_die_same d (some a) w = refl

  check_nil_same : {A : Type 0} (a : Option A) (e : String) (w : World p) → (check_nil a e w).1 ≡ w
  check_nil_same none e w = refl
  check_nil_same (some a) e w = refl

  -- `m` leaves the world as it is if its parts do
  bind_same :
      {A B : Type 0} (m : Exec p A) (f : A → Exec p B) (w : World p)
      → (m w).1 ≡ w
      → ((a : A) → (f a w).1 ≡ w)
      → ((m >>= f) w).1 ≡ w
  bind_same {A = A} m f w same k = rw same (go (m w).0)
    where
      go : (o : Outcome A) → (continue o f w).1 ≡ w
      go (ret a) = k a
      go (fail e) = refl
      go (crash d) = refl

  pub replace_loop_same :
      (r : AccountWatchRequest) (rs : List AccountWatchRequest) (w : World p)
      → (replace_loop r rs w).1 ≡ w
  unfolding replace_loop
  replace_loop_same r [] w = refl
  replace_loop_same r (x ∷ rs) w =
      bind_same (lift (p.parse_uuid x.awrid)) _ w (lift_same (p.parse_uuid x.awrid) w) (λ u1.
        bind_same (lift (p.parse_uuid r.awrid)) _ w (lift_same (p.parse_uuid r.awrid) w)
          (λ u2. bind_same (replace_loop r rs) _ w (replace_loop_same r rs w) (λ found. refl)))

  -- what the loop does at one account
  abbrev pub charge_one : Option ℤ → BridgeStorage → Bool → Exec p BridgeStorage
  charge_one amount a hit =
      if hit
      then (do
        held ← deref a.amount
        paid ← deref amount
        pure (record a { amount = some (held -ℤ paid) }))
      else pure a

  charge_one_same :
      (amount : Option ℤ) (a : BridgeStorage) (hit : Bool) (w : World p)
      → (charge_one amount a hit w).1 ≡ w
  charge_one_same amount a true w =
      bind_same (deref a.amount) _ w (or_die_same Crash.nil_dereference a.amount w) (λ held.
        bind_same (deref amount) _ w (or_die_same Crash.nil_dereference amount w) (λ paid. refl))
  charge_one_same amount a false w = refl

  pub charge_loop_same :
      (id : String) (amount : Option ℤ) (xs : List BridgeStorage) (w : World p)
      → (charge_loop id amount xs w).1 ≡ w
  unfolding charge_loop
  charge_loop_same id amount [] w = refl
  charge_loop_same id amount (a ∷ xs) w =
      bind_same (charge_one amount a (contains a.id id))
        (λ a'. charge_loop id amount xs >>= (λ rest. pure (a' ∷ rest))) w
        (charge_one_same amount a (contains a.id id) w)
        (λ a'.
          bind_same (charge_loop id amount xs) (λ rest. pure (a' ∷ rest)) w
            (charge_loop_same id amount xs w) (λ rest. refl))

  -- what `retrieve_bridge_account` does with the list
  index_same : {A : Type 0} (xs : List A) (i : ℕ) (w : World p) → (index xs i w).1 ≡ w
  index_same xs i w = or_die_same Crash.out_of_range (get_elem? xs i) w

  closest_same :
      (xs : List BridgeStorage) (target : Option ℤ) (i : ℕ) (w : World p)
      → (closest xs target i w).1 ≡ w
  unfolding closest
  closest_same xs target i w = go (i == 0) (i == length xs)
    where
      middle : Exec p BridgeStorage
      middle = do
        left ← index xs (i - 1)
        right ← index xs i
        wanted ← deref target
        low ← deref left.amount
        high ← deref right.amount
        pure (if leb_ℤ (wanted -ℤ low) (high -ℤ wanted) then left else right)

      go :
          (first last : Bool)
          → ((if first then index xs 0 else if last then index xs (i - 1) else middle) w).1 ≡ w
      go true last = index_same xs 0 w
      go false true = index_same xs (i - 1) w
      go false false = bind_same (index xs (i - 1)) _ w (index_same xs (i - 1) w) (λ left.
          bind_same (index xs i) _ w (index_same xs i w) (λ right.
            bind_same (deref target) _ w (or_die_same Crash.nil_dereference target w) (λ wanted.
              bind_same (deref left.amount) _ w (or_die_same Crash.nil_dereference left.amount w)
                (λ low.
                  bind_same (deref right.amount) _ w
                    (or_die_same Crash.nil_dereference right.amount w) (λ high. refl)))))

  choose_same :
      (info : AssistedTradeOrderInformation) (xs : List BridgeStorage) (w : World p)
      → (choose info xs w).1 ≡ w
  unfolding choose
  choose_same info xs w =
      bind_same (or_die Crash.nil_dereference (search (length xs) (reaches info.amount xs))) _ w
        (or_die_same Crash.nil_dereference (search (length xs) (reaches info.amount xs)) w)
        (λ i. closest_same xs info.amount i w)

  pub retrieve_same :
      (awrr : AccountWatchRequestResult) (w : World p) → (retrieve_bridge_account awrr w).1 ≡ w
  unfolding retrieve_bridge_account
  retrieve_same awrr w =
      bind_same (check_nil amount "valueSearch cannot be nil") _ w
        (check_nil_same amount "valueSearch cannot be nil" w)
        (λ u.
          bind_same (load p.accounts_json [] bridge_accounts) _ w
            (ap (λ r. r.1) (load_keeps p.accounts_json [] bridge_accounts w))
            (λ current. go current (length current == 0)))
    where
      open awrr.account_watch_request use {amount, assisted_sell_order_information as info}

      go :
          (current : List BridgeStorage) (none_there : Bool)
          → ((if none_there
                then pure none
                else (choose info (keep_if (is_candidate info) current) >>= (λ a. pure (some a))))
              w).1
            ≡ w
      go current true = refl
      go current false =
          bind_same (choose info (keep_if (is_candidate info) current)) (λ a. pure (some a)) w
            (choose_same info (keep_if (is_candidate info) current) w) (λ a. refl)
