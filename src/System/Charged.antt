-- ===== src/System/Charged.antt =====
-- pkg/redis.go: a charge, the ids and the amounts.
use party_bridge.Base.{Bool, true, false, String, Option, some, List, [], ◌∷◌, map, ◌≡◌, refl, All}
use party_bridge.Base.Int.{ℤ, ◌-ℤ◌}
use party_bridge.Base.Text.{contains}
use party_bridge.Types.{BridgeStorage}
use party_bridge.Platform.{Platform, Event}
use party_bridge.Exec.{Crash}
use party_bridge.Store.Accounts.{charge_loop}
use party_bridge.System.Sound.{IsBooked}
use party_bridge.System.Returns.{Returns, Returns-bind_value, Returns-bind_or_die, Returns-pure}
use party_bridge.System.Unchanged.{charge_one}

-- `a'` is the booked account `a`, perhaps with another amount.
abbrev IsCharged : Platform → List Event → BridgeStorage → BridgeStorage → Type 0
IsCharged p trace a a' = IsBooked p trace a' × (a'.id ≡ a.id)

module _ {p : Platform} (trace : List Event) (id : String) (amount : Option ℤ) where
  charge_one-Returns :
      (a : BridgeStorage) (hit : Bool)
      → IsBooked p trace a
      → Returns (IsCharged p trace a) (charge_one {p = p} amount a hit)
  charge_one-Returns a true h = Returns-bind_or_die Crash.nil_dereference a.amount (λ held e.
      Returns-bind_or_die Crash.nil_dereference amount (λ paid e'.
        Returns-pure (record a { amount = some (held -ℤ paid) })
          (
            record {
              request = h.request;
              issued = h.issued;
              same_id = h.same_id;
              balance = held -ℤ paid;
              has_amount = refl;
            },
            refl,
          )))
  charge_one-Returns a false h = Returns-pure a (h, refl)

  pub charge_loop-Returns :
      (bs : List BridgeStorage)
      → All (IsBooked p trace) bs
      → Returns
          (λ cs. All (IsBooked p trace) cs × (map (λ a. a.id) cs ≡ map (λ a. a.id) bs))
          (charge_loop {p = p} id amount bs)
  unfolding charge_loop
  charge_loop-Returns [] h = Returns-pure [] (tt, refl)
  charge_loop-Returns (a ∷ bs) h =
      Returns-bind_value (charge_one-Returns a (contains a.id id) h.0) (λ a' one.
        Returns-bind_value (charge_loop-Returns bs h.1)
          (λ cs rest. Returns-pure (a' ∷ cs) ((one.0, rest.0), rw one.1 (rw rest.1 refl))))
