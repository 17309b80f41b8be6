-- ===== src/Dispatch/Routes.antt =====
-- pkg/helper.go: the bridges that exist, as a relation, and `createBridgeRequest` against it.
use party_bridge.Base.{
  sym, ◌∙◌, ℕ, String, true, false, ◌≡◌, refl, ◌⊎◌, inl, inr, [], ◌∷◌, arith, Bool-cases,
}
use party_bridge.Base.Text.{str_eq, str_eq→eq, eq→str_eq, concat}
use party_bridge.Types.{
  AccountWatchRequestResult, AssistedTradeOrderInformation, grams, octa, bscusdt, wgrams, wocta,
}
use party_bridge.Platform.{Platform, ok}
use party_bridge.Server.{ExchangeServer}
use party_bridge.Exec.{World, Exec, fail}
use party_bridge.Shim.{
  mint_address, request_to_mint_wrapped_currency, request_to_transfer_coin_on_chain_from_shim,
}
use party_bridge.Dispatch.{is_deposit, create_bridge_request}

-- mint tokens that stand for coins of another chain, or pay out the coins themselves
pub data Plan : Type 0 where
  wrap unwrap : Plan

module _ (info : AssistedTradeOrderInformation) where
  open info use {bridge_to, bridge_from, currency}

  -- Coins are wrapped on the other chain, wrapped coins go home, and wrapped USDT leaves either
  -- chain for BSC.
  pub data IsRoute : Plan → Type 0 where
    grams_to_octa : bridge_to ≡ octa → currency ≡ grams → IsRoute Plan.wrap
    usdt_to_octa : bridge_to ≡ octa → currency ≡ bscusdt → IsRoute Plan.wrap
    octa_to_grams : bridge_to ≡ grams → currency ≡ octa → IsRoute Plan.wrap
    usdt_to_grams : bridge_to ≡ grams → currency ≡ bscusdt → IsRoute Plan.wrap
    octa_home : bridge_to ≡ octa → currency ≡ wocta → IsRoute Plan.unwrap
    grams_home : bridge_to ≡ grams → currency ≡ wgrams → IsRoute Plan.unwrap
    usdt_from_octa : bridge_to ≡ bscusdt → bridge_from ≡ octa → IsRoute Plan.unwrap
    usdt_from_grams : bridge_to ≡ bscusdt → bridge_from ≡ grams → IsRoute Plan.unwrap

abbrev pub IsServed : AssistedTradeOrderInformation → Type 0
IsServed info = (plan : Plan) × IsRoute info plan

is_not : {x y : String} → str_eq x y ≡ false → x ≡ y → ⊥
is_not {x} {y} h e = absurd (cc (eq→str_eq x y e, h))

differ : {x y z : String} → str_eq y z ≡ false → x ≡ y → x ≡ z → ⊥
differ h e e' = is_not h (sym e ∙ e')

-- An order that the switches let through is not in the table.
not_IsRoute :
    (info : AssistedTradeOrderInformation)
    → (info.bridge_to ≡ octa
        → (info.currency ≡ grams → ⊥) × (info.currency ≡ wocta → ⊥) × (info.currency ≡ bscusdt → ⊥))
    → (info.bridge_to ≡ grams
        → (info.currency ≡ octa → ⊥) × (info.currency ≡ wgrams → ⊥) × (info.currency ≡ bscusdt → ⊥))
    → (info.bridge_to ≡ bscusdt → (info.bridge_from ≡ octa → ⊥) × (info.bridge_from ≡ grams → ⊥))
    → (plan : Plan) → ¬ IsRoute info plan
not_IsRoute info o g b plan (IsRoute.grams_to_octa t c) = (o t).0 c
not_IsRoute info o g b plan (IsRoute.usdt_to_octa t c) = (o t).2 c
not_IsRoute info o g b plan (IsRoute.octa_to_grams t c) = (g t).0 c
not_IsRoute info o g b plan (IsRoute.usdt_to_grams t c) = (g t).2 c
not_IsRoute info o g b plan (IsRoute.octa_home t c) = (o t).1 c
not_IsRoute info o g b plan (IsRoute.grams_home t c) = (g t).1 c
not_IsRoute info o g b plan (IsRoute.usdt_from_octa t c) = (b t).0 c
not_IsRoute info o g b plan (IsRoute.usdt_from_grams t c) = (b t).1 c

module _ {p : Platform} (room : ℕ) (e : ExchangeServer) (awrr : AccountWatchRequestResult) where
  open awrr.account_watch_request use {assisted_sell_order_information as info}

  abbrev pub perform : Plan → Exec p (Unit {0})
  perform Plan.wrap = request_to_mint_wrapped_currency e awrr
  perform Plan.unwrap = request_to_transfer_coin_on_chain_from_shim room e awrr

  -- For an order in the table of the routes, `create_bridge_request` does what the plan of the
  -- table does: a request to mint, or a request to pay out.
  pub create-IsRoute :
      {plan : Plan} (w : World p)
      → IsRoute info plan
      → create_bridge_request room e awrr w ≡ perform plan w
  unfolding create_bridge_request
  create-IsRoute w (IsRoute.grams_to_octa t c) = simp (t, c)
  create-IsRoute w (IsRoute.usdt_to_octa t c) = simp (t, c)
  create-IsRoute w (IsRoute.octa_to_grams t c) = simp (t, c)
  create-IsRoute w (IsRoute.usdt_to_grams t c) = simp (t, c)
  create-IsRoute w (IsRoute.octa_home t c) = simp (t, c)
  create-IsRoute w (IsRoute.grams_home t c) = simp (t, c)
  create-IsRoute w (IsRoute.usdt_from_octa t c) = simp (t, c)
  create-IsRoute w (IsRoute.usdt_from_grams t c) = simp (t, c)

  -- Nothing else is served: the order is not in the table, the request is refused, and the world is
  -- as it was.
  abbrev pub IsRefused : World p → Type 0
  IsRefused w =
      ((plan : Plan) → ¬ IsRoute info plan)
      × (m : String) × (create_bridge_request room e awrr w ≡ (fail m, w))

  cases_octa : (w : World p) → str_eq info.bridge_to octa ≡ true → IsServed info ⊎ IsRefused w
  unfolding create_bridge_request
  cases_octa w t = elim (Bool-cases (str_eq info.currency grams)) [
    | inl c ↦ inl (Plan.wrap, IsRoute.grams_to_octa (str_eq→eq _ _ t) (str_eq→eq _ _ c))
    | inr c ↦ elim (Bool-cases (str_eq info.currency wocta)) [
      | inl d ↦ inl (Plan.unwrap, IsRoute.octa_home (str_eq→eq _ _ t) (str_eq→eq _ _ d))
      | inr d ↦ elim (Bool-cases (str_eq info.currency bscusdt)) [
        | inl u ↦ inl (Plan.wrap, IsRoute.usdt_to_octa (str_eq→eq _ _ t) (str_eq→eq _ _ u))
        | inr u ↦ inr (
          not_IsRoute info (λ q. (is_not c, is_not d, is_not u))
              (λ q. absurd (differ refl (str_eq→eq _ _ t) q))
              (λ q. absurd (differ refl (str_eq→eq _ _ t) q)),
          concat ("unsupported currency: " ∷ info.currency ∷ []),
          rw t (rw c (rw d (rw u refl))),
        )
      ]
    ]
  ]

  cases_grams :
      (w : World p)
      → str_eq info.bridge_to octa ≡ false
      → str_eq info.bridge_to grams ≡ true
      → IsServed info ⊎ IsRefused w
  unfolding create_bridge_request
  cases_grams w o t = elim (Bool-cases (str_eq info.currency octa)) [
    | inl c ↦ inl (Plan.wrap, IsRoute.octa_to_grams (str_eq→eq _ _ t) (str_eq→eq _ _ c))
    | inr c ↦ elim (Bool-cases (str_eq info.currency wgrams)) [
      | inl d ↦ inl (Plan.unwrap, IsRoute.grams_home (str_eq→eq _ _ t) (str_eq→eq _ _ d))
      | inr d ↦ elim (Bool-cases (str_eq info.currency bscusdt)) [
        | inl u ↦ inl (Plan.wrap, IsRoute.usdt_to_grams (str_eq→eq _ _ t) (str_eq→eq _ _ u))
        | inr u ↦ inr (
          not_IsRoute info (λ q. absurd (is_not o q)) (λ q. (is_not c, is_not d, is_not u))
              (λ q. absurd (differ refl (str_eq→eq _ _ t) q)),
          concat ("unsupported currency: " ∷ info.currency ∷ []),
          rw o (rw t (rw c (rw d (rw u refl)))),
        )
      ]
    ]
  ]

  cases_bscusdt :
      (w : World p)
      → str_eq info.bridge_to octa ≡ false
      → str_eq info.bridge_to grams ≡ false
      → str_eq info.bridge_to bscusdt ≡ true
      → IsServed info ⊎ IsRefused w
  unfolding create_bridge_request
  cases_bscusdt w o g t = elim (Bool-cases (str_eq info.bridge_from octa)) [
    | inl c ↦ inl (Plan.unwrap, IsRoute.usdt_from_octa (str_eq→eq _ _ t) (str_eq→eq _ _ c))
    | inr c ↦ elim (Bool-cases (str_eq info.bridge_from grams)) [
      | inl d ↦ inl (Plan.unwrap, IsRoute.usdt_from_grams (str_eq→eq _ _ t) (str_eq→eq _ _ d))
      | inr d ↦ inr (
        not_IsRoute info (λ q. absurd (is_not o q)) (λ q. absurd (is_not g q))
            (λ q. (is_not c, is_not d)),
        concat ("unsupported bridge from: " ∷ info.bridge_from ∷ []),
        rw o (rw g (rw t (rw c (rw d refl)))),
      )
    ]
  ]

  plan_cases : (w : World p) → IsServed info ⊎ IsRefused w
  unfolding create_bridge_request
  plan_cases w = elim (Bool-cases (str_eq info.bridge_to octa)) [
    | inl t ↦ cases_octa w t
    | inr o ↦ elim (Bool-cases (str_eq info.bridge_to grams)) [
      | inl t ↦ cases_grams w o t
      | inr g ↦ elim (Bool-cases (str_eq info.bridge_to bscusdt)) [
        | inl t ↦ cases_bscusdt w o g t
        | inr b ↦ inr (
          not_IsRoute info (λ q. absurd (is_not o q)) (λ q. absurd (is_not g q))
              (λ q. absurd (is_not b q)),
          concat ("unsupported bridge to: " ∷ info.bridge_to ∷ []),
          rw o (rw g (rw b refl)),
        )
      ]
    ]
  ]

  -- The plan of the table is carried out.
  abbrev pub IsPerformed : World p → Type 0
  IsPerformed w =
      (plan : Plan) × IsRoute info plan × (create_bridge_request room e awrr w ≡ perform plan w)

  -- Either the order is in the table of the routes, and `create_bridge_request` does what the plan
  -- of the table does, a request to mint or a request to pay out; or the order is on no route of
  -- the table, and `create_bridge_request` returns an error and leaves the world as it was.
  pub create_bridge_request_cases : (w : World p) → IsPerformed w ⊎ IsRefused w
  create_bridge_request_cases w = elim (plan_cases w) [
    | inl (plan, route) ↦ inl (plan, route, create-IsRoute w route)
    | inr refused ↦ inr refused
  ]

-- For an order on a route that wraps, the switch over the currency finds the address of a shim, and
-- no error.
pub wrap-mint_address :
    (e : ExchangeServer) (info : AssistedTradeOrderInformation)
    → IsRoute info Plan.wrap
    → (address : String) × (mint_address e info.currency info.bridge_to ≡ ok address)
unfolding mint_address
wrap-mint_address e info (IsRoute.grams_to_octa t c) = (e.grams_shim_server_address, simp (t, c))
wrap-mint_address e info (IsRoute.usdt_to_octa t c) =
    (e.bsc_usdt_on_octa_space_shim_server_address, simp (t, c))
wrap-mint_address e info (IsRoute.octa_to_grams t c) = (e.octa_shim_server_address, simp (t, c))
wrap-mint_address e info (IsRoute.usdt_to_grams t c) =
    (e.bsc_usdt_on_party_chain_shim_server_address, simp (t, c))

-- For an order on a route that wraps, the payment is booked exactly if the result of the watch is
-- `success`.
pub wrap-is_deposit :
    (awrr : AccountWatchRequestResult)
    → IsRoute awrr.account_watch_request.assisted_sell_order_information Plan.wrap
    → is_deposit awrr ≡ str_eq awrr.result "success"
unfolding is_deposit
wrap-is_deposit awrr (IsRoute.grams_to_octa t c) = simp c (ground arith)
wrap-is_deposit awrr (IsRoute.usdt_to_octa t c) = simp c (ground arith)
wrap-is_deposit awrr (IsRoute.octa_to_grams t c) = simp c (ground arith)
wrap-is_deposit awrr (IsRoute.usdt_to_grams t c) = simp c (ground arith)
