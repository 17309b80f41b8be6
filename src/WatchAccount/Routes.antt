-- ===== src/WatchAccount/Routes.antt =====
-- pkg/helper.go: the orders that `watchAccount` watches, as a relation, and that `Dispatch` serves
-- each of them.
use party_bridge.Base.{
  String, true, false, none, some, ◌≡◌, refl, ◌∙◌, ◌⊎◌, inl, inr, arith, Bool-cases,
}
use party_bridge.Base.Text.{str_eq, str_eq→eq}
use party_bridge.Types.{
  AssistedTradeOrderInformation, grams, octa, bscusdt, wbscusdt, wgrams, wocta,
}
use party_bridge.Dispatch.Routes.{Plan, IsRoute, IsServed}
use party_bridge.WatchAccount.{Watched, watched_of}

module _ (chain : String) (info : AssistedTradeOrderInformation) where
  open info use {bridge_to, currency}

  -- Where the coins or tokens of an order are expected, by its chain, destination and currency.
  pub data IsWatched : Watched → Type 0 where
    octa_coins : chain ≡ octa → bridge_to ≡ grams → currency ≡ octa → IsWatched Watched.octa_coins
    wgrams_home :
        chain ≡ octa → bridge_to ≡ grams → currency ≡ wgrams → IsWatched Watched.wgrams_on_octa
    usdt_on_octa :
        chain ≡ octa
        → bridge_to ≡ bscusdt
        → currency ≡ wbscusdt
        → IsWatched Watched.wbscusdt_on_octa
    wocta_home :
        chain ≡ grams → bridge_to ≡ octa → currency ≡ wocta → IsWatched Watched.wocta_on_party
    grams_coins :
        chain ≡ grams → bridge_to ≡ octa → currency ≡ grams → IsWatched Watched.grams_coins
    usdt_on_party :
        chain ≡ grams
        → bridge_to ≡ bscusdt
        → currency ≡ wbscusdt
        → IsWatched Watched.wbscusdt_on_party
    usdt_to_octa :
        chain ≡ bscusdt → bridge_to ≡ octa → currency ≡ bscusdt → IsWatched Watched.usdt_on_bsc
    usdt_to_grams :
        chain ≡ bscusdt → bridge_to ≡ grams → currency ≡ bscusdt → IsWatched Watched.usdt_on_bsc

  watched_of-IsWatched : {k : Watched} → IsWatched k → watched_of chain info ≡ some k
  unfolding watched_of
  watched_of-IsWatched (IsWatched.octa_coins a b c) = simp (a, b, c)
  watched_of-IsWatched (IsWatched.wgrams_home a b c) = simp (a, b, c)
  watched_of-IsWatched (IsWatched.usdt_on_octa a b c) = simp (a, b, c)
  watched_of-IsWatched (IsWatched.wocta_home a b c) = simp (a, b, c)
  watched_of-IsWatched (IsWatched.grams_coins a b c) = simp (a, b, c)
  watched_of-IsWatched (IsWatched.usdt_on_party a b c) = simp (a, b, c)
  watched_of-IsWatched (IsWatched.usdt_to_octa a b c) = simp (a, b, c)
  watched_of-IsWatched (IsWatched.usdt_to_grams a b c) = simp (a, b, c)

  abbrev pub Decides : Type 0
  Decides =
      ((k : Watched) × (watched_of chain info ≡ some k) × IsWatched k)
      ⊎ (watched_of chain info ≡ none)

  known : {k : Watched} → IsWatched k → Decides
  known {k} h = inl (k, watched_of-IsWatched h, h)

  cases_octa : str_eq chain octa ≡ true → Decides
  unfolding watched_of
  cases_octa a = elim (Bool-cases (str_eq bridge_to grams)) [
    | inl b ↦ elim (Bool-cases (str_eq currency octa)) [
      | inl c ↦ known (IsWatched.octa_coins (str_eq→eq _ _ a) (str_eq→eq _ _ b) (str_eq→eq _ _ c))
      | inr c ↦ elim (Bool-cases (str_eq currency "wgrams")) [
        | inl d ↦
            known (IsWatched.wgrams_home (str_eq→eq _ _ a) (str_eq→eq _ _ b) (str_eq→eq _ _ d))
        | inr d ↦ inr (rw a (rw b (rw c (rw d refl))))
      ]
    ]
    | inr b ↦ elim (Bool-cases (str_eq bridge_to bscusdt)) [
      | inl c ↦ elim (Bool-cases (str_eq currency wbscusdt)) [
        | inl d ↦
            known (IsWatched.usdt_on_octa (str_eq→eq _ _ a) (str_eq→eq _ _ c) (str_eq→eq _ _ d))
        | inr d ↦ inr (rw a (rw b (rw c (rw d refl))))
      ]
      | inr c ↦ inr (rw a (rw b (rw c refl)))
    ]
  ]

  cases_grams : str_eq chain octa ≡ false → str_eq chain grams ≡ true → Decides
  unfolding watched_of
  cases_grams o a = elim (Bool-cases (str_eq bridge_to octa)) [
    | inl b ↦ elim (Bool-cases (str_eq currency "wocta")) [
      | inl c ↦ known (IsWatched.wocta_home (str_eq→eq _ _ a) (str_eq→eq _ _ b) (str_eq→eq _ _ c))
      | inr c ↦ elim (Bool-cases (str_eq currency grams)) [
        | inl d ↦
            known (IsWatched.grams_coins (str_eq→eq _ _ a) (str_eq→eq _ _ b) (str_eq→eq _ _ d))
        | inr d ↦ inr (rw o (rw a (rw b (rw c (rw d refl)))))
      ]
    ]
    | inr b ↦ elim (Bool-cases (str_eq bridge_to bscusdt)) [
      | inl c ↦ elim (Bool-cases (str_eq currency wbscusdt)) [
        | inl d ↦
            known (IsWatched.usdt_on_party (str_eq→eq _ _ a) (str_eq→eq _ _ c) (str_eq→eq _ _ d))
        | inr d ↦ inr (rw o (rw a (rw b (rw c (rw d refl)))))
      ]
      | inr c ↦ inr (rw o (rw a (rw b (rw c refl))))
    ]
  ]

  cases_bscusdt :
      str_eq chain octa ≡ false → str_eq chain grams ≡ false → str_eq chain bscusdt ≡ true → Decides
  unfolding watched_of
  cases_bscusdt o g a = elim (Bool-cases (str_eq currency bscusdt)) [
    | inl c ↦ elim (Bool-cases (str_eq bridge_to octa)) [
      | inl b ↦ known (IsWatched.usdt_to_octa (str_eq→eq _ _ a) (str_eq→eq _ _ b) (str_eq→eq _ _ c))
      | inr b ↦ elim (Bool-cases (str_eq bridge_to grams)) [
        | inl d ↦
            known (IsWatched.usdt_to_grams (str_eq→eq _ _ a) (str_eq→eq _ _ d) (str_eq→eq _ _ c))
        | inr d ↦ inr (rw o (rw g (rw a (rw b (rw d refl)))))
      ]
    ]
    | inr c ↦ inr (rw o (rw g (rw a (rw c (ground arith)))))
  ]

  -- The nested switch chooses a watch for exactly the chains, destinations and currencies of the
  -- table `IsWatched`, and the watch of the table.
  pub watched_of-Decides : ((k : Watched) → IsWatched k → watched_of chain info ≡ some k) × Decides
  unfolding watched_of
  watched_of-Decides = (
    λ k h. watched_of-IsWatched h,
    elim (Bool-cases (str_eq chain octa)) [
      | inl a ↦ cases_octa a
      | inr o ↦ elim (Bool-cases (str_eq chain grams)) [
        | inl a ↦ cases_grams o a
        | inr g ↦ elim (Bool-cases (str_eq chain bscusdt)) [
          | inl a ↦ cases_bscusdt o g a
          | inr b ↦ inr (rw o (rw g (rw b refl)))
        ]
      ]
    ],
  )

  -- Every order in the table of the watches is in the table of the routes that `dispatch` serves,
  -- if it names its chain as the one it comes from.
  pub watched-IsServed : {k : Watched} → info.bridge_from ≡ chain → IsWatched k → IsServed info
  watched-IsServed f (IsWatched.octa_coins a b c) = (Plan.wrap, IsRoute.octa_to_grams b c)
  watched-IsServed f (IsWatched.wgrams_home a b c) = (Plan.unwrap, IsRoute.grams_home b c)
  watched-IsServed f (IsWatched.usdt_on_octa a b c) =
      (Plan.unwrap, IsRoute.usdt_from_octa b (f ∙ a))
  watched-IsServed f (IsWatched.wocta_home a b c) = (Plan.unwrap, IsRoute.octa_home b c)
  watched-IsServed f (IsWatched.grams_coins a b c) = (Plan.wrap, IsRoute.grams_to_octa b c)
  watched-IsServed f (IsWatched.usdt_on_party a b c) =
      (Plan.unwrap, IsRoute.usdt_from_grams b (f ∙ a))
  watched-IsServed f (IsWatched.usdt_to_octa a b c) = (Plan.wrap, IsRoute.usdt_to_octa b c)
  watched-IsServed f (IsWatched.usdt_to_grams a b c) = (Plan.wrap, IsRoute.usdt_to_grams b c)
