-- ===== src/SendAsset/Laws.antt =====
-- pkg/evm.go `sendCoreEVMAsset`: when nothing is sent, and what is sent otherwise.
use party_bridge.Base.{
  ℕ, String, false, Option, none, some, List, [], ◌∷◌, ◌++◌, ◌≡◌, refl, ◌⊎◌, inl, inr, All,
  Bool-cases, Option-cases,
}
use party_bridge.Base.Int.{ℤ}
use party_bridge.Base.Text.{str_eq}
use party_bridge.Platform.{
  Platform, Event, Transaction, Result-cases, ok, asked_nonce, asked_gas_price, asked_network,
  sent_transaction,
}
use party_bridge.Exec.{World, Outcome, ret, fail}
use party_bridge.SendAsset.{check_transfer, build_transfer, send_core_evm_asset}

-- A question to a node.
abbrev pub IsQuestion : Event → Type 0
IsQuestion (asked_nonce client account) = Unit
IsQuestion (asked_gas_price client) = Unit
IsQuestion (asked_network client) = Unit
IsQuestion event = ⊥

abbrev pub transfer : ℕ → String → ℤ → ℤ → Transaction
transfer nonce to value price = record {
  nonce = nonce;
  to = to;
  value = value;
  gas_limit = 30000;
  gas_price = price;
}

module _ {p : Platform} where
  module _ (from private_key to : String) (value : ℤ) (client : String) (w : World p) where
    abbrev t1 : List Event
    t1 = asked_nonce client from ∷ w.trace

    abbrev t2 : List Event
    t2 = asked_gas_price client ∷ t1

    abbrev t3 : List Event
    t3 = asked_network client ∷ t2

    -- The transaction is signed as the node answers.
    pub record IsBuilt : Type 0 where
      pub nonce : ℕ
      pub price : ℤ
      pub chain : ℤ
      pub key : ℕ
      pub signed : String
      pub told_nonce : p.pending_nonce_at w.trace client from ≡ ok nonce
      pub told_price : p.suggest_gas_price t1 client ≡ ok price
      pub told_chain : p.network_id t2 client ≡ ok chain
      pub decoded : p.hex_to_ecdsa private_key ≡ ok key
      pub signs : p.sign_tx (transfer nonce to value price) chain key ≡ ok signed
      pub runs :
          build_transfer from private_key to value client w ≡ (ret signed, record w { trace = t3 })

    pub record IsUnbuilt : Type 0 where
      pub error : String
      pub new : List Event
      pub questions : All IsQuestion new
      pub runs :
          build_transfer from private_key to value client w
          ≡ (fail error, record w { trace = new ++ w.trace })

    unbuilt :
        (error : String) (new : List Event)
        → All IsQuestion new
        → build_transfer from private_key to value client w
          ≡ (fail error, record w { trace = new ++ w.trace })
        → IsBuilt ⊎ IsUnbuilt
    unbuilt error new questions runs =
        inr (record { error = error; new = new; questions = questions; runs = runs })

    -- all three questions, and then an error
    unsigned :
        (error : String)
        → build_transfer from private_key to value client w ≡ (fail error, record w { trace = t3 })
        → IsBuilt ⊎ IsUnbuilt
    unsigned error runs =
        unbuilt error (asked_network client ∷ asked_gas_price client ∷ asked_nonce client from ∷ [])
          (tt, (tt, (tt, tt))) runs

    -- from the answers to the signature
    sign_cases :
        {nonce : ℕ} {price chain : ℤ}
        → p.pending_nonce_at w.trace client from ≡ ok nonce
        → p.suggest_gas_price t1 client ≡ ok price
        → p.network_id t2 client ≡ ok chain
        → IsBuilt ⊎ IsUnbuilt
    unfolding build_transfer
    sign_cases {nonce} {price} {chain} a b c = elim (Result-cases (p.hex_to_ecdsa private_key)) [
      | inr (bad, d) ↦ unsigned bad (rw a (rw b (rw c (rw d refl))))
      | inl (key, d) ↦ elim (Result-cases (p.sign_tx (transfer nonce to value price) chain key)) [
        | inr (bad, s) ↦ unsigned bad (rw a (rw b (rw c (rw d (rw s refl)))))
        | inl (signed, s) ↦ inl (record {
          nonce = nonce;
          price = price;
          chain = chain;
          key = key;
          signed = signed;
          told_nonce = a;
          told_price = b;
          told_chain = c;
          decoded = d;
          signs = s;
          runs = rw a (rw b (rw c (rw d (rw s refl))));
        })
      ]
    ]

    build_transfer_cases : IsBuilt ⊎ IsUnbuilt
    unfolding build_transfer
    build_transfer_cases = elim (Result-cases (p.pending_nonce_at w.trace client from)) [
      | inr (bad, a) ↦ unbuilt bad (asked_nonce client from ∷ []) (tt, tt) (rw a refl)
      | inl (nonce, a) ↦ elim (Result-cases (p.suggest_gas_price t1 client)) [
        | inr (bad, b) ↦
            unbuilt bad (asked_gas_price client ∷ asked_nonce client from ∷ []) (tt, (tt, tt))
              (rw a (rw b refl))
        | inl (price, b) ↦ elim (Result-cases (p.network_id t2 client)) [
          | inr (bad, c) ↦ unsigned bad (rw a (rw b (rw c refl)))
          | inl (chain, c) ↦ sign_cases a b c
        ]
      ]
    ]

  module _ (from private_key to : String) (amount : Option ℤ) (txid : String) (rpc : Option String)
      (w : World p) where
    -- An error, and nothing but questions to the node.
    pub record IsUnsent : Type 0 where
      pub error : String
      pub new : List Event
      pub questions : All IsQuestion new
      pub runs :
          send_core_evm_asset from private_key to amount txid rpc w
          ≡ (fail error, record w { trace = new ++ w.trace })

    -- The result of handing a transaction over.
    abbrev pub handed : Option String → Outcome (Unit {0})
    handed none = ret tt
    handed (some bad) = fail bad

    -- One transaction, as the node answers, handed to it last.
    pub record IsSent : Type 0 where
      pub value : ℤ
      pub client : String
      pub named : str_eq to "" ≡ false
      pub known : str_eq txid "" ≡ false
      pub some_amount : amount ≡ some value
      pub some_client : rpc ≡ some client
      pub built : IsBuilt from private_key to value client w
      pub runs :
          let questions = t3 from private_key to value client w in
          send_core_evm_asset from private_key to amount txid rpc w ≡ (
            handed (p.send_transaction questions client built.signed),
            record w { trace = sent_transaction client built.signed ∷ questions },
          )

    refused :
        (error : String)
        → send_core_evm_asset from private_key to amount txid rpc w ≡ (fail error, w)
        → IsSent ⊎ IsUnsent
    refused error runs = inr (record { error = error; new = []; questions = tt; runs = runs })

    -- Whatever the arguments and the replies, `send_core_evm_asset` either returns an error after
    -- nothing but questions to the node; or the address, the transaction id, the amount and the
    -- client are there, and it hands over exactly one transaction, at the end, signed over the
    -- nonce, the gas price and the network that the node told, and returns as the node answers.
    pub send_core_evm_asset_cases : IsSent ⊎ IsUnsent
    unfolding send_core_evm_asset check_transfer
    send_core_evm_asset_cases = elim (Bool-cases (str_eq to "")) [
      | inl a ↦ refused "toAddress is empty" (rw a refl)
      | inr a ↦ elim (Option-cases amount) [
        | inl b ↦ refused "amount is nil" (rw a (rw b refl))
        | inr (value, b) ↦ elim (Option-cases rpc) [
          | inl c ↦ refused "rpcClient is nil" (rw a (rw b (rw c refl)))
          | inr (client, c) ↦ elim (Bool-cases (str_eq txid "")) [
            | inl d ↦ refused "txid is empty" (rw a (rw b (rw c (rw d refl))))
            | inr d ↦ elim (build_transfer_cases from private_key to value client w) [
              | inr u ↦ inr (record {
                error = u.error;
                new = u.new;
                questions = u.questions;
                runs = rw a (rw b (rw c (rw d (rw u.runs refl))));
              })
              | inl u ↦ inl (record {
                value = value;
                client = client;
                named = a;
                known = d;
                some_amount = b;
                some_client = c;
                built = u;
                runs = rw a (
                    rw b (
                      rw c (
                        rw d (
                          rw u.runs
                            (elim (Option-cases (
                              p.send_transaction (t3 from private_key to value client w) client
                                u.signed)) [ inl h ↦ rw h refl | inr (bad, h) ↦ rw h refl ])))));
              })
            ]
          ]
        ]
      ]
    ]
