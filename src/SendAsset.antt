-- ===== src/SendAsset.antt =====
-- pkg/evm.go `sendCoreEVMAsset`: a transfer of a chain's own coins, which nothing calls yet. An
-- address is known by its text.
pub mod Laws
use party_bridge.Base.{String, Option, none, some, if◌then◌else◌}
use party_bridge.Base.Int.{ℤ}
use party_bridge.Base.Text.{str_eq}
use party_bridge.Platform.{
  Platform, Transaction, asked_nonce, asked_gas_price, asked_network, sent_transaction,
}
use party_bridge.Exec.{Exec, gets, lift, deref, emit, check, check_nil, ◌>>=◌, ◌>>◌}

-- `if s == "" { return errors.New(e) }`
abbrev pub if_empty : String → String → Option String
if_empty s e = if str_eq s "" then some e else none

module _ {p : Platform} where
  -- the guards
  unfoldable pub check_transfer : String → Option ℤ → String → Option String → Exec p (Unit {0})
  check_transfer to amount txid rpc = do
    check (if_empty to "toAddress is empty")
    check_nil amount "amount is nil"
    check_nil rpc "rpcClient is nil"
    check (if_empty txid "txid is empty")

  -- from the nonce to the signed transaction
  unfoldable pub build_transfer : String → String → String → ℤ → String → Exec p String
  build_transfer from private_key to value client = do
    nonce_reply ← gets (λ w. p.pending_nonce_at w.trace client from)
    emit (asked_nonce client from)
    nonce ← lift nonce_reply
    price_reply ← gets (λ w. p.suggest_gas_price w.trace client)
    emit (asked_gas_price client)
    price ← lift price_reply
    network_reply ← gets (λ w. p.network_id w.trace client)
    emit (asked_network client)
    chain ← lift network_reply
    key ← lift (p.hex_to_ecdsa private_key)
    lift (
        p.sign_tx
          (record { nonce = nonce; to = to; value = value; gas_limit = 30000; gas_price = price })
          chain key)

  unfoldable pub send_core_evm_asset :
      String → String → String → Option ℤ → String → Option String → Exec p (Unit {0})
  unfolding check_transfer build_transfer
  send_core_evm_asset from private_key to amount txid rpc = do
    check_transfer to amount txid rpc
    value ← deref amount
    client ← deref rpc
    signed ← build_transfer from private_key to value client
    bad ← gets (λ w. p.send_transaction w.trace client signed)
    emit (sent_transaction client signed)
    check bad
