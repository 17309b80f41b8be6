-- ===== src/Types/Unused.antt =====
-- pkg/types.go: the structs that no code uses. A value of type `any` is of the type that the record
-- is over.
use party_bridge.Base.{String, Bool, Option, List}
use party_bridge.Base.Int.{ℤ}
use party_bridge.Types.{AssistedTradeOrderInformation}

-- the anonymous struct of `Token.Owners`
record TokenOwner (Any : Type 0) : Type 0 where
  token_address : String
  token_id : String
  amount : String
  owner_of : String
  token_hash : String
  block_number_minted : String
  block_number : String
  contract_type : String
  name : String
  symbol : String
  metadata : Any
  minter_address : String

record Token (Any : Type 0) : Type 0 where
  total : ℤ
  page_number : ℤ
  page_size : ℤ
  cursor : Any
  network : String
  owners : List (TokenOwner Any)

record ErrorEvent (Any : Type 0) : Type 0 where
  err : String
  context : String
  data_of : Any

record AccountGenResponse : Type 0 where
  private_key : String
  pub_key : String
  address : String

record SellOrder : Type 0 where
  currency : String
  amount : Option ℤ
  trade_asset : String
  price : Option ℤ
  tx_id : String
  locked : Bool
  seller_shipping_address : String
  seller_nkn_address : String
  payment_transaction_id : String
  refund_address : String
  private : Bool
  on_chain : Bool
  assisted : Bool
  assisted_trade_order_information : AssistedTradeOrderInformation
  nft_id : ℤ

record CompletedTransactionInformation : Type 0 where
  tx_id : String
  amount : Option ℤ
  blockchain : String
