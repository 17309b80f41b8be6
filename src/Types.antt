-- ===== src/Types.antt =====
-- pkg/types.go: the chains and assets, the watch requests and orders that travel between the
-- parts as JSON. A `*big.Int` is `Option ℤ` (`none` is nil) where no two structs share it. Instants
-- are nanoseconds since 1970, and the zero `time.Time` is the one of the year 1.
mod Unused
use party_bridge.Base.{◌-◌, ◌*◌, String, Bool, Option}
use party_bridge.Base.Int.{ℤ, negsuc}

abbrev pub grams : String
grams = "grams"

abbrev pub octa : String
octa = "octa"

abbrev pub bscusdt : String
bscusdt = "bscusdt"

abbrev pub wbscusdt : String
wbscusdt = "wbscusdt"

abbrev pub wgrams : String
wgrams = "wgrams"

abbrev pub wocta : String
wocta = "wocta"

abbrev pub Time : Type 0
Time = ℤ

abbrev pub zero_time : Time
zero_time = negsuc (62_135_596_800 * 1_000_000_000 - 1)

pub record EscrowWallet : Type 0 where
  pub public_address : String
  pub private_key : String
  pub chain : String

pub record AssistedTradeOrderInformation : Type 0 where
  pub sellers_escrow_wallet : EscrowWallet
  pub seller_refund_address : String
  pub seller_shipping_address : String
  pub trade_asset : String
  pub price : Option ℤ
  pub currency : String
  pub amount : Option ℤ
  pub bridge_to : String
  pub bridge_from : String

pub record AccountWatchRequest : Type 0 where
  pub seller : Bool
  pub account : String
  pub chain : String
  pub amount : Option ℤ
  pub nft_id : ℤ
  pub transaction_id : String
  pub time_out : ℤ
  pub finalize_on_chain : Bool
  pub assisted_sell_order_information : AssistedTradeOrderInformation
  pub locked : Bool
  pub locked_time : Time
  pub locked_by : String
  pub awrid : String
  pub ws_client_id : String
  pub created_time : Time

pub record AccountWatchRequestResult : Type 0 where
  pub account_watch_request : AccountWatchRequest
  pub result : String

-- `BridgeRequest`, over the type that stands for `*big.Int`: a value as decoded from JSON, or a
-- pointer where the session shares it.
pub record BridgeRequest (A : Type 0) : Type 0 where
  pub currency : String
  pub amount : Option A
  pub from_chain : String
  pub bridge_to : String
  pub shipping_address : String
  pub tx_id : String

-- The order that the fallback file keeps.
pub record CompletedOrder : Type 0 where
  pub buyer_escrow_wallet : EscrowWallet
  pub seller_escrow_wallet : EscrowWallet
  pub seller_payment_complete : Bool
  pub buyer_payment_complete : Bool
  pub amount : Option ℤ
  pub order_id : String
  pub buyer_shipping_address : String
  pub buyer_refund_address : String
  pub buyer_to_finalize_on_chain : Bool
  pub seller_refund_address : String
  pub seller_shipping_address : String
  pub seller_to_finalize_on_chain : Bool
  pub buyer_nkn_address : String
  pub seller_nkn_address : String
  pub trade_asset : String
  pub currency : String
  pub price : Option ℤ
  pub timeout : ℤ
  pub stage : ℤ
  pub failure_reason : String
  pub assisted : Bool
  pub assisted_trade_order_information : Option AssistedTradeOrderInformation
  pub nft_id : ℤ

-- pkg/redis.go: a key held by the bridge, with the coins that it can pay out.
pub record BridgeStorage : Type 0 where
  pub chain : String
  pub private_key : String
  pub amount : Option ℤ
  pub asset : String
  pub id : String
  pub bridge_from : String
  pub bridge_to : String

-- pkg/shim.go: the body of a request to a shim server.
pub record MintRequest : Type 0 where
  pub to_address : String
  pub amount : Option ℤ
  pub from_pk : String
  pub sid : String
