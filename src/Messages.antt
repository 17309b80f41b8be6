-- ===== src/Messages.antt =====
-- pkg/types.go: the messages on a client's websocket.
use party_bridge.Base.{String, Option}
use party_bridge.Base.Int.{ℤ}
use party_bridge.Types.{BridgeRequest}

pub record HelloMsg : Type 0 where
  pub kind : String
  pub sid : String
  pub fee : ℤ
  pub minimum_amount : ℤ

pub record RequestBridgeMsg : Type 0 where
  pub kind : String
  pub request : BridgeRequest ℤ

pub record RequestBridgeResponseMsg : Type 0 where
  pub kind : String
  pub amount : Option ℤ
  pub address : String

pub record StatusMsg : Type 0 where
  pub kind : String
  pub message : String

-- The messages that the server encodes and writes.
pub data WsMessage : Type 0 where
  hello : HelloMsg → WsMessage
  response : RequestBridgeResponseMsg → WsMessage
  status : StatusMsg → WsMessage
