-- ===== src/Session/Records.antt =====
-- pkg/adapter.go: the records that a session builds.
use party_bridge.Base.{ℕ, ◌/◌, ◌*◌, String, false, Option, none}
use party_bridge.Base.Int.{ℤ, pos, negsuc, ◌+ℤ◌}
use party_bridge.Types.{Time, zero_time, AccountWatchRequest, BridgeRequest}
use party_bridge.Platform.{Platform}
use party_bridge.Server.{ExchangeServer}
use party_bridge.Exec.{Pointer, WebSocketClient}

-- `t.Unix()`, rounded down
abbrev pub unix : Time → ℤ
unix (pos n) = pos (n / 1_000_000_000)
unix (negsuc n) = negsuc (n / 1_000_000_000)

-- a request as decoded, its amount in the heap
abbrev pub shared : BridgeRequest ℤ → Option Pointer → BridgeRequest Pointer
shared r at = record {
  currency = r.currency;
  amount = at;
  from_chain = r.from_chain;
  bridge_to = r.bridge_to;
  shipping_address = r.shipping_address;
  tx_id = r.tx_id;
}

-- the request that the session stores
unfoldable pub watch_request :
    Platform
    → ExchangeServer
    → WebSocketClient
    → String
    → String
    → ℕ
    → Option ℤ
    → Time
    → Time
    → AccountWatchRequest
watch_request p e client id awrid acc amount deadline time = record {
  seller = false;
  account = p.address_of acc;
  chain = client.request.from_chain;
  amount = amount;
  nft_id = pos 0;
  transaction_id = id;
  time_out = unix deadline +ℤ pos (30 * 60);
  finalize_on_chain = false;
  assisted_sell_order_information = record {
    sellers_escrow_wallet = record {
      public_address = p.address_of acc;
      private_key = p.hex_of acc;
      chain = client.request.from_chain;
    };
    seller_refund_address = "";
    seller_shipping_address = client.request.shipping_address;
    trade_asset = client.request.bridge_to;
    price = none;
    currency = client.request.currency;
    amount = amount;
    bridge_to = client.request.bridge_to;
    bridge_from = client.request.from_chain;
  };
  locked = false;
  locked_time = zero_time;
  locked_by = e.pod_name;
  awrid = awrid;
  ws_client_id = client.sid;
  created_time = time;
}

-- a client that has asked for nothing yet
unfoldable pub fresh : String → WebSocketClient
fresh sid = record {
  sid = sid;
  acc = none;
  request = record {
    currency = "";
    amount = none;
    from_chain = "";
    bridge_to = "";
    shipping_address = "";
    tx_id = "";
  };
}
