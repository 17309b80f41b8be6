-- ===== src/Examples.antt =====
-- A concrete server, and requests, accounts and a world to run it on.
mod Fake
mod Stored
mod Service
mod Bridge
mod Watches
mod Sessions
mod Payouts
mod Systems
use party_bridge.Examples.Fake.{platform, requests_text, accounts_text, blank}
use party_bridge.Base.{
  ℕ, ◌||◌, ◌*◌, String, Bool, true, false, Option, none, some, List, [], ◌∷◌, ◌≡◌, refl, inl, inr,
  length, Bool-cases, if◌then◌else◌,
}
use party_bridge.Base.Int.{ℤ, pos, geb_ℤ}
use party_bridge.Base.Text.{str_eq, codes}
use party_bridge.Types.{
  EscrowWallet, AssistedTradeOrderInformation, AccountWatchRequest, AccountWatchRequestResult,
  BridgeStorage, BridgeRequest,
}
use party_bridge.Platform.{Platform, Codec, IsLossless, IsReachable, Result, ok, err}
use party_bridge.Exec.{World, WebSocketClient, Pointer}
use party_bridge.Server.{EthereumNode, ExchangeServer}
use party_bridge.Store.{load}
use party_bridge.Store.Tables.{Tables, IsWorking, Represents}
use party_bridge.Shim.Requests.{IsReady}

abbrev pub node : String → String → EthereumNode
node one two = record { rpc_client = some one; rpc_client_two = some two }

-- a server whose grams shim stands at this address
abbrev pub server : String → ExchangeServer
server shim = record {
  pod_name = "pod";
  party_chain = node "party" "party2";
  oct_node = node "octa" "octa2";
  grams_shim_server_address = shim;
  octa_shim_server_address = "octa:8080";
  bsc_usdt_on_party_chain_shim_server_address = "usdt:8080";
  bsc_usdt_on_octa_space_shim_server_address = "usdt:8081";
  shim_cert_location = "/certs";
  dev = false;
  watch = true;
  minimum_amount = pos 10;
  fee = pos 1;
  ssl_crt_location = "/ssl/crt";
  server_ssl_key_file_path = "/ssl/key";
  w_grams_on_octa_contract_address = "0x1";
  w_octa_on_party_chain_contract_address = "0x2";
  w_bscusdt_on_party_chain_contract_address = "0x3";
  w_bscusdt_on_octa_space_contract_address = "0x4";
}

-- an order for 25 of a currency, to and from these chains
abbrev pub order : String → String → String → AssistedTradeOrderInformation
order bridge_to bridge_from currency = record {
  sellers_escrow_wallet = record { public_address = "0xb"; private_key = "k"; chain = bridge_from };
  seller_refund_address = "";
  seller_shipping_address = "0xc";
  trade_asset = "";
  price = none;
  currency = currency;
  amount = some (pos 25);
  bridge_to = bridge_to;
  bridge_from = bridge_from;
}

abbrev pub request : String → ℤ → AssistedTradeOrderInformation → AccountWatchRequest
request id amount info = record {
  seller = true;
  account = "0xb";
  chain = info.bridge_from;
  amount = some amount;
  nft_id = pos 0;
  transaction_id = id;
  time_out = pos 0;
  finalize_on_chain = false;
  assisted_sell_order_information = info;
  locked = true;
  locked_time = pos 1;
  locked_by = "pod";
  awrid = id;
  ws_client_id = "s1";
  created_time = pos 1;
}

abbrev pub result_of : String → AccountWatchRequest → AccountWatchRequestResult
result_of outcome awr = record { account_watch_request = awr; result = outcome }

-- an account in the coins of a chain, that were bridged to another
abbrev pub account : String → String → String → ℤ → BridgeStorage
account id asset to amount = record {
  chain = asset;
  private_key = "secret";
  amount = some amount;
  asset = asset;
  id = id;
  bridge_from = asset;
  bridge_to = to;
}

abbrev empty_request : BridgeRequest Pointer
empty_request = record {
  currency = "";
  amount = none;
  from_chain = "";
  bridge_to = "";
  shipping_address = "";
  tx_id = "";
}

abbrev pub world : Tables → World platform
world t = record {
  db = λ key.
      if str_eq key "accountwatchrequests"
      then requests_text t.requests
      else if str_eq key "bridgeaccounts"
      then accounts_text t.accounts
      else if str_eq key "failedaccountwatchrequests"
      then requests_text t.failed
      else blank;
  trace = [];
  ws_clients = ("s1", record { sid = "s1"; acc = none; request = empty_request }) ∷ [];
  heap = [];
}

pub world-Represents : (t : Tables) → Represents (world t) t
unfolding load
world-Represents t = record { requests_held = refl; accounts_held = refl; failed_held = refl }
