-- ===== src/Server.antt =====
-- pkg/types.go: `ExchangeServer`, as far as its methods read it; the connections to Redis and to
-- the clients, and what the methods change, stand in `World`.
use party_bridge.Base.{String, Bool, Option}
use party_bridge.Base.Int.{ℤ}

-- The two RPC clients of a chain, each known by its address; `none` is a nil client, which a
-- failed dial leaves in development mode.
pub record EthereumNode : Type 0 where
  pub rpc_client : Option String
  pub rpc_client_two : Option String

pub record ExchangeServer : Type 0 where
  pub pod_name : String
  pub party_chain : EthereumNode
  pub oct_node : EthereumNode
  pub grams_shim_server_address : String
  pub octa_shim_server_address : String
  pub bsc_usdt_on_party_chain_shim_server_address : String
  pub bsc_usdt_on_octa_space_shim_server_address : String
  pub shim_cert_location : String
  pub dev : Bool
  pub watch : Bool
  pub minimum_amount : ℤ
  pub fee : ℤ
  pub ssl_crt_location : String
  pub server_ssl_key_file_path : String
  pub w_grams_on_octa_contract_address : String
  pub w_octa_on_party_chain_contract_address : String
  pub w_bscusdt_on_party_chain_contract_address : String
  pub w_bscusdt_on_octa_space_contract_address : String
