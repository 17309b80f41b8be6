-- ===== src/Adapter.antt =====
-- pkg/adapter.go `NewAdapter`: the server from its environment (`envAccessor` of pkg/types.go).
pub mod Laws
use party_bridge.Base.{String, Bool, Option, none, some, if◌then◌else◌}
use party_bridge.Base.Int.{ℤ}
use party_bridge.Base.Text.{str_eq}
use party_bridge.Platform.{Platform, dialed, pinged, drew_uuid}
use party_bridge.Server.{EthereumNode, ExchangeServer}
use party_bridge.Exec.{Exec, Crash, pure, die, gets, emit, ◌>>=◌, ◌>>◌}

pub record EnvAccessor : Type 0 where
  pub development : Bool
  pub watch : Bool
  pub smart_contract_private_key : String
  pub party_chain_rpc1 : String
  pub party_chain_rpc2 : String
  pub octa_rpc1 : String
  pub octa_rpc2 : String
  pub redis_address : String
  pub redis_password : String
  pub redis_db : ℤ
  pub w_grams_shim_server_address : String
  pub w_octa_shim_server_address : String
  pub w_bscusdt_on_octa_space_shim_server_address : String
  pub w_bscusdt_on_party_chain_shim_server_address : String
  pub shim_cert_location : String
  pub pod_name : String
  pub minimum_amount : ℤ
  pub fee : ℤ
  pub w_grams_on_octa_contract_address : String
  pub w_octa_on_party_chain_contract_address : String
  pub w_bscusdt_on_party_chain_contract_address : String
  pub w_bscusdt_on_octa_contract_address : String
  pub server_ssl_crt_file_path : String
  pub server_ssl_key_file_path : String

-- the assignments from the environment to the server
unfoldable pub server_of : EnvAccessor → EthereumNode → EthereumNode → String → ExchangeServer
server_of env party octa pod_name = record {
  pod_name = pod_name;
  party_chain = party;
  oct_node = octa;
  grams_shim_server_address = env.w_grams_shim_server_address;
  octa_shim_server_address = env.w_octa_shim_server_address;
  bsc_usdt_on_party_chain_shim_server_address = env.w_bscusdt_on_party_chain_shim_server_address;
  bsc_usdt_on_octa_space_shim_server_address = env.w_bscusdt_on_octa_space_shim_server_address;
  shim_cert_location = env.shim_cert_location;
  dev = env.development;
  watch = env.watch;
  minimum_amount = env.minimum_amount;
  fee = env.fee;
  ssl_crt_location = env.server_ssl_crt_file_path;
  server_ssl_key_file_path = env.server_ssl_key_file_path;
  w_grams_on_octa_contract_address = env.w_grams_on_octa_contract_address;
  w_octa_on_party_chain_contract_address = env.w_octa_on_party_chain_contract_address;
  w_bscusdt_on_party_chain_contract_address = env.w_bscusdt_on_party_chain_contract_address;
  w_bscusdt_on_octa_space_contract_address = env.w_bscusdt_on_octa_contract_address;
}

module _ {p : Platform} where
  -- `if err != nil { if !env.Development { panic(err) } }`, and what is left otherwise
  abbrev pub unless_development : {A : Type 0} → Bool → Option String → A → A → Exec p A
  unless_development development none there gone w = pure there w
  unless_development development (some e) there gone w =
      if development then pure gone w else die Crash.panicked w

  -- `ethclient.Dial(url)`
  unfoldable pub dial : Bool → String → Exec p (Option String)
  dial development url = do
    bad ← gets (λ w. p.dial w.trace url)
    emit (dialed url)
    unless_development development bad (some url) none

  -- the name from the environment, or a new one
  unfoldable pub pod_name_of : String → Exec p String
  pod_name_of name =
      if str_eq name ""
      then (do id ← gets (λ w. p.new_uuid w.trace); emit drew_uuid; pure id)
      else pure name

  -- the two clients of a node
  unfoldable pub dial_node : Bool → String → String → Exec p EthereumNode
  unfolding dial
  dial_node development url url_two = do
    client ← dial development url
    client_two ← dial development url_two
    pure (record { rpc_client = client; rpc_client_two = client_two })

  -- what follows the nodes: the name, and the ping to Redis
  unfoldable pub connect : EnvAccessor → EthereumNode → EthereumNode → Exec p ExchangeServer
  unfolding pod_name_of server_of
  connect env party octa = do
    name ← pod_name_of env.pod_name
    bad ← gets (λ w. p.ping w.trace)
    emit pinged
    unless_development env.development bad tt tt
    pure (server_of env party octa name)

  unfoldable pub new_adapter : EnvAccessor → Exec p ExchangeServer
  unfolding dial_node connect
  new_adapter env = do
    party ← dial_node env.development env.party_chain_rpc1 env.party_chain_rpc2
    octa ← dial_node env.development env.octa_rpc1 env.octa_rpc2
    connect env party octa
