-- ===== src/Examples/Service.antt =====
-- The theorems on the life of the service, at concrete pods.
use party_bridge.Base.{ℕ, true, false, none, some, List, [], ◌∷◌, ◌≡◌, refl, ◌⊎◌, arith}
use party_bridge.Base.Int.{pos}
use party_bridge.Types.{AccountWatchRequest}
use party_bridge.Exec.{World, ret, pure, crash, Crash}
use party_bridge.Store.Requests.{unlock}
use party_bridge.Store.Tables.{Tables}
use party_bridge.Warren.{start_warren_tick}
use party_bridge.Warren.Service.{cancel, Service, pick, Reach, here, next, new_service, update}
use party_bridge.Warren.Invariant.{IsServiceSound, Reach-IsSound}
use party_bridge.Warren.Twice.{IsFree, two_pods_start}
use party_bridge.Lifecycle.{start}
use party_bridge.Lifecycle.Restart.{IsIn, start-resumes}
use party_bridge.Adapter.{EnvAccessor}
use party_bridge.Adapter.Laws.{IsStarted, IsPanic, new_adapter_cases}
use party_bridge.SendAsset.Laws.{IsSent, IsUnsent, send_core_evm_asset_cases}
use party_bridge.Examples.Fake.{platform, works}
use party_bridge.Examples.{server, order, request, world, world-Represents}

abbrev left : AccountWatchRequest
left = request "one" (pos 25) (order "octa" "grams" "grams")

abbrev free : AccountWatchRequest
free = record left { locked = false }

abbrev tables : Tables
tables = record { requests = free ∷ []; accounts = []; failed = [] }

abbrev service : Service platform
service = new_service 2 (λ i. server "grams:8080") (world tables)

abbrev free_pod : (i : ℕ) → IsFree (service.pods i)
free_pod i = record {
  loops = refl;
  nothing_to_send = refl;
  empty_channel = refl;
  has_worker = omega arith;
}

two_pods_start_example :
    (later : Service platform) × Reach 2 service later
    × (later.world ≡ world tables)
    × ((later.pods 0).started ≡ free ∷ [])
    × ((later.pods 1).started ≡ free ∷ [])
two_pods_start_example =
    two_pods_start 2 service 0 1 {t = tables} refl (omega arith) (world-Represents tables) refl
      (free_pod 0) (free_pod 1)

-- the service after a signal to the pod 0
abbrev signalled : Service platform
signalled = record {
  world = world tables;
  pods = update service.pods 0 (record (service.pods 0) { cancelled = true });
}

Reach-IsSound_example : IsServiceSound 2 signalled
Reach-IsSound_example =
    Reach-IsSound 2 (λ i. server "grams:8080") (world tables) (next here (pick 0 cancel))

start-resumes_example :
    let t : Tables = record tables { requests = left ∷ [] } in
    ((after : World platform) × (sent : List AccountWatchRequest) × (start
          (server "grams:8080")
          (pure tt)
          true
          none
          (world t)
        ≡ (ret tt, after))
      × (start_warren_tick after ≡ (ret sent, after))
      × IsIn (unlock "pod" left) sent)
    × (start (server "grams:8080") (pure tt) false none (world t)
        ≡ (crash Crash.nil_dereference, world t))
start-resumes_example =
    start-resumes works (server "grams:8080")
      (world-Represents (record tables { requests = left ∷ [] })) (pure tt)
      (world (record tables { requests = left ∷ [] })) none 0 refl refl refl refl

abbrev env : EnvAccessor
env = record {
  development = false;
  watch = true;
  smart_contract_private_key = "key";
  party_chain_rpc1 = "party";
  party_chain_rpc2 = "party2";
  octa_rpc1 = "octa";
  octa_rpc2 = "down";
  redis_address = "redis:6379";
  redis_password = "";
  redis_db = pos 0;
  w_grams_shim_server_address = "grams:8080";
  w_octa_shim_server_address = "octa:8080";
  w_bscusdt_on_octa_space_shim_server_address = "usdt:8081";
  w_bscusdt_on_party_chain_shim_server_address = "usdt:8080";
  shim_cert_location = "/certs";
  pod_name = "";
  minimum_amount = pos 10;
  fee = pos 1;
  w_grams_on_octa_contract_address = "0x1";
  w_octa_on_party_chain_contract_address = "0x2";
  w_bscusdt_on_party_chain_contract_address = "0x3";
  w_bscusdt_on_octa_contract_address = "0x4";
  server_ssl_crt_file_path = "/ssl/crt";
  server_ssl_key_file_path = "/ssl/key";
}

new_adapter_cases_example : IsStarted env (world tables) ⊎ IsPanic env (world tables)
new_adapter_cases_example = new_adapter_cases env (world tables)

send_core_evm_asset_cases_example :
    IsSent "0xa" "key" "0xb" (some (pos 25)) "one" (some "party") (world tables)
    ⊎ IsUnsent "0xa" "key" "0xb" (some (pos 25)) "one" (some "party") (world tables)
send_core_evm_asset_cases_example =
    send_core_evm_asset_cases "0xa" "key" "0xb" (some (pos 25)) "one" (some "party") (world tables)
