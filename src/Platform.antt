-- ===== src/Platform.antt =====
-- What the program takes from outside the repository: the Redis client, `encoding/json` at the
-- program's types, go-ethereum, `net/http`, the clock and the random sources. A reply that the
-- outside chooses is a function of the trace of earlier effects, so no two calls need agree.
use party_bridge.Base.{
  ℕ, String, Option, none, List, ◌≡◌, refl, ◌⊎◌, inl, inr, Bool, false, if◌then◌else◌,
}
use party_bridge.Base.Text.{str_eq}
use party_bridge.Base.Int.{ℤ}
use party_bridge.Types.{Time, AccountWatchRequest, BridgeStorage, MintRequest, CompletedOrder}
use party_bridge.Messages.{WsMessage, RequestBridgeMsg}

-- A value and an `error`; errors are known by their text.
pub data Result {ℓ} (A : Type ℓ) : Type ℓ where
  ok : A → Result A
  err : String → Result A

pub Result-cases {ℓ} :
    {A : Type ℓ} (r : Result A) → ((a : A) × (r ≡ ok a)) ⊎ ((e : String) × (r ≡ err e))
Result-cases (ok a) = inl (a, refl)
Result-cases (err e) = inr (e, refl)

-- `json.Marshal` and `json.Unmarshal` at one type, to and from texts.
pub record Codec (Text : Type 0) (A : Type 0) : Type 0 where
  pub marshal : A → Result Text
  pub unmarshal : Text → Result A

-- An effect that the outside can see, or a question put to it.
pub data Event : Type 0 where
  -- a request to a shim server: the URL and the body
  posted : String → String → Event
  -- a text frame to the websocket of a session
  wrote : String → String → Event
  -- the counter, by its labels: status, asset, chain, destination
  counted : String → String → String → String → Event
  -- the duration gauge, by its labels and the duration
  timed : String → String → String → ℤ → Event
  -- a question to a node: the client and the account
  asked_balance : String → String → Event
  -- a question to a node about a token contract: the client, the contract and the account
  asked_token : String → String → String → Event
  -- a question to the BSC endpoint: the body
  asked_bsc : String → Event
  wrote_file : String → String → Event
  -- dialling a node, by its URL, and a ping to Redis
  dialed : String → Event
  pinged : Event
  -- questions to a node about an account's next nonce, the gas price and the network
  asked_nonce : String → String → Event
  asked_gas_price asked_network : String → Event
  -- a signed transaction handed to a node
  sent_transaction : String → String → Event
  drew_uuid read_clock generated_key : Event

-- What `types.NewTransaction` holds of a transfer.
pub record Transaction : Type 0 where
  pub nonce : ℕ
  pub to : String
  pub value : ℤ
  pub gas_limit : ℕ
  pub gas_price : ℤ

pub record Platform : Type 1 where
  -- the database server, and the connection to it
  pub Db : Type 0
  -- the texts that Redis holds, and whether one is `""`
  pub Text : Type 0
  pub is_empty : Text → Bool
  -- `redisClient.Get(ctx, key).Result()`; what it answers depends on the key and the database only
  pub redis_get : String → Db → Result Text
  -- `redisClient.Set(ctx, key, value, 0).Err()`
  pub redis_set : String → Text → Db → Option String × Db
  pub requests_json : Codec Text (List AccountWatchRequest)
  pub accounts_json : Codec Text (List BridgeStorage)
  pub marshal_mint : MintRequest → Result String
  pub marshal_message : WsMessage → Result String
  pub marshal_order : CompletedOrder → Result String
  -- `json.Unmarshal` into a fresh `RequestBridgeMsg`, its error ignored
  pub unmarshal_request : String → RequestBridgeMsg
  -- `uuid.Parse`: the sixteen bytes as one number
  pub parse_uuid : String → Result ℕ
  -- `uuid.New().String()`
  pub new_uuid : List Event → String
  -- `time.Now()`
  pub now : List Event → Time
  -- `float64`, and the decimals of github.com/shopspring/decimal: `NewFromFloat`, `NewFromString`
  -- with its error ignored, `Pow`, `Mul`, `Div`, `String`
  pub Float : Type 0
  pub float_of_int : ℤ → Float
  pub Decimal : Type 0
  pub decimal_of_float : Float → Decimal
  pub decimal_of_string : String → Decimal
  pub decimal_div : Decimal → Decimal → Decimal
  pub decimal_pow : Decimal → Decimal → Decimal
  pub decimal_mul : Decimal → Decimal → Decimal
  pub decimal_string : Decimal → String
  -- `new(big.Int).SetString(text, 10)`: the number that is left
  pub set_string : String → ℤ
  -- `x.String()` of a `*big.Int`
  pub big_string : Option ℤ → String
  -- `hex.EncodeToString(d.Bytes())`
  pub hex_of : ℕ → String
  -- `crypto.GenerateKey()`: the secret scalar
  pub generate_key : List Event → Result ℕ
  -- `crypto.PubkeyToAddress(key.PublicKey).String()`
  pub address_of : ℕ → String
  -- `tls.LoadX509KeyPair(cert, key)`: its error
  pub load_key_pair : List Event → String → String → Option String
  -- `ioutil.ReadFile(name)`: its error
  pub read_file : List Event → String → Option String
  -- `os.WriteFile(name, text, 0644)`: its error
  pub write_file : List Event → String → String → Option String
  -- `http.NewRequest("POST", url, body)`: its error
  pub new_request : String → Option String
  -- `client.Do(req)`: the status code
  pub post : List Event → String → String → Result ℕ
  -- `ethclient.Dial(url)`: its error
  pub dial : List Event → String → Option String
  -- `redisClient.Ping(ctx).Result()`: its error
  pub ping : List Event → Option String
  -- `PendingNonceAt`, `SuggestGasPrice`, `NetworkID` and `SendTransaction` of a client
  pub pending_nonce_at : List Event → String → String → Result ℕ
  pub suggest_gas_price : List Event → String → Result ℤ
  pub network_id : List Event → String → Result ℤ
  pub send_transaction : List Event → String → String → Option String
  -- `crypto.HexToECDSA(text)`: the secret scalar
  pub hex_to_ecdsa : String → Result ℕ
  -- `types.SignTx(tx, types.NewEIP155Signer(chainID), key)`, encoded
  pub sign_tx : Transaction → ℤ → ℕ → Result String
  -- `rpc.BalanceAt(ctx, account, nil)`
  pub balance_at : List Event → String → String → Result ℤ
  -- `bridge.NewPartyBridge(contract, rpc)`, then `BalanceOf(nil, account)`
  pub balance_of : List Event → String → String → String → Result ℤ
  -- `client.Do(req)` to the BSC endpoint: the status code and what reading the body yields
  pub post_bsc : List Event → String → Result (ℕ × Result String)
  -- `json.Unmarshal` of a `BalanceResponse`: the field `Result`
  pub unmarshal_balance : String → Result String
  -- `strconv.ParseInt(text, 0, 64)`
  pub parse_int : String → Result ℤ

-- A codec that loses nothing, and never encodes to the empty text.
pub record IsLossless (p : Platform) {A : Type 0} (c : Codec p.Text A) : Type 0 where
  pub encode : A → p.Text
  pub marshal-encode : (a : A) → c.marshal a ≡ ok (encode a)
  pub encode-ne-empty : (a : A) → p.is_empty (encode a) ≡ false
  pub unmarshal-encode : (a : A) → c.unmarshal (encode a) ≡ ok a

-- A Redis server that answers: what was written last under a key is read back.
pub record IsReachable (p : Platform) : Type 0 where
  pub set-accepts : (k : String) (v : p.Text) (d : p.Db) → (p.redis_set k v d).0 ≡ none
  pub get-set :
      (j k : String) (v : p.Text) (d : p.Db)
      → p.redis_get j (p.redis_set k v d).1 ≡ (if str_eq j k then ok v else p.redis_get j d)
