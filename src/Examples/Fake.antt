-- ===== src/Examples/Fake.antt =====
-- A platform to run the model on: a Redis that is a function, a shim that answers 500 only at the
-- address `down`, and nodes whose balances grow with every question.
use party_bridge.Base.{
  ℕ, zero, suc, ◌||◌, ◌*◌, ◌-◌, String, Bool, true, false, none, some, List, refl, inl, inr, length,
  Bool-cases, if◌then◌else◌,
}
use party_bridge.Base.Int.{ℤ, pos, geb_ℤ}
use party_bridge.Base.Text.{str_eq, codes}
use party_bridge.Types.{AccountWatchRequest, BridgeStorage}
use party_bridge.Platform.{Platform, IsReachable, Result, ok, err}
use party_bridge.Store.Tables.{IsWorking}
use party_bridge.Shim.Requests.{IsReady}

-- what a key holds
pub data Content : Type 0 where
  blank : Content
  requests_text : List AccountWatchRequest → Content
  accounts_text : List BridgeStorage → Content

abbrev is_blank : Content → Bool
is_blank blank = true
is_blank (requests_text rs) = false
is_blank (accounts_text bs) = false

abbrev read_requests : Content → Result (List AccountWatchRequest)
read_requests blank = err "unexpected end of JSON input"
read_requests (requests_text rs) = ok rs
read_requests (accounts_text bs) = err "not a list of requests"

abbrev read_accounts : Content → Result (List BridgeStorage)
read_accounts blank = err "unexpected end of JSON input"
read_accounts (requests_text rs) = err "not a list of accounts"
read_accounts (accounts_text bs) = ok bs

-- The node `octa` is some questions late, and `behind` never sees a payment.
abbrev balance_told : String → ℕ → ℤ
balance_told client n =
    if str_eq client "behind"
    then pos 0
    else if str_eq client "octa"
    then pos (10 * (n - 7))
    else pos (10 * n)

-- The longer the trace, the longer the id.
abbrev pub id_drawn : ℕ → String
id_drawn zero = "uuuuuuuuuu"
id_drawn (suc n) = String.◌∷◌ "u" (id_drawn n)

abbrev pub platform : Platform
platform = record {
  Db = String → Content;
  Text = Content;
  is_empty = is_blank;
  redis_get = λ key d. ok (d key);
  redis_set = λ key text d. (none, λ j. if str_eq j key then text else d j);
  requests_json = record { marshal = λ rs. ok (requests_text rs); unmarshal = read_requests };
  accounts_json = record { marshal = λ bs. ok (accounts_text bs); unmarshal = read_accounts };
  marshal_mint = λ m. ok m.from_pk;
  marshal_message = λ m. ok "message";
  marshal_order = λ o. ok o.order_id;
  unmarshal_request = λ text. record {
    kind = if str_eq text "small" || str_eq text "nothing" then "requestBridge" else text;
    request = record {
      currency = "octa";
      amount =
          if str_eq text "requestBridge"
          then some (pos 40)
          else if str_eq text "small"
          then some (pos 5)
          else none;
      from_chain = "octa";
      bridge_to = "grams";
      shipping_address = "0xc";
      tx_id = "";
    };
  };
  parse_uuid = λ text. ok (length (codes text));
  new_uuid = λ tr. id_drawn (length tr);
  now = λ tr. pos 5;
  Float = ℤ;
  float_of_int = λ v. v;
  Decimal = ℤ;
  decimal_of_float = λ v. v;
  decimal_of_string = λ text. pos 0;
  decimal_div = λ a b. a;
  big_string = λ v. "big";
  dial = λ tr url. if str_eq url "down" then some "no route to host" else none;
  ping = λ tr. none;
  pending_nonce_at = λ tr client account. ok 3;
  suggest_gas_price = λ tr client. ok (pos 20);
  network_id = λ tr client. ok (pos 1900);
  send_transaction = λ tr client signed. none;
  hex_to_ecdsa = λ text. if str_eq text "key" then ok 7 else err "invalid hex";
  sign_tx = λ tx chain key. ok "signed";
  decimal_pow = λ a b. pos 1;
  decimal_mul = λ a b. a;
  decimal_string = λ a. if geb_ℤ a (pos 10) then "ten" else "one";
  set_string = λ text. if str_eq text "ten" then pos 10 else pos 1;
  hex_of = λ d. "07";
  generate_key = λ tr. ok 7;
  address_of = λ k. "0xa";
  load_key_pair = λ tr cert key. none;
  read_file = λ tr name. none;
  write_file = λ tr name text. none;
  new_request = λ url. none;
  post = λ tr url text. ok (if str_eq url "https://down/mint" then 500 else 200);
  balance_at = λ tr client account. ok (balance_told client (length tr));
  balance_of = λ tr client contract account. ok (pos (10 * length tr));
  post_bsc = λ tr body. ok (200, ok "0x5");
  unmarshal_balance = λ text. ok text;
  parse_int = λ text. ok (pos 5);
}

pub reachable : IsReachable platform
reachable = record {
  set-accepts = λ k v d. refl;
  get-set = λ j k v d. elim (Bool-cases (str_eq j k)) [ inl h ↦ rw h refl | inr h ↦ rw h refl ];
}

abbrev pub works : IsWorking platform
works = record {
  reachable = reachable;
  requests_lossless = record {
    encode = requests_text;
    marshal-encode = λ rs. refl;
    encode-ne-empty = λ rs. refl;
    unmarshal-encode = λ rs. refl;
  };
  accounts_lossless = record {
    encode = accounts_text;
    marshal-encode = λ bs. refl;
    encode-ne-empty = λ bs. refl;
    unmarshal-encode = λ bs. refl;
  };
}

abbrev pub ready : IsReady platform
ready = record {
  pair_loads = λ tr cert key. refl;
  file_loads = λ tr name. refl;
  request_builds = λ url. refl;
  body = λ m. m.from_pk;
  encodes = λ m. refl;
}
