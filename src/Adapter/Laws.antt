-- ===== src/Adapter/Laws.antt =====
-- pkg/adapter.go `NewAdapter`: the servers that it returns, and when it panics.
use party_bridge.Base.{
  String, Bool, true, false, Option, none, some, List, ◌∷◌, ◌≡◌, refl, ◌⊎◌, inl, inr, Bool-cases,
  Option-cases, if◌then◌else◌,
}
use party_bridge.Base.Text.{str_eq}
use party_bridge.Platform.{Platform, Event, dialed, pinged, drew_uuid}
use party_bridge.Server.{EthereumNode, ExchangeServer}
use party_bridge.Exec.{World, Crash, ret, crash}
use party_bridge.Adapter.{
  EnvAccessor, server_of, dial, dial_node, pod_name_of, connect, new_adapter,
}

-- Each setting is that of the environment.
pub record HasSettings (env : EnvAccessor) (e : ExchangeServer) : Type 0 where
  pub grams_shim : e.grams_shim_server_address ≡ env.w_grams_shim_server_address
  pub octa_shim : e.octa_shim_server_address ≡ env.w_octa_shim_server_address
  pub usdt_on_party_chain_shim :
      e.bsc_usdt_on_party_chain_shim_server_address
      ≡ env.w_bscusdt_on_party_chain_shim_server_address
  pub usdt_on_octa_space_shim :
      e.bsc_usdt_on_octa_space_shim_server_address ≡ env.w_bscusdt_on_octa_space_shim_server_address
  pub shim_cert : e.shim_cert_location ≡ env.shim_cert_location
  pub mode : e.dev ≡ env.development
  pub watches : e.watch ≡ env.watch
  pub minimum : e.minimum_amount ≡ env.minimum_amount
  pub same_fee : e.fee ≡ env.fee
  pub ssl_crt : e.ssl_crt_location ≡ env.server_ssl_crt_file_path
  pub ssl_key : e.server_ssl_key_file_path ≡ env.server_ssl_key_file_path
  pub w_grams : e.w_grams_on_octa_contract_address ≡ env.w_grams_on_octa_contract_address
  pub w_octa : e.w_octa_on_party_chain_contract_address ≡ env.w_octa_on_party_chain_contract_address
  pub usdt_on_party_chain :
      e.w_bscusdt_on_party_chain_contract_address ≡ env.w_bscusdt_on_party_chain_contract_address
  pub usdt_on_octa_space :
      e.w_bscusdt_on_octa_space_contract_address ≡ env.w_bscusdt_on_octa_contract_address

server_of-HasSettings :
    (env : EnvAccessor) (party octa : EthereumNode) (name : String)
    → HasSettings env (server_of env party octa name)
unfolding server_of
server_of-HasSettings env party octa name = record {
  grams_shim = refl;
  octa_shim = refl;
  usdt_on_party_chain_shim = refl;
  usdt_on_octa_space_shim = refl;
  shim_cert = refl;
  mode = refl;
  watches = refl;
  minimum = refl;
  same_fee = refl;
  ssl_crt = refl;
  ssl_key = refl;
  w_grams = refl;
  w_octa = refl;
  usdt_on_party_chain = refl;
  usdt_on_octa_space = refl;
}

-- What was asked by then, the newest first: the dials in their order, and a new name where the
-- environment has none.
module _ (env : EnvAccessor) (trace : List Event) where
  abbrev pub first_dial : List Event
  first_dial = dialed env.party_chain_rpc1 ∷ trace

  abbrev pub second_dial : List Event
  second_dial = dialed env.party_chain_rpc2 ∷ first_dial

  abbrev pub third_dial : List Event
  third_dial = dialed env.octa_rpc1 ∷ second_dial

  abbrev pub fourth_dial : List Event
  fourth_dial = dialed env.octa_rpc2 ∷ third_dial

  abbrev pub named : List Event
  named = if str_eq env.pod_name "" then drew_uuid ∷ fourth_dial else fourth_dial

-- The dial goes through, or it fails with an error.
abbrev pub IsUp : Platform → List Event → String → Type 0
IsUp p trace url = p.dial trace url ≡ none

abbrev pub IsDown : Platform → List Event → String → Type 0
IsDown p trace url = (bad : String) × (p.dial trace url ≡ some bad)

-- A client of the URL if the dial goes through, and none if it fails, which is put up with in
-- development mode only.
abbrev pub IsDialed : Platform → Bool → List Event → String → Option String → Type 0
IsDialed p development trace url client =
    (IsUp p trace url × (client ≡ some url))
    ⊎ (IsDown p trace url × (development ≡ true) × (client ≡ none))

-- The name of the environment, or if that is empty a new one.
abbrev pub IsName : Platform → String → List Event → String → Type 0
IsName p given trace name =
    (str_eq given "" ≡ false → name ≡ given) × (str_eq given "" ≡ true → name ≡ p.new_uuid trace)

-- The first reply that is an error, and what was asked up to it.
pub data Refusal (p : Platform) (env : EnvAccessor) (trace : List Event) : List Event → Type 0 where
  first : IsDown p trace env.party_chain_rpc1 → Refusal p env trace (first_dial env trace)
  second :
      IsUp p trace env.party_chain_rpc1
      → IsDown p (first_dial env trace) env.party_chain_rpc2
      → Refusal p env trace (second_dial env trace)
  third :
      IsUp p trace env.party_chain_rpc1
      → IsUp p (first_dial env trace) env.party_chain_rpc2
      → IsDown p (second_dial env trace) env.octa_rpc1
      → Refusal p env trace (third_dial env trace)
  fourth :
      IsUp p trace env.party_chain_rpc1
      → IsUp p (first_dial env trace) env.party_chain_rpc2
      → IsUp p (second_dial env trace) env.octa_rpc1
      → IsDown p (third_dial env trace) env.octa_rpc2
      → Refusal p env trace (fourth_dial env trace)
  no_redis :
      {bad : String}
      → IsUp p trace env.party_chain_rpc1
      → IsUp p (first_dial env trace) env.party_chain_rpc2
      → IsUp p (second_dial env trace) env.octa_rpc1
      → IsUp p (third_dial env trace) env.octa_rpc2
      → p.ping (named env trace) ≡ some bad
      → Refusal p env trace (pinged ∷ named env trace)

-- Outside development mode, a dial that is not refused has gone through.
dialed-IsUp :
    (p : Platform) {development : Bool} {trace : List Event} {url : String} {client : Option String}
    → development ≡ false
    → IsDialed p development trace url client
    → IsUp p trace url
dialed-IsUp p strict (inl (up, e)) = up
dialed-IsUp p strict (inr (down, lax, e)) = absurd (cc (strict, lax))

module _ {p : Platform} where
  abbrev after_dial : String → World p → World p
  after_dial url w = record w { trace = dialed url ∷ w.trace }

  -- A dial that panics ends everything.
  dial_cases :
      (development : Bool) (url : String) (w : World p)
      → ((c : Option String) × (dial development url w ≡ (ret c, after_dial url w))
          × IsDialed p development w.trace url c)
        ⊎ ((development ≡ false)
            × IsDown p w.trace url
            × (dial development url w ≡ (crash Crash.panicked, after_dial url w)))
  unfolding dial
  dial_cases development url w = elim (Option-cases (p.dial w.trace url)) [
    | inl e ↦ inl (some url, rw e refl, inl (e, refl))
    | inr (bad, e) ↦ elim (Bool-cases development) [
      | inl d ↦ inl (none, rw e (rw d refl), inr ((bad, e), d, refl))
      | inr d ↦ inr (d, (bad, e), rw e (rw d refl))
    ]
  ]

  pod_name_of_lem :
      (given : String) (w : World p)
      → (name : String) × (pod_name_of given w ≡ (
        ret name,
        record w { trace = if str_eq given "" then drew_uuid ∷ w.trace else w.trace },
      ))
        × IsName p given w.trace name
  unfolding pod_name_of
  pod_name_of_lem given w = elim (Bool-cases (str_eq given "")) [
    | inl e ↦ (p.new_uuid w.trace, rw e refl, ((λ h. absurd (cc (e, h))), λ h. refl))
    | inr e ↦ (given, rw e refl, ((λ h. refl), (λ h. absurd (cc (e, h)))))
  ]

  -- the name and the ping, after the nodes
  abbrev named_after : EnvAccessor → World p → List Event
  named_after env w = if str_eq env.pod_name "" then drew_uuid ∷ w.trace else w.trace

  record IsConnected (env : EnvAccessor) (party octa : EthereumNode) (w : World p) : Type 0 where
    id : String
    runs :
        connect env party octa w
        ≡ (ret (server_of env party octa id), record w { trace = pinged ∷ named_after env w })
    up : (p.ping (named_after env w) ≡ none) ⊎ (env.development ≡ true)
    name : IsName p env.pod_name w.trace id

  connect_cases :
      (env : EnvAccessor) (party octa : EthereumNode) (w : World p)
      → IsConnected env party octa w
        ⊎ ((env.development ≡ false)
            × (bad : String) × (p.ping (named_after env w) ≡ some bad)
            × (connect env party octa w
                ≡ (crash Crash.panicked, record w { trace = pinged ∷ named_after env w })))
  unfolding connect
  connect_cases env party octa w =
      let (id, e, name) = pod_name_of_lem env.pod_name w in
      elim (Option-cases (p.ping (named_after env w))) [
        | inl h ↦ inl (record { id = id; runs = rw e (rw h refl); up = inl h; name = name })
        | inr (bad, h) ↦ elim (Bool-cases env.development) [
          | inl d ↦ inl (record { id = id; runs = rw e (rw h (simp d)); up = inr d; name = name })
          | inr d ↦ inr (d, bad, h, rw e (rw h (simp d)))
        ]
      ]

  -- A server with the settings of the environment.
  pub record IsStarted (env : EnvAccessor) (w : World p) : Type 0 where
    pub server : ExchangeServer
    pub runs : new_adapter env w ≡ (ret server, record w { trace = pinged ∷ named env w.trace })
    pub settings : HasSettings env server
    pub party_client :
        IsDialed p env.development w.trace env.party_chain_rpc1 server.party_chain.rpc_client
    pub party_client_two :
        IsDialed p env.development
          (first_dial env w.trace)
          env.party_chain_rpc2
          server.party_chain.rpc_client_two
    pub octa_client :
        IsDialed p env.development
          (second_dial env w.trace)
          env.octa_rpc1
          server.oct_node.rpc_client
    pub octa_client_two :
        IsDialed p env.development
          (third_dial env w.trace)
          env.octa_rpc2
          server.oct_node.rpc_client_two
    pub redis : (p.ping (named env w.trace) ≡ none) ⊎ (env.development ≡ true)
    pub name : IsName p env.pod_name (fourth_dial env w.trace) server.pod_name

  -- A panic at the first error.
  pub record IsPanic (env : EnvAccessor) (w : World p) : Type 0 where
    pub strict : env.development ≡ false
    pub trace : List Event
    pub refused : Refusal p env w.trace trace
    pub panics : new_adapter env w ≡ (crash Crash.panicked, record w { trace = trace })

  -- Whatever the environment and the replies, `new_adapter` does one of two things. It returns a
  -- server after four dials, a new name where the environment has none, and a ping to Redis: each
  -- setting of the server is that of the environment, each of its clients is one of the URL in its
  -- place if that dial went through, and missing if it failed, which is so in development mode
  -- only, the ping went through except in development mode, and the name is that of the
  -- environment, or the one drawn if that is empty. Or it is not in development mode and panics at
  -- the first dial or ping whose reply is an error, after all before it went through, with nothing
  -- done after it.
  pub new_adapter_cases : (env : EnvAccessor) (w : World p) → IsStarted env w ⊎ IsPanic env w
  unfolding new_adapter dial_node connect server_of
  new_adapter_cases env w =
      let mode = env.development in
      let w1 : World p = after_dial env.party_chain_rpc1 w in
      let w2 : World p = after_dial env.party_chain_rpc2 w1 in
      let w3 : World p = after_dial env.octa_rpc1 w2 in
      let w4 : World p = after_dial env.octa_rpc2 w3 in
      elim (dial_cases mode env.party_chain_rpc1 w) [
        | inr (d, bad, e1) ↦ inr (record {
          strict = d;
          trace = first_dial env w.trace;
          refused = Refusal.first bad;
          panics = rw e1 refl;
        })
        | inl (a, e1, h1) ↦ elim (dial_cases mode env.party_chain_rpc2 w1) [
          | inr (d, bad, e2) ↦ inr (record {
            strict = d;
            trace = second_dial env w.trace;
            refused = Refusal.second (dialed-IsUp p d h1) bad;
            panics = rw e1 (rw e2 refl);
          })
          | inl (b, e2, h2) ↦ elim (dial_cases mode env.octa_rpc1 w2) [
            | inr (d, bad, e3) ↦ inr (record {
              strict = d;
              trace = third_dial env w.trace;
              refused = Refusal.third (dialed-IsUp p d h1) (dialed-IsUp p d h2) bad;
              panics = rw e1 (rw e2 (rw e3 refl));
            })
            | inl (c, e3, h3) ↦ elim (dial_cases mode env.octa_rpc2 w3) [
              | inr (d, bad, e4) ↦ inr (record {
                strict = d;
                trace = fourth_dial env w.trace;
                refused =
                    Refusal.fourth (dialed-IsUp p d h1) (dialed-IsUp p d h2) (dialed-IsUp p d h3)
                      bad;
                panics = rw e1 (rw e2 (rw e3 (rw e4 refl)));
              })
              | inl (k, e4, h4) ↦
                  let party : EthereumNode = record { rpc_client = a; rpc_client_two = b } in
                  let octa : EthereumNode = record { rpc_client = c; rpc_client_two = k } in
                  elim (connect_cases env party octa w4) [
                    | inl done ↦ inl (record {
                      server = server_of env party octa done.id;
                      runs = rw e1 (rw e2 (rw e3 (rw e4 done.runs)));
                      settings = server_of-HasSettings env party octa done.id;
                      party_client = h1;
                      party_client_two = h2;
                      octa_client = h3;
                      octa_client_two = h4;
                      redis = done.up;
                      name = done.name;
                    })
                    | inr (d, bad, gone, e5) ↦ inr (record {
                      strict = d;
                      trace = pinged ∷ named env w.trace;
                      refused =
                          Refusal.no_redis (dialed-IsUp p d h1) (dialed-IsUp p d h2)
                            (dialed-IsUp p d h3) (dialed-IsUp p d h4) gone;
                      panics = rw e1 (rw e2 (rw e3 (rw e4 e5)));
                    })
                  ]
            ]
          ]
        ]
      ]
