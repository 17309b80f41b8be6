-- ===== src/Store.antt =====
-- pkg/redis.go: the lists that the server keeps in Redis, each as one JSON text under a key. Every
-- operation reads the whole list, changes it and writes it back.
pub mod Search
pub mod Requests
pub mod Accounts
pub mod Removal
pub mod Tables
pub mod Refinement
pub mod Sequences
pub mod Nearest
pub mod Choice
pub mod Balances
use party_bridge.Base.{String, Bool, if◌then◌else◌}
use party_bridge.Platform.{Platform, Codec, Result, ok, err}
use party_bridge.Exec.{Exec, gets, lift, check, ◌>>=◌}

abbrev pub account_watch_requests : String
account_watch_requests = "accountwatchrequests"

abbrev pub bridge_accounts : String
bridge_accounts = "bridgeaccounts"

abbrev pub failed_account_watch_requests : String
failed_account_watch_requests = "failedaccountwatchrequests"

-- `text, _ := Get(key).Result(); if text != "" { json.Unmarshal(…) }`: an error leaves the text
-- empty, and the empty text leaves the list empty.
abbrev pub decode : {Text A : Type 0} → (Text → Bool) → Codec Text A → A → Result Text → Result A
decode is_empty c empty (ok text) = if is_empty text then ok empty else c.unmarshal text
decode is_empty c empty (err e) = ok empty

module _ {p : Platform} where
  -- how every operation begins: read the key, decode unless the text is empty
  unfoldable pub load : {A : Type 0} → Codec p.Text A → A → String → Exec p A
  load c empty key = do
    text ← gets (λ w. p.redis_get key w.db)
    lift (decode p.is_empty c empty text)

  redis_set : String → p.Text → Exec p (Unit {0})
  redis_set key text w = let (e, db) = p.redis_set key text w.db in check e (record w { db = db })

  -- how every operation ends: encode the list, write it under the key
  unfoldable pub save : {A : Type 0} → Codec p.Text A → String → A → Exec p (Unit {0})
  unfolding redis_set
  save c key a = do text ← lift (c.marshal a); redis_set key text
