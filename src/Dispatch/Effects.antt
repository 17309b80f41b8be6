-- ===== src/Dispatch/Effects.antt =====
-- What the parts of `Dispatch` leave of the world: the reports touch only the trace, and what the
-- keys read as depends only on the database.
use party_bridge.Base.{String, List, [], ◌∷◌, ◌++◌, ◌≡◌, refl, ◌∙◌, inl, inr, Option-cases, All}
use party_bridge.Types.{AccountWatchRequestResult}
use party_bridge.Messages.{WsMessage}
use party_bridge.Platform.{Platform, Codec, Event, wrote, counted, timed, read_clock, Result-cases}
use party_bridge.Exec.{World, Exec, ret}
use party_bridge.Store.{load, decode}
use party_bridge.Store.Tables.{Tables, Represents}
use party_bridge.Notify.{
  find_client, write_message, send_status_msg, bridge_requests_inc, bridge_requests_duration_set,
}

-- What the client and the metrics are told, and the clock that the metrics read.
abbrev pub IsReport : Event → Type 0
IsReport (wrote sid text) = Unit
IsReport (counted status asset chain to) = Unit
IsReport (timed asset chain to duration) = Unit
IsReport read_clock = Unit
IsReport event = ⊥

-- The call returns, and has only added reports to the trace.
pub record Tells {p : Platform} (m : Exec p (Unit {0})) (w : World p) : Type 0 where
  pub new : List Event
  pub reports : All IsReport new
  pub runs : m w ≡ (ret tt, record w { trace = new ++ w.trace })

module _ {p : Platform} where
  load-db :
      {A : Type 0} (c : Codec p.Text A) (empty : A) (key : String) (w v : World p)
      → v.db ≡ w.db
      → (load c empty key v).0 ≡ (load c empty key w).0
  unfolding load
  load-db c empty key w v e =
      rw e (elim (Result-cases (decode p.is_empty c empty (p.redis_get key w.db))) [
        | inl (a, d) ↦ rw d
        | inr (m, d) ↦ rw d
      ])

  pub Represents-db :
      {w : World p} {t : Tables} (v : World p) → v.db ≡ w.db → Represents w t → Represents v t
  Represents-db {w} v e r = record {
    requests_held = load-db p.requests_json [] _ w v e ∙ r.requests_held;
    accounts_held = load-db p.accounts_json [] _ w v e ∙ r.accounts_held;
    failed_held = load-db p.requests_json [] _ w v e ∙ r.failed_held;
  }

  write_message-Tells : (sid : String) (m : WsMessage) (w : World p) → Tells (write_message sid m) w
  unfolding write_message
  write_message-Tells sid m w = elim (Result-cases (p.marshal_message m)) [
    | inl (text, e) ↦ record {
      new = Event.wrote sid text ∷ [];
      reports = (tt, tt);
      runs = rw e refl;
    }
    | inr (bad, e) ↦ record { new = []; reports = tt; runs = rw e refl }
  ]

  pub send_status_msg-Tells :
      (sid kind message : String) (w : World p) → Tells (send_status_msg sid kind message) w
  unfolding send_status_msg
  send_status_msg-Tells sid kind message w = elim (Option-cases (find_client sid w.ws_clients)) [
    | inl e ↦ record { new = []; reports = tt; runs = rw e refl }
    | inr (c, e) ↦
        let written =
          write_message-Tells c.sid (WsMessage.status (record { kind = kind; message = message }))
            w in
        record { new = written.new; reports = written.reports; runs = rw e written.runs }
  ]

  pub bridge_requests_inc-Tells :
      (status : String) (awrr : AccountWatchRequestResult) (w : World p)
      → Tells (bridge_requests_inc status awrr) w
  unfolding bridge_requests_inc
  bridge_requests_inc-Tells status awrr w = record { new = _ ∷ []; reports = (tt, tt); runs = refl }

  pub bridge_requests_duration_set-Tells :
      (awrr : AccountWatchRequestResult) (w : World p) → Tells (bridge_requests_duration_set awrr) w
  unfolding bridge_requests_duration_set
  bridge_requests_duration_set-Tells awrr w = record {
    new = _ ∷ _ ∷ [];
    reports = (tt, (tt, tt));
    runs = refl;
  }
