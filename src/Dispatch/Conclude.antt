-- ===== src/Dispatch/Conclude.antt =====
-- pkg/helper.go: how a `Dispatch` ends, and its last part, which reports a success.
use party_bridge.Base.{ℕ, String, List, ◌++◌, ◌≡◌, refl, ◌∙◌, All, All-append}
use mathlib.Core.List.{append_assoc}
use party_bridge.Types.{AccountWatchRequestResult}
use party_bridge.Platform.{Platform, Event}
use party_bridge.Server.{ExchangeServer}
use party_bridge.Exec.{World, Exec, ret, fail}
use party_bridge.Store.Removal.{IsUnique, others}
use party_bridge.Store.Refinement.{remove-Performs}
use party_bridge.Store.Tables.{Tables, IsWorking, Represents}
use party_bridge.Dispatch.{conclude}
use party_bridge.Dispatch.Effects.{
  IsReport, Represents-db, send_status_msg-Tells, bridge_requests_inc-Tells,
  bridge_requests_duration_set-Tells,
}

-- The call returns, the keys then read as `t`, and the trace has grown by reports on top
-- of `base`.
pub record Concludes {p : Platform} (m : Exec p (Unit {0})) (w : World p) (t : Tables)
    (base : List Event) : Type 0 where
  pub after : World p
  pub runs : m w ≡ (ret tt, after)
  pub represents : Represents after t
  pub new : List Event
  pub reports : All IsReport new
  pub grows : after.trace ≡ new ++ base

-- The call returns this error, the keys then read as `t`, and the trace has grown by reports on top
-- of `base`.
pub record Fails {p : Platform} (m : String) (f : Exec p (Unit {0})) (w : World p) (t : Tables)
    (base : List Event) : Type 0 where
  pub after : World p
  pub runs : f w ≡ (fail m, after)
  pub represents : Represents after t
  pub new : List Event
  pub reports : All IsReport new
  pub grows : after.trace ≡ new ++ base

module _ {p : Platform} (works : IsWorking p) (room : ℕ) (e : ExchangeServer)
    (awrr : AccountWatchRequestResult) where
  open awrr.account_watch_request use {
    transaction_id, ws_client_id, assisted_sell_order_information as info,
  }

  -- A success is reported, and the request leaves the list.
  pub conclude-Concludes :
      {w : World p} {t : Tables}
      → Represents w t
      → IsUnique transaction_id t.requests
      → Concludes
          (conclude room e awrr)
          w
          (record t { requests = others transaction_id t.requests })
          w.trace
  unfolding conclude
  conclude-Concludes {w} {t} held unique =
      let timed = bridge_requests_duration_set-Tells awrr w in
      let w1 : World p = record w { trace = timed.new ++ w.trace } in
      let counted = bridge_requests_inc-Tells "success" awrr w1 in
      let w2 : World p = record w { trace = counted.new ++ w1.trace } in
      let told = send_status_msg-Tells ws_client_id "success" "The bridge reported a success" w2 in
      let w3 : World p = record w { trace = told.new ++ w2.trace } in
      let removed = remove-Performs works (Represents-db w3 refl held) transaction_id unique in
      record {
        after = removed.after;
        runs = rw timed.runs (rw counted.runs (rw told.runs removed.runs));
        represents = removed.represents;
        new = told.new ++ (counted.new ++ timed.new);
        reports =
            All-append IsReport told.new (counted.new ++ timed.new) told.reports
              (All-append IsReport counted.new timed.new counted.reports timed.reports);
        grows = removed.same_trace ∙ simp append_assoc;
      }
