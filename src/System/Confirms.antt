-- ===== src/System/Confirms.antt =====
-- pkg/adapter.go: a confirmation in a session as steps of the program, from the draw of the two ids to
-- the request under them.
use party_bridge.Base.{ℕ, String, Option, none, some, [], ◌∷◌, refl}
use party_bridge.Base.Int.{ℤ}
use party_bridge.Types.{Time}
use party_bridge.Platform.{Platform, drew_uuid, read_clock}
use party_bridge.Server.{ExchangeServer}
use party_bridge.Exec.{World, Exec, WebSocketClient, Crash, pure, gets, deref, emit, ◌>>=◌, ◌>>◌}
use party_bridge.Store.Requests.{update_account_watch_request_in_db}
use party_bridge.Session.{confirm_bridge}
use party_bridge.Session.Heap.{read_amount}
use party_bridge.Session.Records.{watch_request}
use party_bridge.System.{IsDrawn, effect, update, more, Nothing}
use party_bridge.System.Follows.{
  Follows, one, Steps-append, IsStable, Follows-pure, Follows-bind, Follows-bind_value,
  Follows-bind_or_die, Follows-then, Follows-gets, Follows-emit,
}
use party_bridge.System.Returns.{
  Returns, Returns-pure, Returns-or_return, Returns-bind, Returns-then,
}
use party_bridge.System.Growth.{IsDrawn-IsStable}
use party_bridge.System.Answers.{
  IsReady, ended, HasValue, Always, read_amount-Follows, read_amount-Returns,
}

module _ {p : Platform} where
  module _ (e : ExchangeServer) (client : WebSocketClient) where
    -- what a confirmation does once its ids are drawn
    abbrev confirm_rest : String → String → Exec p (Option WebSocketClient)
    confirm_rest id awrid = do
      acc ← deref client.acc
      deadline ← gets (λ w. p.now w.trace)
      emit read_clock
      time ← gets (λ w. p.now w.trace)
      emit read_clock
      amount ← read_amount client.request.amount
      update_account_watch_request_in_db
          (watch_request p e client id awrid acc amount deadline time)
      pure (some client)

    module _ (ready : IsReady client) (id awrid : String) where
      abbrev Drawn : World p → Type 0
      Drawn w = IsDrawn p w.trace id awrid

      stable : IsStable Drawn
      stable = IsDrawn-IsStable id awrid

      store-Follows :
          (acc : ℕ) (x : ℤ) (deadline time : Time)
          → Follows Nothing Drawn (
              update_account_watch_request_in_db
                (watch_request p e client id awrid acc (some x) deadline time))
      unfolding watch_request
      store-Follows acc x deadline time = record {
        at = λ w h. one (
            update (watch_request p e client id awrid acc (some x) deadline time)
              (record { ids_drawn = h; value = x; has_amount = refl; order_has_amount = refl }));
      }

      finish-Follows :
          (acc : ℕ) (amount : Option ℤ) (deadline time : Time)
          → HasValue amount
          → Follows Nothing Drawn (
              update_account_watch_request_in_db
                (watch_request p e client id awrid acc amount deadline time)
              >> pure (some client))
      finish-Follows acc amount deadline time (x, there) =
          rw there
            (Follows-then stable (store-Follows acc x deadline time) (Follows-pure (some client)))

      rest-Follows : Follows Nothing Drawn (confirm_rest id awrid)
      rest-Follows = Follows-bind_or_die Crash.nil_dereference client.acc (λ acc has_key.
          Follows-bind stable (Follows-gets (λ w. p.now w.trace)) (λ deadline.
            Follows-then stable (Follows-emit read_clock refl) (
              Follows-bind stable (Follows-gets (λ w. p.now w.trace)) (λ time.
                Follows-then stable (Follows-emit read_clock refl) (
                  Follows-bind_value stable HasValue
                    (read_amount-Follows stable client.request.amount)
                    (λ w a h.
                      (read_amount-Returns client.request.amount (ready acc has_key).1).value w a)
                    (λ amount there. finish-Follows acc amount deadline time there))))))

    -- Two ids are drawn, and then the rest.
    pub confirm_bridge-Follows :
        IsReady client → Follows Nothing (Always p) (confirm_bridge e client)
    unfolding confirm_bridge
    confirm_bridge-Follows ready = record {
      at = λ w h.
          let w1 : World p = record w { trace = drew_uuid ∷ w.trace } in
          let w2 : World p = record w1 { trace = drew_uuid ∷ w1.trace } in
          Steps-append (more (one (effect drew_uuid refl)) (effect drew_uuid refl)) (
            (rest-Follows ready (p.new_uuid w.trace) (p.new_uuid w1.trace)).at w2 (record {
              newer = [];
              older = w.trace;
              drawn = refl;
              id_drawn = refl;
              awrid_drawn = refl;
            }));
    }

    pub confirm_bridge-Returns :
        {Q : Option WebSocketClient → Type 0}
        → Q none
        → Q (some client)
        → Returns {p = p} Q (confirm_bridge e client)
    unfolding confirm_bridge
    confirm_bridge-Returns ended same = Returns-or_return none ended (
        Returns-bind (gets (λ w. p.new_uuid w.trace)) (λ id. Returns-then (emit drew_uuid) (
          Returns-bind (gets (λ w. p.new_uuid w.trace)) (λ awrid. Returns-then (emit drew_uuid) (
            Returns-bind (deref client.acc) (λ acc.
              Returns-bind (gets (λ w. p.now w.trace)) (λ deadline. Returns-then (emit read_clock) (
                Returns-bind (gets (λ w. p.now w.trace)) (λ time. Returns-then (emit read_clock) (
                  Returns-bind (read_amount client.request.amount) (λ amount.
                    Returns-then
                      (update_account_watch_request_in_db
                        (watch_request p e client id awrid acc amount deadline time))
                      (Returns-pure (some client) same))))))))))))
