-- ===== src/Failsafe.antt =====
-- pkg/failsafe.go: the file that keeps an order when Redis cannot be reached.
use party_bridge.Base.{[], ◌∷◌}
use party_bridge.Base.Text.{concat}
use party_bridge.Types.{CompletedOrder}
use party_bridge.Platform.{Platform, wrote_file}
use party_bridge.Exec.{Exec, gets, lift, emit, check, ◌>>=◌, ◌>>◌}

module _ {p : Platform} where
  unfoldable pub write_failed_transaction_to_file : CompletedOrder → Exec p (Unit {0})
  write_failed_transaction_to_file order = do
    let file = concat ("failedtransactions" ∷ order.order_id ∷ ".json" ∷ [])
    border ← lift (p.marshal_order order)
    bad ← gets (λ w. p.write_file w.trace file border)
    emit (wrote_file file border)
    check bad
