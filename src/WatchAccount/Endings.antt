-- ===== src/WatchAccount/Endings.antt =====
-- pkg/helper.go `watchAccount`: whatever it starts ends by the timeout.
use party_bridge.Base.{
  ℕ, String, not, Option, none, some, List, inl, inr, Bool-cases, if◌then◌else◌,
}
use party_bridge.Base.Int.{ℤ}
use party_bridge.Types.{AccountWatchRequest}
use party_bridge.Platform.{Platform}
use party_bridge.Server.{ExchangeServer}
use party_bridge.Exec.{World, Exec, Outcome, ret, fail, crash, continue, pure, ◌>>◌}
use party_bridge.Watch.{
  Wake, Watching, look, query_balance, query_wgrams_on_octa_space, query_wocta_on_party_chain,
  query_wbscusdt_on_octa_space, query_wbscusdt_on_party_chain, dispatch_or_park, dispatch_logged,
  watch_token, wait_and_verify_evm_chain, wait_and_verify_wgrams_on_octa_space,
  wait_and_verify_wocta_on_party_chain, wait_and_verify_wbscusdt_on_octa_space,
  wait_and_verify_wbscusdt_on_party_chain,
}
use party_bridge.Watch.Bsc.{Wake as BscWake, look_bsc, wait_and_verify_bscusdt}
use party_bridge.Watch.Endings.{
  TimesOut, BscTimesOut, IsOver, finish-IsOver, watch_loop-IsOver, watch_loop_bsc-IsOver,
}
use party_bridge.WatchAccount.{Watched, begin_watch, start_watch, watch_account}

module _ {p : Platform} (room : ℕ) (e : ExchangeServer) (wakes : List Wake)
    (bsc_wakes : List BscWake) (awr : AccountWatchRequest) (timer : TimesOut wakes)
    (bsc_timer : BscTimesOut bsc_wakes) where
  -- the test on `watch`, and the loop
  either-IsOver :
      (m : Exec p (Unit {0})) (loop : Exec p Watching) (w : World p)
      → IsOver (loop w).0
      → IsOver ((if not e.watch then (m >> pure Watching.returned) else loop) w).0
  either-IsOver m loop w over = elim (Bool-cases e.watch) [
    | inl h ↦ simp h over
    | inr h ↦ simp h (finish-IsOver m w)
  ]

  evm-IsOver :
      (client client2 : Option String) (w : World p)
      → IsOver (wait_and_verify_evm_chain room e client client2 awr wakes w).0
  unfolding wait_and_verify_evm_chain
  evm-IsOver client client2 w = either-IsOver (dispatch_or_park room e awr "success") _ w (
      watch_loop-IsOver
        (look (query_balance client awr.account) (query_balance client2 awr.account) awr.amount)
        (dispatch_or_park room e awr "success") (dispatch_logged room e awr "error") wakes w timer)

  token-IsOver :
      (query : Option String → Exec p ℤ) (client : Option String) (w : World p)
      → IsOver (watch_token room e query client awr wakes w).0
  unfolding watch_token
  token-IsOver query client w = either-IsOver (dispatch_logged room e awr "success") _ w (
      watch_loop-IsOver (look (query client) (query client) awr.amount)
        (dispatch_logged room e awr "success") (dispatch_logged room e awr "error") wakes w timer)

  bsc-IsOver : (w : World p) → IsOver (wait_and_verify_bscusdt room e awr bsc_wakes w).0
  unfolding wait_and_verify_bscusdt
  bsc-IsOver w = either-IsOver (dispatch_logged room e awr "success") _ w (
      watch_loop_bsc-IsOver (look_bsc awr.account awr.amount) (dispatch_logged room e awr "success")
        (dispatch_logged room e awr "error") bsc_wakes w bsc_timer)

  start_watch-IsOver :
      (k : Option Watched) (w : World p) → IsOver (start_watch room e wakes bsc_wakes awr k w).0
  unfolding start_watch wait_and_verify_wgrams_on_octa_space wait_and_verify_wocta_on_party_chain
      wait_and_verify_wbscusdt_on_octa_space wait_and_verify_wbscusdt_on_party_chain
  start_watch-IsOver none w = tt
  start_watch-IsOver (some Watched.octa_coins) w = evm-IsOver _ _ w
  start_watch-IsOver (some Watched.grams_coins) w = evm-IsOver _ _ w
  start_watch-IsOver (some Watched.wgrams_on_octa) w =
      token-IsOver (query_wgrams_on_octa_space e awr.account) _ w
  start_watch-IsOver (some Watched.wocta_on_party) w =
      token-IsOver (query_wocta_on_party_chain e awr.account) _ w
  start_watch-IsOver (some Watched.wbscusdt_on_octa) w =
      token-IsOver (query_wbscusdt_on_octa_space e awr.account) _ w
  start_watch-IsOver (some Watched.wbscusdt_on_party) w =
      token-IsOver (query_wbscusdt_on_party_chain e awr.account) _ w
  start_watch-IsOver (some Watched.usdt_on_bsc) w = bsc-IsOver w

-- A watch ends.
module _ {p : Platform} (room : ℕ) (e : ExchangeServer) (wakes : List Wake)
    (bsc_wakes : List BscWake) (timer : TimesOut wakes) (bsc_timer : BscTimesOut bsc_wakes) where
  after-IsOver :
      (r : Outcome AccountWatchRequest × World p) (rest : AccountWatchRequest → Exec p Watching)
      → ((a : AccountWatchRequest) (v : World p) → IsOver (rest a v).0)
      → IsOver (continue r.0 rest r.1).0
  after-IsOver (ret a, v) rest over = over a v
  after-IsOver (fail m, v) rest over = tt
  after-IsOver (crash c, v) rest over = tt

  -- Whatever the request, the server, the state and all that the outside answers, if the timer is
  -- among the wakes (on BSC the timer or the end of the context), `watch_account` ends: it has
  -- returned, failed or died, and does not wait for another wake.
  pub watch_account-IsOver :
      (awr : AccountWatchRequest) (w : World p)
      → IsOver (watch_account room e wakes bsc_wakes awr w).0
  unfolding watch_account
  watch_account-IsOver awr w =
      after-IsOver (begin_watch e awr w) (λ locked. start_watch room e wakes bsc_wakes locked _)
        (λ locked v. start_watch-IsOver room e wakes bsc_wakes locked timer bsc_timer _ v)
