-- ===== src/Watch/Bsc.antt =====
-- pkg/bscusdt.go: the watch for USDT on BSC, whose balance is asked over plain JSON-RPC.
use Prim.Native.Char.{code}
use party_bridge.Base.{
  ℕ, String, true, false, not, Option, none, some, List, [], ◌∷◌, ◌&&◌, ◌==◌, if◌then◌else◌,
}
use party_bridge.Base.Int.{ℤ, cmp_geb}
use party_bridge.Base.Text.{concat}
use party_bridge.Types.{AccountWatchRequest}
use party_bridge.Platform.{Platform, asked_bsc}
use party_bridge.Server.{ExchangeServer}
use party_bridge.Exec.{Exec, Crash, pure, gets, lift, or_die, emit, check, or_return, ◌>>=◌, ◌>>◌}
use party_bridge.Watch.{Verdict, Watching, follow, dispatch_logged}

-- What this `select` received; its context is never cancelled, but the case is there.
pub data Wake : Type 0 where
  tick timeout cancelled : Wake

-- `strings.Replace(address, "0x", "", -1)`
unfoldable pub strip_0x : String → String
strip_0x String.[] = ""
strip_0x (String.◌∷◌ c String.[]) = String.◌∷◌ c String.[]
strip_0x (String.◌∷◌ c (String.◌∷◌ d s)) = elim (code c == b'0' && code d == b'x') [
  | true ↦ strip_0x s
  | false ↦ String.◌∷◌ c (strip_0x (String.◌∷◌ d s))
]

-- the `eth_call` of `balanceOf` at the USDT contract
unfoldable pub payload : String → String
unfolding strip_0x
payload address = concat (
    "{\n\t  \"id\":67,\n\t  \"jsonrpc\":\"2.0\",\n\t  \"method\":\"eth_call\",\n\t  \"params\":[{\"data\":\"0x70a08231000000000000000000000000"
    ∷ strip_0x address
    ∷ "\",\"to\":\"0x55d398326f99059fF775485246999027B3197955\"}, \"latest\"]\n\t}"
    ∷ [])

abbrev pub endpoint : String
endpoint =
    "https://magical-still-snowflake.bsc.discover.quiknode.pro/865ae0a9a366e32ef1f4a8ad7cccf67bfa59a661/"

module _ {p : Platform} where
  -- Any status but 200 returns a nil balance and a nil error.
  unfoldable pub fetch_bnb_usdt_balance : String → Exec p (Option ℤ)
  unfolding payload
  fetch_bnb_usdt_balance address = do
    check (p.new_request endpoint)
    reply ← gets (λ w. p.post_bsc w.trace (payload address))
    emit (asked_bsc (payload address))
    (status, body) ← lift reply
    if not (status == 200) then pure none else do
      text ← lift body
      result ← lift (p.unmarshal_balance text)
      dec ← lift (p.parse_int result)
      pure (some dec)

  -- One tick: an error is logged and the loop goes on.
  unfoldable pub look_bsc : String → Option ℤ → Exec p Verdict
  unfolding fetch_bnb_usdt_balance
  look_bsc account amount = or_return Verdict.again (do
    balance ← fetch_bnb_usdt_balance account
    enough ← or_die Crash.nil_dereference (cmp_geb balance amount)
    pure (if enough then Verdict.paid else Verdict.again))

  unfoldable pub watch_loop_bsc :
      Exec p Verdict → Exec p (Unit {0}) → Exec p (Unit {0}) → List Wake → Exec p Watching
  watch_loop_bsc see pay expire [] = pure Watching.waiting
  watch_loop_bsc see pay expire (Wake.tick ∷ rest) = do
    verdict ← see
    follow verdict pay (watch_loop_bsc see pay expire rest)
  watch_loop_bsc see pay expire (Wake.timeout ∷ rest) = do expire; pure Watching.returned
  watch_loop_bsc see pay expire (Wake.cancelled ∷ rest) = do expire; pure Watching.returned

  unfoldable pub wait_and_verify_bscusdt :
      ℕ → ExchangeServer → AccountWatchRequest → List Wake → Exec p Watching
  unfolding look_bsc watch_loop_bsc
  wait_and_verify_bscusdt room e request wakes =
      if not e.watch
      then (do dispatch_logged room e request "success"; pure Watching.returned)
      else watch_loop_bsc (look_bsc request.account request.amount)
          (dispatch_logged room e request "success") (dispatch_logged room e request "error") wakes
