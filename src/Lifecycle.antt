-- ===== src/Lifecycle.antt =====
-- pkg/adapter.go `Start` and `shutdown`: the life of one process, from the certificate of the HTTP
-- server to the release of its locks.
pub mod Restart
use party_bridge.Base.{Bool, Option, none, some, if◌then◌else◌, String}
use party_bridge.Platform.{Platform}
use party_bridge.Server.{ExchangeServer}
use party_bridge.Exec.{Exec, Crash, pure, die, gets, check, or_die, or_else, ◌>>=◌, ◌>>◌}
use party_bridge.Store.Requests.{update_account_watch_requests_on_crash}

module _ {p : Platform} (e : ExchangeServer) where
  -- `if err != nil { panic(err) }`
  abbrev pub panic_on : Option String → Exec p (Unit {0})
  panic_on none = pure tt
  panic_on (some error) = die Crash.panicked

  -- The error of the update is only logged; the argument is the error of `server.Shutdown`.
  unfoldable pub shutdown : Option String → Exec p (Unit {0})
  shutdown server_error = do
    or_else (update_account_watch_requests_on_crash e) (λ error. pure tt)
    panic_on server_error

  -- What runs until a signal comes is an argument, and so is whether `StartWarren`, which runs in a
  -- goroutine of its own, has made the `WaitGroup` by then.
  unfoldable pub start : Exec p (Unit {0}) → Bool → Option String → Exec p (Unit {0})
  unfolding shutdown
  start serve warren_started server_error = do
    bad_pair ← gets (λ w. p.load_key_pair w.trace e.ssl_crt_location e.server_ssl_key_file_path)
    check bad_pair
    serve
    or_die Crash.nil_dereference (if warren_started then some tt else none)
    shutdown server_error
