-- ===== src/Watch/BscLaws.antt =====
-- pkg/bscusdt.go: `strconv.ParseInt` to 64 bits against amounts beyond them.
use party_bridge.Base.{
  ℕ, zero, suc, String, true, false, Option, none, some, List, [], ◌∷◌, ◌++◌, ◌≡◌, refl, ◌∙◌, ◌⊎◌,
  inl, inr, arith, Bool-cases, Option-cases, ◌==◌, All, All-append,
}
use mathlib.Core.List.{append_assoc}
use party_bridge.Base.Int.{ℤ, pos, geb_ℤ, ◌≤ℤ◌, geb_ℤ→≤ℤ}
use party_bridge.Types.{AccountWatchRequest}
use party_bridge.Platform.{Platform, Event, Result-cases, ok, asked_bsc}
use party_bridge.Server.{ExchangeServer}
use party_bridge.Exec.{World, Exec, Crash, Outcome, ret, crash, fail}
use party_bridge.Watch.{Watching, Verdict}
use party_bridge.Watch.Bsc.{
  Wake, payload, endpoint, fetch_bnb_usdt_balance, look_bsc, watch_loop_bsc,
  wait_and_verify_bscusdt,
}

-- `strconv.ParseInt(…, 64)` returns at most the greatest 64-bit integer.
abbrev pub IsBounded : Platform → Type 0
IsBounded p = (text : String) (x : ℤ) → p.parse_int text ≡ ok x → x ≤ℤ pos 9_223_372_036_854_775_807

-- an error or a nil balance, or a balance that the test finds too low
abbrev IsBelow : ℤ → Outcome (Option ℤ) → Type 0
IsBelow v (fail e) = Unit
IsBelow v (crash c) = ⊥
IsBelow v (ret none) = Unit
IsBelow v (ret (some x)) = geb_ℤ x v ≡ false

geb-big :
    (x v : ℤ)
    → x ≤ℤ pos 9_223_372_036_854_775_807
    → pos 9_223_372_036_854_775_808 ≤ℤ v
    → geb_ℤ x v ≡ false
geb-big x v h k = elim (Bool-cases (geb_ℤ x v)) [
  | inl e ↦ absurd (omega (arith, geb_ℤ→≤ℤ x v e))
  | inr e ↦ e
]

-- Every one of the events is the question for the balance of the account.
abbrev pub OnlyAsks : String → List Event → Type 0
OnlyAsks account new = All (λ event. event ≡ asked_bsc (payload account)) new

-- What a fetch does: its outcome is below `v`, and it has only asked.
record Fetches {p : Platform} (account : String) (v : ℤ) (m : Exec p (Option ℤ)) (w : World p)
    : Type 0 where
  outcome : Outcome (Option ℤ)
  new : List Event
  runs : m w ≡ (outcome, record w { trace = new ++ w.trace })
  asks : OnlyAsks account new
  below : IsBelow v outcome

module _ {p : Platform} (bounded : IsBounded p) (v : ℤ)
    (big : pos 9_223_372_036_854_775_808 ≤ℤ v) where
  fetch-Fetches :
      (account : String) (w : World p) → Fetches account v (fetch_bnb_usdt_balance account) w
  unfolding fetch_bnb_usdt_balance
  fetch-Fetches account w = elim (Option-cases (p.new_request endpoint)) [
    | inr (bad, e) ↦ record {
      outcome = fail bad;
      new = [];
      runs = rw e refl;
      asks = tt;
      below = tt;
    }
    | inl a ↦ elim (Result-cases (p.post_bsc w.trace (payload account))) [
      | inr (bad, e) ↦ record {
        outcome = fail bad;
        new = asked_bsc (payload account) ∷ [];
        asks = (refl, tt);
        runs = rw a (rw e refl);
        below = tt;
      }
      | inl ((status, body), b) ↦ elim (Bool-cases (status == 200)) [
        | inr e ↦ record {
          outcome = ret none;
          new = asked_bsc (payload account) ∷ [];
          asks = (refl, tt);
          runs = rw a (rw b (rw e refl));
          below = tt;
        }
        | inl c ↦ elim (Result-cases body) [
          | inr (bad, e) ↦ record {
            outcome = fail bad;
            new = asked_bsc (payload account) ∷ [];
            asks = (refl, tt);
            runs = rw a (rw b (rw c (rw e refl)));
            below = tt;
          }
          | inl (text, d) ↦ elim (Result-cases (p.unmarshal_balance text)) [
            | inr (bad, e) ↦ record {
              outcome = fail bad;
              new = asked_bsc (payload account) ∷ [];
              asks = (refl, tt);
              runs = rw a (rw b (rw c (rw d (rw e refl))));
              below = tt;
            }
            | inl (result, f) ↦ elim (Result-cases (p.parse_int result)) [
              | inr (bad, e) ↦ record {
                outcome = fail bad;
                new = asked_bsc (payload account) ∷ [];
                asks = (refl, tt);
                runs = rw a (rw b (rw c (rw d (rw f (rw e refl)))));
                below = tt;
              }
              | inl (x, g) ↦ record {
                outcome = ret (some x);
                new = asked_bsc (payload account) ∷ [];
                asks = (refl, tt);
                runs = rw a (rw b (rw c (rw d (rw f (rw g refl)))));
                below = (geb-big x v (bounded result x g) big);
              }
            ]
          ]
        ]
      ]
    ]
  ]

-- What a look does: it goes on or dies, and it has only asked.
record Looks {p : Platform} (account : String) (m : Exec p Verdict) (w : World p) : Type 0 where
  outcome : Outcome Verdict
  new : List Event
  runs : m w ≡ (outcome, record w { trace = new ++ w.trace })
  asks : OnlyAsks account new
  unpaid : (outcome ≡ ret Verdict.again) ⊎ (outcome ≡ crash Crash.nil_dereference)

-- The watch goes on waiting or has died, and has only asked.
pub record Idles {p : Platform} (account : String) (m : Exec p Watching) (w : World p)
    : Type 0 where
  pub outcome : Outcome Watching
  pub new : List Event
  pub runs : m w ≡ (outcome, record w { trace = new ++ w.trace })
  pub asks : OnlyAsks account new
  pub unpaid : (outcome ≡ ret Watching.waiting) ⊎ (outcome ≡ crash Crash.nil_dereference)

abbrev pub bsc_ticks : ℕ → List Wake
bsc_ticks zero = []
bsc_ticks (suc n) = Wake.tick ∷ bsc_ticks n

module _ {p : Platform} (bounded : IsBounded p) (v : ℤ)
    (big : pos 9_223_372_036_854_775_808 ≤ℤ v) where
  look-Looks : (account : String) (w : World p) → Looks account (look_bsc account (some v)) w
  unfolding look_bsc
  look-Looks account w = go (fetch-Fetches bounded v big account w)
    where
      finish :
          (o : Outcome (Option ℤ)) (new : List Event)
          → fetch_bnb_usdt_balance account w ≡ (o, record w { trace = new ++ w.trace })
          → OnlyAsks account new
          → IsBelow v o
          → Looks account (look_bsc account (some v)) w
      finish (fail e) new runs asks below = record {
        outcome = ret Verdict.again;
        new = new;
        runs = rw runs refl;
        asks = asks;
        unpaid = inl refl;
      }
      finish (crash c) new runs asks below = absurd below
      finish (ret none) new runs asks below = record {
        outcome = crash Crash.nil_dereference;
        new = new;
        runs = rw runs refl;
        asks = asks;
        unpaid = inr refl;
      }
      finish (ret (some x)) new runs asks l = record {
        outcome = ret Verdict.again;
        new = new;
        runs = rw runs (rw l refl);
        asks = asks;
        unpaid = inl refl;
      }

      go :
          Fetches account v (fetch_bnb_usdt_balance account) w
          → Looks account (look_bsc account (some v)) w
      go f = finish f.outcome f.new f.runs f.asks f.below

  loop-Idles :
      (account : String) (pay expire : Exec p (Unit {0})) (n : ℕ) (w : World p)
      → Idles account (watch_loop_bsc (look_bsc account (some v)) pay expire (bsc_ticks n)) w
  unfolding watch_loop_bsc
  loop-Idles account pay expire zero w = record {
    outcome = ret Watching.waiting;
    new = [];
    runs = refl;
    asks = tt;
    unpaid = inl refl;
  }
  loop-Idles account pay expire (suc n) w =
      let l = look-Looks account w in
      let rest = loop-Idles account pay expire n (record w { trace = l.new ++ w.trace }) in
      elim l.unpaid [
        | inl again ↦ record {
          outcome = rest.outcome;
          new = rest.new ++ l.new;
          runs = rw l.runs (rw again (rest.runs ∙ rw (append_assoc rest.new l.new w.trace) refl));
          asks =
              All-append (λ event. event ≡ asked_bsc (payload account)) rest.new l.new rest.asks
                l.asks;
          unpaid = rest.unpaid;
        }
        | inr dead ↦ record {
          outcome = crash Crash.nil_dereference;
          new = l.new;
          runs = rw l.runs (rw dead refl);
          asks = l.asks;
          unpaid = inr refl;
        }
      ]

  -- If parsed integers are at most 2^63 - 1, the watch is on and the request asks for `v` of at
  -- least 2^63, then after any number of ticks, whatever the endpoint answers, the BSC watch is
  -- still waiting or has died on a nil pointer, and everything that it has done is to ask the
  -- endpoint for the balance of the account of the request.
  pub bsc_never_pays :
      (room : ℕ) (e : ExchangeServer) (request : AccountWatchRequest) (n : ℕ) (w : World p)
      → e.watch ≡ true
      → request.amount ≡ some v
      → Idles request.account (wait_and_verify_bscusdt room e request (bsc_ticks n)) w
  unfolding wait_and_verify_bscusdt
  bsc_never_pays room e request n w watches some_amount =
      simp (watches, some_amount) (loop-Idles request.account _ _ n w)
