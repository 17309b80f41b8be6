-- ===== src/System/Ids.antt =====
-- The two ids of an issued request, and when two requests share them.
use party_bridge.Base.{
  ℕ, suc, ◌≤◌, ◌==◌, String, Bool, true, false, List, [], ◌∷◌, ◌++◌, ◌≡◌, refl, sym, ◌∙◌, ap, arith,
  length, length-append, All, inl, inr, Bool-cases,
}
use party_bridge.Base.Text.{str_eq, str_eq→eq, eq→str_eq}
use party_bridge.Types.{AccountWatchRequest}
use party_bridge.Platform.{Platform, Event, ok, err, drew_uuid}
use party_bridge.Store.Refinement.{Parses, same_uuid}
use party_bridge.System.{IsDrawn, IsIssued}
use party_bridge.System.Growth.{Extends, Extends-trans}
use party_bridge.System.Sound.{IsHonest}

suffix_unique :
    {A : Type 0} (xs xs' ys ys' : List A)
    → xs ++ ys ≡ xs' ++ ys'
    → length ys ≡ length ys'
    → ys ≡ ys'
suffix_unique [] [] ys ys' e l = e
suffix_unique [] (x ∷ xs') ys ys' e l =
    let longer : length ys ≡ length (x ∷ xs' ++ ys') = ap length e in
    absurd (omega (arith, longer, length-append xs' ys'))
suffix_unique (x ∷ xs) [] ys ys' e l =
    let longer : length (x ∷ xs ++ ys) ≡ length ys' = ap length e in
    absurd (omega (arith, longer, length-append xs ys))
suffix_unique (x ∷ xs) (y ∷ xs') ys ys' e l = suffix_unique xs xs' ys ys' (cc e) l

-- The number that an id parses to.
abbrev number_of : Platform → String → ℕ
number_of p id = elim (p.parse_uuid id) [ ok n ↦ n | err e ↦ 0 ]

abbrev pub uuid_of : Platform → AccountWatchRequest → ℕ
uuid_of p r = number_of p r.awrid

-- the first of the two draws
first_draw :
    {p : Platform} {trace : List Event} {id awrid : String} (h : IsDrawn p trace id awrid)
    → Extends (drew_uuid ∷ h.older) trace
first_draw h = Extends-trans (h.newer, h.drawn) (drew_uuid ∷ [], refl)

module _ {p : Platform} {trace : List Event} (honest : IsHonest p trace) where
  number_of_lem :
      (id : String) (tr : List Event) → id ≡ p.new_uuid tr → number_of p id ≡ honest.number tr
  number_of_lem id tr e = ap (number_of p) e ∙ rw (honest.parses tr, number_of) refl

  parses_lem :
      (id : String) (tr : List Event) → id ≡ p.new_uuid tr → p.parse_uuid id ≡ ok (number_of p id)
  parses_lem id tr e =
      let parsed : p.parse_uuid id ≡ ok (honest.number tr) = rw e (honest.parses tr) in
      rw (parsed, number_of) refl

  -- Two draws of the trace with the same number came after equally much.
  drawn_alike :
      {id id' : String} {tr tr' : List Event}
      → Extends (drew_uuid ∷ tr) trace
      → Extends (drew_uuid ∷ tr') trace
      → id ≡ p.new_uuid tr
      → id' ≡ p.new_uuid tr'
      → number_of p id ≡ number_of p id'
      → length tr ≡ length tr'
  drawn_alike {id} {id'} {tr} {tr'} d d' e e' same =
      honest.distinct tr tr' d d' (sym (number_of_lem id tr e) ∙ (same ∙ number_of_lem id' tr' e'))

module _ {p : Platform} {trace : List Event} (honest : IsHonest p trace) where
  pub issued-Parses : (r : AccountWatchRequest) → IsIssued p trace r → Parses p (uuid_of p) r
  issued-Parses r h =
      parses_lem honest r.awrid (drew_uuid ∷ h.ids_drawn.older) h.ids_drawn.awrid_drawn

  pub All-Parses :
      (rs : List AccountWatchRequest) → All (IsIssued p trace) rs → All (Parses p (uuid_of p)) rs
  All-Parses [] h = tt
  All-Parses (r ∷ rs) h = (issued-Parses r h.0, All-Parses rs h.1)

  module _ (r x : AccountWatchRequest) (hr : IsIssued p trace r) (hx : IsIssued p trace x) where
    -- drawn after equally much is drawn at the same place
    same_place :
        length hx.ids_drawn.older ≡ length hr.ids_drawn.older
        → hx.ids_drawn.older ≡ hr.ids_drawn.older
    same_place e = cc (
        suffix_unique hx.ids_drawn.newer hr.ids_drawn.newer
          (drew_uuid ∷ drew_uuid ∷ hx.ids_drawn.older) (drew_uuid ∷ drew_uuid ∷ hr.ids_drawn.older)
          (sym hx.ids_drawn.drawn ∙ hr.ids_drawn.drawn) (ap (λ n. suc (suc n)) e))

    same_of_uuid : uuid_of p x ≡ uuid_of p r → x.transaction_id ≡ r.transaction_id
    same_of_uuid e =
        let drawn : suc (length hx.ids_drawn.older) ≡ suc (length hr.ids_drawn.older) =
          drawn_alike honest (hx.ids_drawn.newer, hx.ids_drawn.drawn)
            (hr.ids_drawn.newer, hr.ids_drawn.drawn) hx.ids_drawn.awrid_drawn
            hr.ids_drawn.awrid_drawn e in
        hx.ids_drawn.id_drawn
        ∙ (ap p.new_uuid (same_place (omega (arith, drawn))) ∙ sym hr.ids_drawn.id_drawn)

    uuid_of_same : x.transaction_id ≡ r.transaction_id → uuid_of p x ≡ uuid_of p r
    uuid_of_same e = ap (number_of p) (
        hx.ids_drawn.awrid_drawn
        ∙ (ap (λ tr. p.new_uuid (drew_uuid ∷ tr))
              (same_place (
                drawn_alike honest (first_draw hx.ids_drawn) (first_draw hr.ids_drawn)
                  hx.ids_drawn.id_drawn hr.ids_drawn.id_drawn (ap (number_of p) e)))
            ∙ sym hr.ids_drawn.awrid_drawn))

    -- Of issued requests, the same `AWRID` is the same `TransactionID`.
    pub same_uuid_lem : same_uuid p (uuid_of p) r x ≡ str_eq x.transaction_id r.transaction_id
    same_uuid_lem = elim (Bool-cases (str_eq x.transaction_id r.transaction_id)) [
      | inl hit ↦
          let same : uuid_of p x ≡ uuid_of p r =
            uuid_of_same (str_eq→eq x.transaction_id r.transaction_id hit) in
          rw hit (ground (arith, same))
      | inr miss ↦ rw miss (not_same miss (uuid_of p x == uuid_of p r) refl)
    ]
      where
        not_same :
            str_eq x.transaction_id r.transaction_id ≡ false
            → (b : Bool) → (uuid_of p x == uuid_of p r) ≡ b
            → b ≡ false
        not_same miss true e =
            let same : uuid_of p x ≡ uuid_of p r = ground (arith, e) in
            absurd (cc (eq→str_eq x.transaction_id r.transaction_id (same_of_uuid same), miss))
        not_same miss false e = refl

-- An id that was drawn after the trace was `old` is not that of a request issued by then.
pub later-IsNot :
    {p : Platform} {old older trace : List Event} {id : String}
    → IsHonest p trace
    → Extends old trace
    → Extends (drew_uuid ∷ older) trace
    → id ≡ p.new_uuid older
    → length old ≤ length older
    → (x : AccountWatchRequest) → IsIssued p old x
    → str_eq x.transaction_id id ≡ false
later-IsNot {p} {old} {id} honest grows drawn e later x hx =
    elim (Bool-cases (str_eq x.transaction_id id)) [
      | inl hit ↦
          let alike =
            drawn_alike honest (Extends-trans grows (first_draw hx.ids_drawn)) drawn
              hx.ids_drawn.id_drawn e (ap (number_of p) (str_eq→eq x.transaction_id id hit)) in
          let split : length old
              ≡ length (hx.ids_drawn.newer ++ drew_uuid ∷ drew_uuid ∷ hx.ids_drawn.older) =
            ap length hx.ids_drawn.drawn in
          absurd (
            omega (
              arith,
              alike,
              later,
              split,
              length-append hx.ids_drawn.newer (drew_uuid ∷ drew_uuid ∷ hx.ids_drawn.older),
            ))
      | inr miss ↦ miss
    ]
