-- ===== src/System/Growth.antt =====
-- How steps extend the trace, and what becomes of issued requests.
use mathlib.Core.Path.{subst}
use mathlib.Core.List.{append_assoc}
use party_bridge.Base.{String, List, [], ◌∷◌, ◌++◌, ◌≡◌, refl, sym, ◌∙◌, ap, true}
use party_bridge.Types.{AccountWatchRequest}
use party_bridge.Platform.{Platform, Event, drew_uuid, posted}
use party_bridge.Exec.{World}
use party_bridge.System.{
  IsDrawn, IsIssued, is_request, Step, effect, ask, memory, update, remove, set_aside, unlock_all,
  book, charge, Steps, stay, more,
}
use party_bridge.System.Follows.{IsStable}
use party_bridge.System.Writes.{
  trace_same, update-Writes, remove-Writes, on_crash-Writes, store_failed-Writes,
  store_account-Writes, charge-Writes,
}

abbrev pub Extends : List Event → List Event → Type 0
Extends old tr = (new : List Event) × (tr ≡ new ++ old)

pub Extends-trans : {a b c : List Event} → Extends b c → Extends a b → Extends a c
Extends-trans {a} (newer, later) (older, sooner) =
    (newer ++ older, later ∙ (ap (λ tr. newer ++ tr) sooner ∙ sym (append_assoc newer older a)))

-- Every request to a shim among the events is one that `asks` allows.
abbrev pub AllAsked : (String → Type 0) → List Event → Type 0
AllAsked asks [] = Unit
AllAsked asks (event ∷ trace) =
    ((url text : String) → event ≡ posted url text → asks text) × AllAsked asks trace

AllAsked-append :
    (asks : String → Type 0) (new old : List Event)
    → AllAsked asks new
    → AllAsked asks old
    → AllAsked asks (new ++ old)
AllAsked-append asks [] old h k = k
AllAsked-append asks (event ∷ new) old h k = (h.0, AllAsked-append asks new old h.1 k)

module _ {p : Platform} where
  abbrev pub Grows : World p → World p → Type 0
  Grows w v = Extends w.trace v.trace

  -- The trace grows from `w` to `v`, by requests to a shim for what `asks` says only.
  abbrev pub Asks : (String → Type 0) → World p → World p → Type 0
  Asks asks w v = (new : List Event) × (v.trace ≡ new ++ w.trace) × AllAsked asks new

  module _ {asks : String → Type 0} where
    Step-Asks : {w v : World p} → Step asks w v → Asks asks w v
    Step-Asks (effect event other) =
        (event ∷ [], refl, ((λ url text e. absurd (cc (not_asked url text e, other))), tt))
      where
        not_asked : (url text : String) → event ≡ posted url text → is_request event ≡ true
        not_asked url text e = rw e refl
    Step-Asks (ask url text asked) =
        (posted url text ∷ [], refl, ((λ url' text' e. subst asks (cc e) asked), tt))
    Step-Asks (memory clients heap) = ([], refl, tt)
    Step-Asks {w} (update r h) =
        ([], trace_same (update-Writes w (λ a. Unit) r (λ rs k f read loop. tt)), tt)
    Step-Asks {w} (remove id) =
        ([], trace_same (remove-Writes w (λ a. Unit) id (λ rs k read loop. tt)), tt)
    Step-Asks {w} (set_aside r h) =
        ([], trace_same (store_failed-Writes w (λ a. Unit) r (λ rs read. tt)), tt)
    Step-Asks {w} (unlock_all e) =
        ([], trace_same (on_crash-Writes w (λ a. Unit) e (λ rs read. tt)), tt)
    Step-Asks {w} (book awrr h) =
        ([], trace_same (store_account-Writes w (λ a. Unit) awrr (λ bs read. tt)), tt)
    Step-Asks {w} (charge id x) =
        ([], trace_same (charge-Writes w (λ a. Unit) id x (λ bs c read loop. tt)), tt)

    pub Steps-Asks : {w v : World p} → Steps asks w v → Asks asks w v
    Steps-Asks stay = ([], refl, tt)
    Steps-Asks {w} (more steps step) =
        let (old, grown, asked) = Steps-Asks steps in
        let (new, last, asked') = Step-Asks step in
        (
          new ++ old,
          last ∙ (ap (λ tr. new ++ tr) grown ∙ sym (append_assoc new old w.trace)),
          AllAsked-append asks new old asked' asked,
        )

    pub Step-Grows : {w v : World p} → Step asks w v → Grows w v
    Step-Grows step = let (new, grown, asked) = Step-Asks step in (new, grown)

    pub Steps-Grows : {w v : World p} → Steps asks w v → Grows w v
    Steps-Grows steps = let (new, grown, asked) = Steps-Asks steps in (new, grown)

  pub IsDrawn-Extends :
      {id awrid : String} {old tr : List Event}
      → Extends old tr
      → IsDrawn p old id awrid
      → IsDrawn p tr id awrid
  IsDrawn-Extends (new, grown) h = record {
    newer = new ++ h.newer;
    older = h.older;
    drawn =
        grown
        ∙ (ap (λ tr. new ++ tr) h.drawn
            ∙ sym (append_assoc new h.newer (drew_uuid ∷ drew_uuid ∷ h.older)));
    id_drawn = h.id_drawn;
    awrid_drawn = h.awrid_drawn;
  }

  pub IsIssued-Extends :
      {r : AccountWatchRequest} {old tr : List Event}
      → Extends old tr
      → IsIssued p old r
      → IsIssued p tr r
  IsIssued-Extends grows h = record {
    ids_drawn = IsDrawn-Extends grows h.ids_drawn;
    value = h.value;
    has_amount = h.has_amount;
    order_has_amount = h.order_has_amount;
  }

  pub IsDrawn-IsStable :
      (id awrid : String) → IsStable (λ (w : World p). IsDrawn p w.trace id awrid)
  IsDrawn-IsStable id awrid w v steps h = IsDrawn-Extends (Steps-Grows steps) h

  pub IsIssued-IsStable :
      (r : AccountWatchRequest) → IsStable (λ (w : World p). IsIssued p w.trace r)
  IsIssued-IsStable r w v steps h = IsIssued-Extends (Steps-Grows steps) h
