-- ===== src/System/ReadBack.antt =====
-- What the keys read as after a list was written, or was not.
use mathlib.Core.Path.{subst}
use party_bridge.Base.{List, String, false, ◌≡◌, refl, sym, ◌∙◌, inl, inr, ◌⊎◌, Bool-cases}
use party_bridge.Base.Text.{str_eq}
use party_bridge.Platform.{Platform, Event, Codec, Result, ok, err, Result-cases}
use party_bridge.Exec.{World, Outcome, ret, fail}
use party_bridge.Store.{load, decode}
use party_bridge.System.Sound.{IsHonest}
use party_bridge.System.Writes.{Writes, kept, written}

-- what `load` returns of the text under the key
abbrev told : (p : Platform) → {A : Type 0} → Codec p.Text A → A → Result p.Text → Outcome A
told p c empty text = elim (decode p.is_empty c empty text) [ ok a ↦ ret a | err e ↦ fail e ]

module _ {p : Platform} {A : Type 0} (c : Codec p.Text A) (empty : A) where
  load-told :
      (key : String) (w : World p) → (load c empty key w).0 ≡ told p c empty (p.redis_get key w.db)
  unfolding load
  load-told key w = elim (Result-cases (decode p.is_empty c empty (p.redis_get key w.db))) [
    | inl (a, d) ↦ rw (d, told) refl
    | inr (m, d) ↦ rw (d, told) refl
  ]

  pub load_same :
      (key : String) (w v : World p)
      → p.redis_get key v.db ≡ p.redis_get key w.db
      → (load c empty key v).0 ≡ (load c empty key w).0
  load_same key w v e = load-told key v ∙ (rw e (sym (load-told key w)))

  -- A list that was written reads as it was, or, if its text is the empty one, as the empty list.
  load_back :
      (key : String) (v : World p) (a : A) (text : p.Text)
      → p.redis_get key v.db ≡ ok text
      → c.unmarshal text ≡ ok a
      → (b : A) → (load c empty key v).0 ≡ ret b
      → (b ≡ empty) ⊎ (b ≡ a)
  load_back key v a text got law b e = elim (Bool-cases (p.is_empty text)) [
    | inl blank ↦
        let read : (load c empty key v).0 ≡ ret empty =
          load-told key v ∙ rw (got, told) (rw blank refl) in
        inl (cc (read, e))
    | inr full ↦
        let read : (load c empty key v).0 ≡ ret a =
          load-told key v ∙ rw (got, told) (rw full (rw law refl)) in
        inr (cc (read, e))
  ]

module _ {p : Platform} {trace : List Event} (honest : IsHonest p trace) where
  -- What holds of all that the key read as before and of what was written holds of what it reads as.
  pub load-Writes_self :
      {A : Type 0} {c : Codec p.Text A} {key : String} {Q : A → Type 0} {w v : World p} (empty : A)
      → ((a : A) (text : p.Text) → c.marshal a ≡ ok text → c.unmarshal text ≡ ok a)
      → Q empty
      → ((b : A) → (load c empty key w).0 ≡ ret b → Q b)
      → Writes c key Q w v
      → (b : A) → (load c empty key v).0 ≡ ret b
      → Q b
  load-Writes_self empty law q before kept b e = before b e
  load-Writes_self {c} {key} {Q} {w} empty law q before (written a text qa marshalled) b e =
      elim (honest.set-get key key text w.db) [
        | inl (hit, got) ↦ elim (load_back c empty key v a text got (law a text marshalled) b e) [
          | inl blank ↦ subst Q (sym blank) q
          | inr back ↦ subst Q (sym back) qa
        ]
        | inr same ↦ before b (sym (load_same c empty key w v same) ∙ e)
      ]
    where
      v : World p
      v = record w { db = (p.redis_set key text w.db).1 }

  -- The other keys read as before.
  pub load-Writes_ne :
      {A B : Type 0} {c : Codec p.Text A} {key : String} {Q : A → Type 0} {w v : World p}
      (d : Codec p.Text B) (empty : B) (j : String)
      → str_eq j key ≡ false
      → Writes c key Q w v
      → (load d empty j v).0 ≡ (load d empty j w).0
  load-Writes_ne d empty j other kept = refl
  load-Writes_ne {key} {w} d empty j other (written a text qa marshalled) =
      elim (honest.set-get j key text w.db) [
        | inl (hit, got) ↦ absurd (cc (hit, other))
        | inr same ↦ load_same d empty j w (record w { db = (p.redis_set key text w.db).1 }) same
      ]
