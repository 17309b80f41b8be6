-- ===== src/Base/Text.antt =====
-- Texts: equality, and Go's `strings.Contains` by the code points of both texts.
use Prim.Native.Nat.{ℕ, ◌≤◌}
use Prim.Native.Char.{code}
use Prim.Native.String.{String, ◌++◌ as append}
use mathlib.Core.Path.{◌≡◌, refl, sym, ap₂}
use mathlib.Core.Bool.{Bool, true, false, ◌&&◌, ◌||◌}
use mathlib.Core.List.{List, [], ◌∷◌}
use native.Mathlib.Omega.{arith}
use text.Mathlib.Text.{◌==◌ as eq}
use text.Mathlib.TextEquality.{Char-path, eq_iff as iff}
use text.Mathlib.TextPositions.{eq_refl as is_refl}
use party_bridge.Base.Tests.{◌==◌, Bool-eq_of_imp}
use party_bridge.Base.Lists.{length}

-- `s == t`
abbrev pub str_eq : String → String → Bool
str_eq s t = eq s t

pub str_eq→eq : (s t : String) → str_eq s t ≡ true → s ≡ t
str_eq→eq s t h = (iff s t).0 h

pub eq→str_eq : (s t : String) → s ≡ t → str_eq s t ≡ true
eq→str_eq s t h = (iff s t).1 h

pub str_eq_refl : (s : String) → str_eq s s ≡ true
str_eq_refl s = is_refl s

-- `a + b + …`
abbrev pub concat : List String → String
concat [] = ""
concat (s ∷ rest) = append s (concat rest)

abbrev pub codes : String → List ℕ
codes String.[] = []
codes (String.◌∷◌ c s) = code c ∷ codes s

pub codes-injective : (s t : String) → codes s ≡ codes t → s ≡ t
codes-injective String.[] String.[] h = refl
codes-injective String.[] (String.◌∷◌ d t) h = cc
codes-injective (String.◌∷◌ c s) String.[] h = cc
codes-injective (String.◌∷◌ c s) (String.◌∷◌ d t) h =
    ap₂ String.◌∷◌ (Char-path c d (cc)) (codes-injective s t (cc))

-- `part` begins `whole`
is_prefix : List ℕ → List ℕ → Bool
is_prefix [] whole = true
is_prefix (c ∷ part) [] = false
is_prefix (c ∷ part) (d ∷ whole) = c == d && is_prefix part whole

occurs : List ℕ → List ℕ → Bool
unfolding is_prefix
occurs part [] = is_prefix part []
occurs part (c ∷ whole) = is_prefix part (c ∷ whole) || occurs part whole

-- `strings.Contains(s, part)`
unfoldable pub contains : String → String → Bool
unfolding occurs
contains s part = occurs (codes part) (codes s)

is_prefix_refl : (s : List ℕ) → is_prefix s s ≡ true
unfolding is_prefix
is_prefix_refl [] = refl
is_prefix_refl (c ∷ s) = ground (arith, is_prefix_refl s)

is_prefix-length-le : (part s : List ℕ) → is_prefix part s ≡ true → length part ≤ length s
unfolding is_prefix
is_prefix-length-le [] s h = omega arith
is_prefix-length-le (c ∷ part) [] h = cc
is_prefix-length-le (c ∷ part) (d ∷ s) h = ground (arith, is_prefix-length-le part s)

is_prefix-eq : (part s : List ℕ) → is_prefix part s ≡ true → length part ≡ length s → part ≡ s
unfolding is_prefix
is_prefix-eq [] [] h e = refl
is_prefix-eq [] (d ∷ s) h e = absurd (omega arith)
is_prefix-eq (c ∷ part) [] h e = cc
is_prefix-eq (c ∷ part) (d ∷ s) h e = ground (arith, is_prefix-eq part s)

occurs-length-le : (part s : List ℕ) → occurs part s ≡ true → length part ≤ length s
unfolding occurs
occurs-length-le part [] h = is_prefix-length-le part [] h
occurs-length-le part (c ∷ s) h =
    ground (arith, is_prefix-length-le part (c ∷ s), occurs-length-le part s)

occurs-eq : (part s : List ℕ) → length part ≡ length s → occurs part s ≡ true → part ≡ s
unfolding occurs
occurs-eq part [] e h = is_prefix-eq part [] h e
occurs-eq part (c ∷ s) e h = ground (arith, is_prefix-eq part (c ∷ s), occurs-length-le part s)

occurs_refl : (s : List ℕ) → occurs s s ≡ true
unfolding occurs is_prefix
occurs_refl [] = refl
occurs_refl (c ∷ s) = ground (arith, is_prefix_refl s)

pub contains_refl : (s : String) → contains s s ≡ true
unfolding contains
contains_refl s = occurs_refl (codes s)

-- Of two texts with as many characters, one contains the other only if they are equal.
pub contains-eq :
    (s part : String) → length (codes part) ≡ length (codes s) → contains s part ≡ true → part ≡ s
unfolding contains
contains-eq s part e h = codes-injective part s (occurs-eq (codes part) (codes s) e h)

pub contains-str_eq :
    (s part : String) → length (codes part) ≡ length (codes s) → contains s part ≡ str_eq s part
contains-str_eq s part e =
    Bool-eq_of_imp (contains s part) (str_eq s part)
      (λ h. eq→str_eq s part (sym (contains-eq s part e h)))
      (λ h. rw (str_eq→eq s part h) (contains_refl part))
