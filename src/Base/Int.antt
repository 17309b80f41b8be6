-- ===== src/Base/Int.antt =====
-- Signed integers over the native numbers: the values of Go's `big.Int`, which is unbounded.
use Prim.Native.Nat.{ℕ, suc, ◌+◌, ◌-◌, ◌≤◌, compare, Ordering}
use mathlib.Core.Path.{◌≡◌}
use mathlib.Core.Bool.{Bool, true, false}
use mathlib.Core.Option.{Option, none, some}
use native.Mathlib.Omega.{arith}
use party_bridge.Base.Tests.{leb, if◌then◌else◌}

-- `negsuc n` is -(n + 1).
pub data ℤ : Type 0 where
  pos : ℕ → ℤ
  negsuc : ℕ → ℤ

abbrev pub pos_part : ℤ → ℕ
pos_part (pos n) = n
pos_part (negsuc n) = 0

abbrev pub neg_part : ℤ → ℕ
neg_part (pos n) = 0
neg_part (negsuc n) = suc n

-- a - b, as an integer.
abbrev pub sub_ℕ : ℕ → ℕ → ℤ
sub_ℕ a b = if leb b a then pos (a - b) else negsuc (b - a - 1)

infixl 65 ◌+ℤ◌ ◌-ℤ◌
infix 50 ◌≤ℤ◌
-- `new(big.Int).Add(a, b)`
unfoldable pub ◌+ℤ◌ : ℤ → ℤ → ℤ
a +ℤ b = sub_ℕ (pos_part a + pos_part b) (neg_part a + neg_part b)

-- `new(big.Int).Sub(a, b)`
unfoldable pub ◌-ℤ◌ : ℤ → ℤ → ℤ
a -ℤ b = sub_ℕ (pos_part a + neg_part b) (neg_part a + pos_part b)

abbrev pub ◌≤ℤ◌ : ℤ → ℤ → Type 0
a ≤ℤ b = pos_part a + neg_part b ≤ pos_part b + neg_part a

-- `a.Cmp(b)`: `lt` for -1, `eq` for 0, `gt` for 1.
abbrev pub cmp : ℤ → ℤ → Ordering
cmp a b = compare (pos_part a + neg_part b) (pos_part b + neg_part a)

-- `a.Cmp(b) == -1`
abbrev pub ltb_ℤ : ℤ → ℤ → Bool
ltb_ℤ a b = elim (cmp a b) [ Ordering.lt ↦ true | _ ↦ false ]

-- `a.Cmp(b) <= 0`
abbrev pub leb_ℤ : ℤ → ℤ → Bool
leb_ℤ a b = elim (cmp a b) [ Ordering.gt ↦ false | _ ↦ true ]

-- `a.Cmp(b) >= 0`, also written `a.Cmp(b) == 0 || a.Cmp(b) == 1`
abbrev pub geb_ℤ : ℤ → ℤ → Bool
geb_ℤ a b = elim (cmp a b) [ Ordering.lt ↦ false | _ ↦ true ]

-- `a.Cmp(b) >= 0` on pointers; `none` is a panic. Equal pointers are equal, two nils too.
abbrev pub cmp_geb : Option ℤ → Option ℤ → Option Bool
cmp_geb none none = some true
cmp_geb none (some b) = none
cmp_geb (some a) none = none
cmp_geb (some a) (some b) = some (geb_ℤ a b)

pub geb_ℤ→≤ℤ : (a b : ℤ) → geb_ℤ a b ≡ true → b ≤ℤ a
geb_ℤ→≤ℤ a b h = ground arith

pub ≤ℤ→geb_ℤ : (a b : ℤ) → b ≤ℤ a → geb_ℤ a b ≡ true
≤ℤ→geb_ℤ a b h = ground arith

pub geb_ℤ_false→≤ℤ : (a b : ℤ) → geb_ℤ a b ≡ false → a ≤ℤ b
geb_ℤ_false→≤ℤ a b h = ground arith

pub leb_ℤ→≤ℤ : (a b : ℤ) → leb_ℤ a b ≡ true → a ≤ℤ b
leb_ℤ→≤ℤ a b h = ground arith

pub leb_ℤ_false→≤ℤ : (a b : ℤ) → leb_ℤ a b ≡ false → b ≤ℤ a
leb_ℤ_false→≤ℤ a b h = ground arith

pub +ℤ_parts :
    (a b : ℤ)
    → pos_part (a +ℤ b) + neg_part a + neg_part b ≡ neg_part (a +ℤ b) + pos_part a + pos_part b
unfolding ◌+ℤ◌
+ℤ_parts a b = ground arith

pub -ℤ_parts :
    (a b : ℤ)
    → pos_part (a -ℤ b) + neg_part a + pos_part b ≡ neg_part (a -ℤ b) + pos_part a + neg_part b
unfolding ◌-ℤ◌
-ℤ_parts a b = ground arith

pub eq_of_parts : (a b : ℤ) → pos_part a + neg_part b ≡ pos_part b + neg_part a → a ≡ b
eq_of_parts a b h = ground arith

pub ruleset int_laws = (arith, +ℤ_parts, -ℤ_parts, eq_of_parts)

-- how far apart two integers are
abbrev pub dist : ℤ → ℤ → ℕ
dist a b =
    (pos_part a + neg_part b - (pos_part b + neg_part a))
    + (pos_part b + neg_part a - (pos_part a + neg_part b))

pub dist_above : (v u t : ℤ) → t ≤ℤ v → v ≤ℤ u → dist v t ≤ dist u t
dist_above v u t h k = omega arith

pub dist_below : (v u t : ℤ) → v ≤ℤ t → u ≤ℤ v → dist v t ≤ dist u t
dist_below v u t h k = omega arith

-- `low` is no farther from `t` than `high` is.
pub dist_low :
    (low high t : ℤ) → low ≤ℤ t → t ≤ℤ high → t -ℤ low ≤ℤ high -ℤ t → dist low t ≤ dist high t
dist_low low high t h k d = omega int_laws

pub dist_high :
    (low high t : ℤ) → low ≤ℤ t → t ≤ℤ high → high -ℤ t ≤ℤ t -ℤ low → dist high t ≤ dist low t
dist_high low high t h k d = omega int_laws
