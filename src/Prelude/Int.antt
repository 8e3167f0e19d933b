-- ===== src/Prelude/Int.antt =====
-- Signed integers over the native numbers: JavaScript's numbers where the program keeps whole ones.
use lmiced.Prelude.{
  ap, ℕ, suc, ◌+◌, ◌-◌, ◌*◌, ◌/◌, ◌%◌, ◌≤◌, ◌<◌, ◌≡◌, refl, ◌↔◌, Bool, true, false, arith, ltb, leb,
  nat_beq, if◌then◌else◌,
}
use lmiced.Prelude.Dict.{Identity}

-- `negsuc n` is -(n + 1).
pub data ℤ : Type 0 where
  pos : ℕ → ℤ
  negsuc : ℕ → ℤ

abbrev pub pos_part : ℤ → ℕ
pos_part (pos n) = n
pos_part (negsuc n) = 0

abbrev pub neg_part : ℤ → ℕ
neg_part (pos n) = 0
neg_part (negsuc n) = suc n

-- a - b, as an integer.
abbrev pub sub_ℕ : ℕ → ℕ → ℤ
sub_ℕ a b = if leb b a then pos (a - b) else negsuc (b - a - 1)

infixl 65 ◌+ℤ◌ ◌-ℤ◌
infixl 70 ◌*ℤ◌
infix 50 ◌≤ℤ◌ ◌<ℤ◌
unfoldable pub ◌+ℤ◌ : ℤ → ℤ → ℤ
a +ℤ b = sub_ℕ (pos_part a + pos_part b) (neg_part a + neg_part b)

unfoldable pub ◌-ℤ◌ : ℤ → ℤ → ℤ
a -ℤ b = sub_ℕ (pos_part a + neg_part b) (neg_part a + pos_part b)

unfoldable pub ◌*ℤ◌ : ℤ → ℤ → ℤ
a *ℤ b =
    sub_ℕ (pos_part a * pos_part b + neg_part a * neg_part b)
      (pos_part a * neg_part b + neg_part a * pos_part b)

abbrev pub ◌≤ℤ◌ : ℤ → ℤ → Type 0
a ≤ℤ b = pos_part a + neg_part b ≤ pos_part b + neg_part a

abbrev pub ◌<ℤ◌ : ℤ → ℤ → Type 0
a <ℤ b = pos_part a + neg_part b < pos_part b + neg_part a

abbrev pub ltb_ℤ : ℤ → ℤ → Bool
ltb_ℤ a b = ltb (pos_part a + neg_part b) (pos_part b + neg_part a)

abbrev pub leb_ℤ : ℤ → ℤ → Bool
leb_ℤ a b = leb (pos_part a + neg_part b) (pos_part b + neg_part a)

abbrev pub eqb_ℤ : ℤ → ℤ → Bool
eqb_ℤ a b = nat_beq (pos_part a + neg_part b) (pos_part b + neg_part a)

-- One lemma for each operation lets `omega` work with the operations shut, at any depth.
pub +ℤ_parts :
    (a b : ℤ)
    → pos_part (a +ℤ b) + neg_part a + neg_part b ≡ neg_part (a +ℤ b) + pos_part a + pos_part b
unfolding ◌+ℤ◌
+ℤ_parts a b = ground arith

pub -ℤ_parts :
    (a b : ℤ)
    → pos_part (a -ℤ b) + neg_part a + pos_part b ≡ neg_part (a -ℤ b) + pos_part a + neg_part b
unfolding ◌-ℤ◌
-ℤ_parts a b = ground arith

pub eq_of_parts : (a b : ℤ) → pos_part a + neg_part b ≡ pos_part b + neg_part a → a ≡ b
eq_of_parts a b h = ground arith

pub ruleset int_laws = (arith, +ℤ_parts, -ℤ_parts, eq_of_parts)

pub eqb_ℤ_iff : (a b : ℤ) → (eqb_ℤ a b ≡ true) ↔ (a ≡ b)
eqb_ℤ_iff a b = ((λ h. ground arith), (λ h. ground arith))

instance abbrev pub int_identity : Identity ℤ
int_identity = record { same = eqb_ℤ; same_iff = eqb_ℤ_iff }

pub ltb_ℤ_irrefl : (a : ℤ) → ltb_ℤ a a ≡ false
ltb_ℤ_irrefl a = ground arith

pub ltb_ℤ_le : (a b : ℤ) → ltb_ℤ a b ≡ true → ltb_ℤ b a ≡ false
ltb_ℤ_le a b h = ground arith

pub ltb_ℤ_trans : (a b c : ℤ) → ltb_ℤ b a ≡ false → ltb_ℤ c b ≡ false → ltb_ℤ c a ≡ false
ltb_ℤ_trans a b c h k = ground arith

-- `Math.abs`
unfoldable pub abs : ℤ → ℕ
abs a = pos_part a + neg_part a

-- A whole multiple.
unfoldable pub scale : ℕ → ℤ → ℤ
scale k a = sub_ℕ (k * pos_part a) (k * neg_part a)

-- `Math.floor(a / d)`, for `d` above 0
unfoldable pub floor_div : ℤ → ℕ → ℤ
floor_div (pos n) d = pos (n / d)
floor_div (negsuc n) d = negsuc (n / d)

-- `Math.round(a / d)`: halves go up.
unfoldable pub round_div : ℤ → ℕ → ℤ
unfolding scale floor_div
round_div a d = floor_div (scale 2 a +ℤ pos d) (2 * d)

-- `a % d`: the sign is that of `a`.
unfoldable pub rem : ℤ → ℕ → ℤ
rem (pos n) d = pos (n % d)
rem (negsuc n) d = sub_ℕ 0 (suc n % d)

pub scale_parts :
    (k : ℕ) (a : ℤ) → pos_part (scale k a) + k * neg_part a ≡ neg_part (scale k a) + k * pos_part a
unfolding scale
scale_parts k a = ground arith

pub ruleset scale_laws = (int_laws, scale_parts)

pub +ℤ_pos : (a b : ℕ) → pos a +ℤ pos b ≡ pos (a + b)
+ℤ_pos a b = omega int_laws

pub -ℤ_pos : (a b : ℕ) → b ≤ a → pos a -ℤ pos b ≡ pos (a - b)
-ℤ_pos a b h = omega int_laws

pub scale_pos : (k a : ℕ) → scale k (pos a) ≡ pos (k * a)
unfolding scale
scale_pos k a = ground arith

-- Half-milliseconds to milliseconds.
pub round_half_pos : (n : ℕ) → round_div (pos n) 2 ≡ pos ((n + 1) / 2)
unfolding round_div
round_half_pos n = rw (scale_pos 2 n, +ℤ_pos (2 * n) 2) (ap pos (omega arith))

pub nonneg-pos : (a : ℤ) → pos 0 ≤ℤ a → (n : ℕ) × (a ≡ pos n)
nonneg-pos (pos n) h = (n, refl)
nonneg-pos (negsuc n) h = absurd (omega arith)

pub ltb_ℤ_false→le : (a b : ℤ) → ltb_ℤ a b ≡ false → b ≤ℤ a
ltb_ℤ_false→le a b h = ground arith

pub ltb_ℤ→lt : (a b : ℤ) → ltb_ℤ a b ≡ true → a <ℤ b
ltb_ℤ→lt a b h = ground arith

pub leb_ℤ→le : (a b : ℤ) → leb_ℤ a b ≡ true → a ≤ℤ b
leb_ℤ→le a b h = ground arith

pub +ℤ_zero : (a : ℤ) → a +ℤ pos 0 ≡ a
+ℤ_zero a = omega int_laws

pub -ℤ_zero : (a : ℤ) → a -ℤ pos 0 ≡ a
-ℤ_zero a = omega int_laws
