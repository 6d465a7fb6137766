-- ===== src/Float/Fixed.antt =====
-- Numbers with three decimal places, an instance of the interface of `float64`: it runs in the
-- examples, and shows that the laws can be met.
use forecastiq.Prelude.{
  ℕ, zero, suc, ◌+◌, ◌*◌, ◌/◌, ◌≤◌, ◌<◌, ◌≡◌, refl, Bool, true, false, arith, leb, if◌then◌else◌,
}
use forecastiq.Prelude.Int.{ℤ, pos, negsuc, pos_part, neg_part, sub_ℕ, ◌+ℤ◌, ◌-ℤ◌, ltb_ℤ}
use forecastiq.Float.{Float, IsLinear, IsRounded, IsSymmetric, ◌≺◌, ◌≼◌}

abbrev pub scale : ℕ
scale = 1000

-- The integer whose size is `n`, with the sign that the flag says.
abbrev pub signed : Bool → ℕ → ℤ
signed true n = sub_ℕ 0 n
signed false n = pos n

abbrev pub is_neg : ℤ → Bool
is_neg (pos n) = false
is_neg (negsuc n) = true

abbrev pub size : ℤ → ℕ
size a = pos_part a + neg_part a

abbrev pub differ : Bool → Bool → Bool
differ true false = true
differ false true = true
differ _ _ = false

abbrev pub fixed_mul : ℤ → ℤ → ℤ
fixed_mul a b = signed (differ (is_neg a) (is_neg b)) (size a * size b / scale)

abbrev pub fixed_div : ℤ → ℤ → ℤ
fixed_div a b = signed (differ (is_neg a) (is_neg b)) (size a * scale / size b)

-- The integer square root, two bits a round.
isqrt : ℕ → ℕ → ℕ
isqrt zero n = 0
isqrt (suc fuel) n =
    let r = 2 * isqrt fuel (n / 4) in if leb ((r + 1) * (r + 1)) n then r + 1 else r

unfoldable pub fixed_sqrt : ℤ → ℤ
unfolding isqrt
fixed_sqrt a = pos (isqrt 40 (pos_part a * scale))

instance abbrev pub fixed_float : Float ℤ
fixed_float = record {
  ratio = λ p q. pos (p * scale / q);
  add = ◌+ℤ◌;
  sub = ◌-ℤ◌;
  mul = fixed_mul;
  div = fixed_div;
  sqrt = fixed_sqrt;
  abs = λ a. pos (size a);
  lt = ltb_ℤ;
}

pub Fixed-IsLinear : IsLinear ℤ
Fixed-IsLinear = record {
  lt_irrefl = λ a. ground arith;
  lt_trans = λ a b c h k. ground arith;
  lt_total = λ a b h k. ground arith;
}

div-le_scale : (a b : ℕ) → a ≤ b → 0 < b → a * scale / b ≤ scale
div-le_scale a b h k = grind arith

fixed_div_unit :
    (a b : ℤ)
    → pos 0 ≼ a
    → a ≼ b
    → (pos 0 ≺ b) ≡ true
    → (pos 0 ≼ fixed_div a b) × (fixed_div a b ≼ pos scale)
fixed_div_unit (pos a) (pos b) h k l = ground (arith, div-le_scale a b)
fixed_div_unit (negsuc a) b h k l = ground arith
fixed_div_unit (pos a) (negsuc b) h k l = ground arith

div_le_div : (a b c : ℕ) → a ≤ b → a / c ≤ b / c
div_le_div a b zero h = ground arith
div_le_div a b (suc c) h = grind arith

mul_le_mul : (p r : ℕ) → p ≤ r → p * scale ≤ r * scale
mul_le_mul p r h = omega arith

fixed_ratio_mono : (p r q : ℕ) → p ≤ r → pos (p * scale / q) ≼ pos (r * scale / q)
fixed_ratio_mono p r q h = ground (arith, div_le_div (p * scale) (r * scale) q (mul_le_mul p r h))

pub Fixed-IsRounded : IsRounded ℤ
unfolding ◌+ℤ◌
Fixed-IsRounded = record {
  le_add = λ a b h. ground arith;
  le_add_left = λ a b h. ground arith;
  add_mono = λ a b c h. ground arith;
  ratio_nonneg = λ p q. ground arith;
  ratio_mono = fixed_ratio_mono;
  add_zero = λ a. ground arith;
  le_double = λ a h. ground arith;
  mul_zero = λ a. ground arith;
  div_unit = λ a b h k l. fixed_div_unit a b h k l;
}

fixed_div_mono : (a b c : ℤ) → a ≼ b → pos 0 ≼ c → fixed_div a c ≼ fixed_div b c
fixed_div_mono a b (negsuc c) h k = ground arith
fixed_div_mono (pos a) (pos b) (pos c) h k = ground (arith, div_le_div (a * scale) (b * scale) c)
fixed_div_mono (negsuc a) (pos b) (pos c) h k = ground arith
fixed_div_mono (pos a) (negsuc b) (pos c) h k = ground arith
fixed_div_mono (negsuc a) (negsuc b) (pos c) h k =
    ground (arith, div_le_div (suc b * scale) (suc a * scale) c)

zero-div : (c : ℕ) → 0 / c ≡ 0
zero-div zero = omega arith
zero-div (suc c) = grind arith

fixed_zero_div : (c : ℤ) → fixed_div (pos 0) c ≡ pos 0
fixed_zero_div (pos c) = ground (arith, zero-div c)
fixed_zero_div (negsuc c) = ground (arith, zero-div (suc c))

pub Fixed-IsSymmetric : IsSymmetric ℤ
unfolding ◌+ℤ◌ ◌-ℤ◌ fixed_sqrt
Fixed-IsSymmetric = record {
  sub_le = λ a b h. ground arith;
  mul_nonneg = λ a b h k. ground arith;
  div_mono = fixed_div_mono;
  zero_div = fixed_zero_div;
  sqrt_nonneg = λ a. ground arith;
  abs_nonneg = λ a. ground arith;
  abs_zero = refl;
  abs_add = λ a b. ground arith;
  abs_mul = λ a b h. ground arith;
  abs_div = λ a b h. ground arith;
  add_mono_right = λ a b c h. ground arith;
}
