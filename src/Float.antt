-- ===== src/Float.antt =====
-- The `float64` arithmetic of internal/analysis, as an interface. `F` stands for the doubles that are
-- finite, the two zeros taken as one: on these `a <= b` is `!(b < a)`, and `a == b` holds when neither
-- is less. Every operation rounds in a way that the interface leaves open.
pub mod Fixed
use forecastiq.Prelude.{
  ◌≤◌, ◌↔◌, subst, ℕ, ◌≡◌, Bool, true, false, not, ◌&&◌, Bool-cases, inl, inr, if◌then◌else◌, arith,
  ◌⊎◌, ap, sym, ◌∙◌,
}

pub record Float (F : Type 0) : Type 0 where
  pub ratio : ℕ → ℕ → F  -- the literal p / q
  pub add : F → F → F
  pub sub : F → F → F
  pub mul : F → F → F
  pub div : F → F → F
  pub sqrt : F → F
  pub abs : F → F
  pub lt : F → F → Bool

module _ {F : Type 0} ⦃f : Float F⦄ where
  infix 50 ◌≺◌ ◌⪯◌ ◌≈◌
  infixl 65 ◌⊕◌ ◌⊖◌
  infixl 70 ◌⊗◌ ◌⊘◌
  infix 4 ◌≼◌
  abbrev pub ◌≺◌ : F → F → Bool
  a ≺ b = f.lt a b

  abbrev pub ◌⪯◌ : F → F → Bool
  a ⪯ b = not (f.lt b a)

  abbrev pub ◌≈◌ : F → F → Bool
  a ≈ b = not (f.lt a b) && not (f.lt b a)

  abbrev pub ◌⊕◌ : F → F → F
  a ⊕ b = f.add a b

  abbrev pub ◌⊖◌ : F → F → F
  a ⊖ b = f.sub a b

  abbrev pub ◌⊗◌ : F → F → F
  a ⊗ b = f.mul a b

  abbrev pub ◌⊘◌ : F → F → F
  a ⊘ b = f.div a b

  abbrev pub fzero : F
  fzero = f.ratio 0 1

  abbrev pub fone : F
  fone = f.ratio 1 1

  -- `a <= b`, as a statement.
  abbrev pub ◌≼◌ : F → F → Type 0
  a ≼ b = f.lt b a ≡ false

-- The order of the finite doubles.
pub record IsLinear (F : Type 0) ⦃f : Float F⦄ : Type 0 where
  pub lt_irrefl : (a : F) → (a ≺ a) ≡ false
  pub lt_trans : (a b c : F) → (a ≺ b) ≡ true → (b ≺ c) ≡ true → (a ≺ c) ≡ true
  pub lt_total : (a b : F) → (a ≺ b) ≡ false → (b ≺ a) ≡ false → a ≡ b

-- What rounding keeps of the laws of arithmetic, where no operation overflows.
pub record IsRounded (F : Type 0) ⦃f : Float F⦄ : Type 0 where
  pub le_add : (a b : F) → fzero ≼ b → a ≼ (a ⊕ b)
  pub le_add_left : (a b : F) → fzero ≼ b → a ≼ (b ⊕ a)
  pub add_mono : (a b c : F) → a ≼ b → (a ⊕ c) ≼ (b ⊕ c)
  pub ratio_nonneg : (p q : ℕ) → fzero ≼ f.ratio p q
  pub ratio_mono : (p r q : ℕ) → p ≤ r → f.ratio p q ≼ f.ratio r q
  pub add_zero : (a : F) → (a ⊕ fzero) ≡ a
  pub le_double : (a : F) → fzero ≼ a → a ≼ (f.ratio 2 1 ⊗ a)
  pub mul_zero : (a : F) → (a ⊗ fzero) ≡ fzero
  pub div_unit :
      (a b : F) → fzero ≼ a → a ≼ b → (fzero ≺ b) ≡ true → (fzero ≼ (a ⊘ b)) × ((a ⊘ b) ≼ fone)

-- The laws of rounding that errors and intervals use: every operation is monotone, and rounding is
-- symmetric about zero.
pub record IsSymmetric (F : Type 0) ⦃f : Float F⦄ : Type 0 where
  pub sub_le : (a b : F) → fzero ≼ b → (a ⊖ b) ≼ a
  pub mul_nonneg : (a b : F) → fzero ≼ a → fzero ≼ b → fzero ≼ (a ⊗ b)
  pub div_mono : (a b c : F) → a ≼ b → fzero ≼ c → (a ⊘ c) ≼ (b ⊘ c)
  pub zero_div : (c : F) → (fzero ⊘ c) ≡ fzero
  pub sqrt_nonneg : (a : F) → fzero ≼ f.sqrt a
  pub abs_nonneg : (a : F) → fzero ≼ f.abs a
  pub abs_zero : f.abs fzero ≡ fzero
  pub abs_add : (a b : F) → f.abs (a ⊕ b) ≼ (f.abs a ⊕ f.abs b)
  pub abs_mul : (a b : F) → fzero ≼ a → f.abs (a ⊗ b) ≡ (a ⊗ f.abs b)
  pub abs_div : (a b : F) → fzero ≼ b → f.abs (a ⊘ b) ≡ (f.abs a ⊘ b)
  pub add_mono_right : (a b c : F) → a ≼ b → (c ⊕ a) ≼ (c ⊕ b)

module _ {F : Type 0} ⦃f : Float F⦄ (o : IsLinear F) where
  pub ≼-refl : (a : F) → a ≼ a
  ≼-refl a = o.lt_irrefl a

  pub lt-≼ : (a b : F) → (a ≺ b) ≡ true → a ≼ b
  lt-≼ a b h = ground (arith, o.lt_irrefl a, o.lt_trans a b a)

  pub ≼-trans : (a b c : F) → a ≼ b → b ≼ c → a ≼ c
  ≼-trans a b c h k = ground (arith, o.lt_total a b, o.lt_trans c a b, o.lt_trans b c a)

  pub ≼-antisym : (a b : F) → a ≼ b → b ≼ a → a ≡ b
  ≼-antisym a b h k = o.lt_total a b k h

  pub lt_of_lt_≼ : (a b c : F) → (a ≺ b) ≡ true → b ≼ c → (a ≺ c) ≡ true
  lt_of_lt_≼ a b c h k = ground (arith, o.lt_total b c, o.lt_trans a b c)

  pub lt_of_≼_lt : (a b c : F) → a ≼ b → (b ≺ c) ≡ true → (a ≺ c) ≡ true
  lt_of_≼_lt a b c h k = ground (arith, o.lt_total a b, o.lt_trans a b c)

  pub ≈_iff : (a b : F) → ((a ≈ b) ≡ true) ↔ (a ≡ b)
  ≈_iff a b = (
    λ h. ground (arith, o.lt_total a b),
    λ e. subst (λ x. (a ≈ x) ≡ true) e (ground (arith, o.lt_irrefl a)),
  )
