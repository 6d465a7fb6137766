-- ===== src/Cache/Seconds.antt =====
-- The text of `max-age`: `itoaSeconds` (internal/api/cache.go). The buffer of 20 bytes is the fuel: none
-- stands for an index out of range.
use native.Mathlib.Nat.{pow-succ'}
use forecastiq.Prelude.{
  ℕ, zero, suc, ◌+◌, ◌-◌, ◌*◌, ◌/◌, ◌%◌, ◌^◌, ◌<◌, ◌≡◌, true, Option, none, some, List, [], ◌∷◌,
  ◌==◌, if◌then◌else◌, arith, inl, inr, Bool-cases, is_some, Option-cases, ap, ◌∙◌, subst,
}

abbrev pub second : ℕ
second = 1000000000

-- The digits of a number that is not zero, before the ones that the buffer has.
unfoldable pub digits : ℕ → ℕ → List ℕ → Option (List ℕ)
digits zero secs buffer = if secs == 0 then some buffer else none
digits (suc room) secs buffer =
    let rest = digits room (secs / 10) ((b'0' + secs % 10) ∷ buffer) in
    if secs == 0 then some buffer else rest

-- `itoaSeconds` of a duration in nanoseconds.
unfoldable pub itoa_seconds : ℕ → Option (List ℕ)
itoa_seconds d = let secs = d / second in if secs == 0 then some (b'0' ∷ []) else digits 20 secs []

-- The number that decimal digits stand for, after a value.
unfoldable pub value : ℕ → List ℕ → ℕ
value v [] = v
value v (c ∷ cs) = value (v * 10 + (c - b'0')) cs

digits-value :
    (room secs : ℕ) (buffer text : List ℕ)
    → digits room secs buffer ≡ some text
    → value 0 text ≡ value secs buffer
unfolding digits value
digits-value zero secs buffer text e = ground (arith, e)
digits-value (suc room) secs buffer text e = elim (Bool-cases (secs == 0)) [
  | inl h ↦ ground (arith, e, h)
  | inr h ↦
      let ih =
        digits-value room (secs / 10) ((b'0' + secs % 10) ∷ buffer) text (ground (arith, e, h)) in
      let same : (secs / 10) * 10 + ((b'0' + secs % 10) - b'0') ≡ secs = omega arith in
      ih ∙ ap (λ v. value v buffer) same
]

div_lt : (a p : ℕ) → a < 10 * p → a / 10 < p
div_lt a p h = omega (arith, h)

digits_enough :
    (room secs : ℕ) (buffer : List ℕ) → secs < 10 ^ room → is_some (digits room secs buffer) ≡ true
unfolding digits
digits_enough zero secs buffer h = ground (arith, h)
digits_enough (suc room) secs buffer h =
    let less : secs / 10 < 10 ^ room =
      div_lt secs (10 ^ room) (subst (λ p. secs < p) (pow-succ' 10 room) h) in
    let ih = digits_enough room (secs / 10) ((b'0' + secs % 10) ∷ buffer) less in ground (arith, ih)

-- For every duration that a 64-bit integer holds, the text fits into the buffer and stands for the whole
-- seconds of the duration.
pub itoa_seconds-value :
    (d : ℕ)
    → d < 2 ^ 63
    → (text : List ℕ) × (itoa_seconds d ≡ some text) × (value 0 text ≡ d / second)
unfolding itoa_seconds value
itoa_seconds-value d h = elim (Bool-cases ((d / second) == 0)) [
  | inl z ↦ (b'0' ∷ [], ground (arith, z), ground (arith, z))
  | inr z ↦
      let fits = digits_enough 20 (d / second) [] (omega (arith, h)) in
      elim (Option-cases (digits 20 (d / second) [])) [
        | inl k ↦ absurd (ground (arith, fits, k))
        | inr (text, k) ↦ (text, ground (arith, z, k), digits-value 20 (d / second) [] text k)
      ]
]
