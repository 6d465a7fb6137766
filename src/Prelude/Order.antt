-- ===== src/Prelude/Order.antt =====
-- A fold whose steps commute does not depend on the order of the list.
use mathlib.Core.Path.{◌≡◌, refl, ap, ap₂, ◌∙◌}
use mathlib.Core.List.{List, foldl, map, Perm, Permᴰ}
use mathlib.Core.Logic.{∥∥₁_elim}

module _ {ℓ κ μ} {A : Type ℓ} {S : Type κ} (Good : S → Type μ) (step : S → A → S)
    (keeps : (s : S) (x : A) → Good s → Good (step s x))
    (commutes : (s : S) (x y : A) → Good s → step (step s x) y ≡ step (step s y) x) where
  pub foldl-permᴰ :
      {xs ys : List A} → Permᴰ xs ys → (s : S) → Good s → foldl step s xs ≡ foldl step s ys
  foldl-permᴰ Permᴰ.nil s g = refl
  foldl-permᴰ (Permᴰ.cons {a = a} {b = b} {l₂ = l₂} e d) s g =
      foldl-permᴰ d (step s a) (keeps s a g) ∙ ap (λ x. foldl step (step s x) l₂) e
  foldl-permᴰ (Permᴰ.swap {a = a} {b = b} {l = l} e d) s g =
      ap (λ t. foldl step t l) (commutes s a b g)
      ∙ ap₂ (λ x y. foldl step (step (step s x) y) l) d e
  foldl-permᴰ (Permᴰ.trans d d') s g = foldl-permᴰ d s g ∙ foldl-permᴰ d' s g

  pub foldl-perm :
      IsSet S → {xs ys : List A} → Perm xs ys → (s : S) → Good s → foldl step s xs ≡ foldl step s ys
  foldl-perm set p s g = ∥∥₁_elim p (set _ _) (λ d. foldl-permᴰ d s g)

module _ {ℓ κ} {A : Type ℓ} {B : Type κ} (f : A → B) where
  pub map-permᴰ : {xs ys : List A} → Permᴰ xs ys → Permᴰ (map f xs) (map f ys)
  map-permᴰ Permᴰ.nil = Permᴰ.nil
  map-permᴰ (Permᴰ.cons e d) = Permᴰ.cons (ap f e) (map-permᴰ d)
  map-permᴰ (Permᴰ.swap e d) = Permᴰ.swap (ap f e) (ap f d)
  map-permᴰ (Permᴰ.trans d d') = Permᴰ.trans (map-permᴰ d) (map-permᴰ d')
