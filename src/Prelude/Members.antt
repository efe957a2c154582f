-- ===== src/Prelude/Members.antt =====
-- Membership by recursion, which computes, and its exchange with `All`.
use Prim.Native.Nat.{ℕ, zero, suc}
use mathlib.Core.Path.{◌≡◌, refl, ap₂}
use mathlib.Core.Logic.{◌⊎◌, inl, inr}
use mathlib.Core.List.{List, [], ◌∷◌, ◌++◌, map}
use testharness.Prelude.Lists.{All, take, drop}

module _ {A : Type 0} where
  abbrev pub In : A → List A → Type 0
  In a [] = ⊥
  In a (x ∷ xs) = (a ≡ x) ⊎ In a xs

  pub All-at {κ} : (P : A → Type κ) (a : A) (xs : List A) → All P xs → In a xs → P a
  All-at P a [] h m = absurd m
  All-at P a (x ∷ xs) h (inl e) = rw e h.0
  All-at P a (x ∷ xs) h (inr m) = All-at P a xs h.1 m

  pub All-of {κ} : (P : A → Type κ) (xs : List A) → ((a : A) → In a xs → P a) → All P xs
  All-of P [] h = tt
  All-of P (x ∷ xs) h = (h x (inl refl), All-of P xs (λ a m. h a (inr m)))

  pub In-append : (a : A) (xs ys : List A) → In a (xs ++ ys) → In a xs ⊎ In a ys
  In-append a [] ys m = inr m
  In-append a (x ∷ xs) ys (inl e) = inl (inl e)
  In-append a (x ∷ xs) ys (inr m) = elim (In-append a xs ys m) [
    | inl h ↦ inl (inr h)
    | inr h ↦ inr h
  ]

  pub In-take : (a : A) (n : ℕ) (xs : List A) → In a (take n xs) → In a xs
  In-take a zero xs m = absurd m
  In-take a (suc n) [] m = absurd m
  In-take a (suc n) (x ∷ xs) (inl e) = inl e
  In-take a (suc n) (x ∷ xs) (inr m) = inr (In-take a n xs m)

  pub In-drop : (a : A) (n : ℕ) (xs : List A) → In a (drop n xs) → In a xs
  In-drop a zero xs m = m
  In-drop a (suc n) [] m = m
  In-drop a (suc n) (x ∷ xs) m = inr (In-drop a n xs m)

  -- A member stands among the first `n`, or behind them.
  pub take-or-drop : (a : A) (n : ℕ) (xs : List A) → In a xs → In a (take n xs) ⊎ In a (drop n xs)
  take-or-drop a zero xs m = inr m
  take-or-drop a (suc n) [] m = absurd m
  take-or-drop a (suc n) (x ∷ xs) (inl e) = inl (inl e)
  take-or-drop a (suc n) (x ∷ xs) (inr m) = elim (take-or-drop a n xs m) [
    | inl h ↦ inl (inr h)
    | inr h ↦ inr h
  ]

  pub no_members : (xs : List A) → ((a : A) → In a xs → ⊥) → xs ≡ []
  no_members [] h = refl
  no_members (x ∷ xs) h = absurd (h x (inl refl))

module _ {A B : Type 0} (f : A → B) where
  pub In-map : (b : B) (xs : List A) → In b (map f xs) → (a : A) × In a xs × (b ≡ f a)
  In-map b [] m = absurd m
  In-map b (x ∷ xs) (inl e) = (x, inl refl, e)
  In-map b (x ∷ xs) (inr m) = let (a, n, e) = In-map b xs m in (a, inr n, e)

  pub map-eq_on : (g : A → B) (xs : List A) → ((a : A) → In a xs → f a ≡ g a) → map f xs ≡ map g xs
  map-eq_on g [] h = refl
  map-eq_on g (x ∷ xs) h = ap₂ ◌∷◌ (h x (inl refl)) (map-eq_on g xs (λ a m. h a (inr m)))

  pub map-In : (a : A) (xs : List A) → In a xs → In (f a) (map f xs)
  map-In a (x ∷ xs) (inl e) = inl (rw e)
  map-In a (x ∷ xs) (inr m) = inr (map-In a xs m)
  map-In a [] m = absurd m
