-- ===== src/Base/Update.antt =====
-- What a change of one element, or of every element, does to a sum, a predicate or a test.
use Prim.Native.Nat.{ℕ, zero, suc, ◌+◌}
use mathlib.Core.Path.{◌≡◌, refl, ap, subst}
use mathlib.Core.Bool.{Bool}
use mathlib.Core.List.{List, [], ◌∷◌, map}
use mathlib.Core.Option.{some}
use native.Mathlib.Omega.{arith}
use showdown.Base.Lists.{get_elem?, modify, sum_by, All, All-map, any, length}

module _ {ℓ} {A : Type ℓ} where
  pub sum_by-modify_at :
      (g : A → ℕ) (f : A → A) (i : ℕ) (x : A) (xs : List A)
      → get_elem? xs i ≡ some x
      → sum_by g (modify i f xs) + g x ≡ sum_by g xs + g (f x)
  sum_by-modify_at g f i x [] h = cc
  sum_by-modify_at g f zero x (y ∷ ys) h = ground arith
  sum_by-modify_at g f (suc i) x (y ∷ ys) h = omega (arith, sum_by-modify_at g f i x ys h)

  pub length-modify : (f : A → A) (i : ℕ) (xs : List A) → length (modify i f xs) ≡ length xs
  length-modify f i [] = refl
  length-modify f zero (x ∷ xs) = refl
  length-modify f (suc i) (x ∷ xs) = ap suc (length-modify f i xs)

  pub All-get {κ} :
      (P : A → Type κ) (i : ℕ) (x : A) (xs : List A) → All P xs → get_elem? xs i ≡ some x → P x
  All-get P i x [] h e = cc
  All-get P zero x (y ∷ ys) h e = subst P (cc) h.0
  All-get P (suc i) x (y ∷ ys) h e = All-get P i x ys h.1 e

  -- A change that keeps a measure keeps its sum.
  module _ (g : A → ℕ) (f : A → A) (same : (x : A) → g (f x) ≡ g x) where
    pub sum_by-map : (xs : List A) → sum_by g (map f xs) ≡ sum_by g xs
    sum_by-map [] = refl
    sum_by-map (x ∷ xs) = omega (arith, same x, sum_by-map xs)

    pub sum_by-modify : (i : ℕ) (xs : List A) → sum_by g (modify i f xs) ≡ sum_by g xs
    sum_by-modify i [] = refl
    sum_by-modify zero (x ∷ xs) = omega (arith, same x)
    sum_by-modify (suc i) (x ∷ xs) = omega (arith, sum_by-modify i xs)

  -- A change that keeps a property keeps it of all elements.
  module _ {κ μ} (P : A → Type κ) (Q : A → Type μ) (f : A → A)
      (keep : (x : A) → P x → Q (f x)) where
    pub All-map_to : (xs : List A) → All P xs → All Q (map f xs)
    All-map_to [] h = tt
    All-map_to (x ∷ xs) h = (keep x h.0, All-map_to xs h.1)

  module _ {κ} (P : A → Type κ) (f : A → A) (keep : (x : A) → P x → P (f x)) where
    pub All-modify : (i : ℕ) (xs : List A) → All P xs → All P (modify i f xs)
    All-modify i [] h = tt
    All-modify zero (x ∷ xs) h = (keep x h.0, h.1)
    All-modify (suc i) (x ∷ xs) h = (h.0, All-modify i xs h.1)

  -- One element is changed, and the others keep a weaker property.
  pub All-modify_at {κ μ} :
      (P : A → Type κ) (Q : A → Type μ) (f : A → A) (i : ℕ) (x : A) (xs : List A)
      → ((y : A) → P y → Q y)
      → Q (f x)
      → get_elem? xs i ≡ some x
      → All P xs
      → All Q (modify i f xs)
  All-modify_at P Q f i x [] weaken q e h = cc
  All-modify_at P Q f zero x (y ∷ ys) weaken q e h =
      (subst (λ z. Q (f z)) (cc) q, All-map P Q ys weaken h.1)
  All-modify_at P Q f (suc i) x (y ∷ ys) weaken q e h =
      (weaken y h.0, All-modify_at P Q f i x ys weaken q e h.1)

  -- A change that keeps a test keeps whether some element passes it.
  module _ (t : A → Bool) (f : A → A) (same : (x : A) → t (f x) ≡ t x) where
    pub any-map : (xs : List A) → any t (map f xs) ≡ any t xs
    any-map [] = refl
    any-map (x ∷ xs) = rw (same x, any-map xs)

    pub any-modify : (i : ℕ) (xs : List A) → any t (modify i f xs) ≡ any t xs
    any-modify i [] = refl
    any-modify zero (x ∷ xs) = rw (same x)
    any-modify (suc i) (x ∷ xs) = rw (any-modify i xs)
