-- ===== src/Base/Sort.antt =====
-- Insertion sort: the sorting loops that the engine writes out itself, and the model of the
-- library's `sort.Slice` and `sort.Ints` where equal keys do not occur or do not matter.
use Prim.Native.Nat.{ℕ, ◌+◌, ◌≤◌}
use mathlib.Core.Path.{◌≡◌, refl, ap}
use mathlib.Core.Logic.{◌≢◌, inl, inr}
use mathlib.Core.Bool.{Bool}
use mathlib.Core.List.{List, [], ◌∷◌, ◌++◌, reverse, reverse-cons}
use native.Mathlib.Omega.{arith}
use showdown.Base.Tests.{if◌then◌else◌, ltb, ltb→lt, ltb→le, Bool-cases}
use showdown.Base.Lists.{sum_by, sum_by-reverse, All, All-append, All-map, All-reverse}

module _ {ℓ} {A : Type ℓ} where
  -- The inner loop: the part sorted so far is read from its end, and `x` moves past each
  -- element that it stands before.
  abbrev pub sift : (A → A → Bool) → A → List A → List A
  sift before x [] = x ∷ []
  sift before x (y ∷ ys) = if before x y then y ∷ sift before x ys else x ∷ y ∷ ys

  -- The outer loop.
  abbrev pub sift_all : (A → A → Bool) → List A → List A → List A
  sift_all before [] done = done
  sift_all before (x ∷ xs) done = sift_all before xs (sift before x done)

  unfoldable pub insertion_sort : (A → A → Bool) → List A → List A
  insertion_sort before xs = reverse (sift_all before xs [])

  -- `sort.Slice` with a comparison of keys.
  abbrev pub sort_by : (A → ℕ) → List A → List A
  sort_by key = insertion_sort (λ x y. ltb (key x) (key y))

  sum_by-sift :
      (f : A → ℕ) (before : A → A → Bool) (x : A) (ys : List A)
      → sum_by f (sift before x ys) ≡ f x + sum_by f ys
  sum_by-sift f before x [] = refl
  sum_by-sift f before x (y ∷ ys) = ground (arith, sum_by-sift f before x ys)

  sum_by-sift_all :
      (f : A → ℕ) (before : A → A → Bool) (xs ys : List A)
      → sum_by f (sift_all before xs ys) ≡ sum_by f xs + sum_by f ys
  sum_by-sift_all f before [] ys = omega arith
  sum_by-sift_all f before (x ∷ xs) ys =
      omega (arith, sum_by-sift_all f before xs (sift before x ys), sum_by-sift f before x ys)

  pub sum_by-insertion_sort :
      (f : A → ℕ) (before : A → A → Bool) (xs : List A)
      → sum_by f (insertion_sort before xs) ≡ sum_by f xs
  unfolding insertion_sort
  sum_by-insertion_sort f before xs =
      omega (arith, sum_by-reverse f (sift_all before xs []), sum_by-sift_all f before xs [])

module _ {ℓ} {A : Type ℓ} where
  -- The keys never fall along the list.
  abbrev pub Ascending : (A → ℕ) → List A → Type 0
  Ascending key [] = Unit
  Ascending key (x ∷ xs) = All (λ y. key x ≤ key y) xs × Ascending key xs

  abbrev Descending : (A → ℕ) → List A → Type 0
  Descending key [] = Unit
  Descending key (x ∷ xs) = All (λ y. key y ≤ key x) xs × Descending key xs

  pub All-sift {κ} :
      (P : A → Type κ) (before : A → A → Bool) (x : A) (ys : List A)
      → P x
      → All P ys
      → All P (sift before x ys)
  All-sift P before x [] h k = (h, tt)
  All-sift P before x (y ∷ ys) h k = elim (Bool-cases (before x y)) [
    | inl e ↦ rw e (k.0, All-sift P before x ys h k.1)
    | inr e ↦ rw e (h, k)
  ]

  All-sift_all {κ} :
      (P : A → Type κ) (before : A → A → Bool) (xs ys : List A)
      → All P xs
      → All P ys
      → All P (sift_all before xs ys)
  All-sift_all P before [] ys h k = k
  All-sift_all P before (x ∷ xs) ys h k =
      All-sift_all P before xs (sift before x ys) h.1 (All-sift P before x ys h.0 k)

  pub All-insertion_sort {κ} :
      (P : A → Type κ) (before : A → A → Bool) (xs : List A)
      → All P xs
      → All P (insertion_sort before xs)
  unfolding insertion_sort
  All-insertion_sort P before xs h =
      All-reverse P (sift_all before xs []) (All-sift_all P before xs [] h tt)

  sift-Descending :
      (key : A → ℕ) (x : A) (ys : List A)
      → Descending key ys
      → Descending key (sift (λ a b. ltb (key a) (key b)) x ys)
  sift-Descending key x [] h = (tt, tt)
  sift-Descending key x (y ∷ ys) h = elim (Bool-cases (ltb (key x) (key y))) [
    | inl e ↦ rw e (
      All-sift (λ z. key z ≤ key y) (λ a b. ltb (key a) (key b)) x ys
          (omega (arith, ltb→lt (key x) (key y) e)) h.0,
      sift-Descending key x ys h.1,
    )
    | inr e ↦
        let le : key y ≤ key x = omega (arith, ltb→le (key x) (key y) e) in
        rw e
          ((le, All-map (λ z. key z ≤ key y) (λ z. key z ≤ key x) ys (λ z k. omega arith) h.0), h)
  ]

  sift_all-Descending :
      (key : A → ℕ) (xs ys : List A)
      → Descending key ys
      → Descending key (sift_all (λ a b. ltb (key a) (key b)) xs ys)
  sift_all-Descending key [] ys h = h
  sift_all-Descending key (x ∷ xs) ys h = sift_all-Descending key xs _ (sift-Descending key x ys h)

  pub Ascending-append :
      (key : A → ℕ) (x : A) (xs : List A)
      → All (λ y. key y ≤ key x) xs
      → Ascending key xs
      → Ascending key (xs ++ x ∷ [])
  Ascending-append key x [] h k = (tt, tt)
  Ascending-append key x (y ∷ ys) h k =
      (All-append (λ z. key y ≤ key z) ys (x ∷ []) k.0 (h.0, tt), Ascending-append key x ys h.1 k.1)

  reverse-Ascending : (key : A → ℕ) (xs : List A) → Descending key xs → Ascending key (reverse xs)
  reverse-Ascending key [] h = tt
  reverse-Ascending key (x ∷ xs) h =
      rw (reverse-cons x xs)
        (Ascending-append key x (reverse xs) (All-reverse _ xs h.0) (reverse-Ascending key xs h.1))

  pub sort_by-Ascending : (key : A → ℕ) (xs : List A) → Ascending key (sort_by key xs)
  unfolding insertion_sort
  sort_by-Ascending key xs = reverse-Ascending key _ (sift_all-Descending key xs [] tt)

  -- Sorting an inhabited list gives an inhabited list.
  pub insertion_sort-ne-nil :
      (before : A → A → Bool) (xs : List A) → xs ≢ [] → insertion_sort before xs ≢ []
  insertion_sort-ne-nil before [] h e = h refl
  insertion_sort-ne-nil before (x ∷ xs) h e =
      absurd (omega (arith, sum_by-insertion_sort (λ _. 1) before (x ∷ xs), ap (sum_by (λ _. 1)) e))
