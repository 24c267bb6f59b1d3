-- ===== src/Base/Outcome.antt =====
-- The results of code that may refuse a request or panic, and what a proof about it asks for.
use mathlib.Core.List.{List, [], ◌∷◌}

-- `panic` is a run-time panic: an index out of range, a nil dereference, a division by zero or a
-- call of the function of that name.
pub data Outcome (E A : Type 0) : Type 0 where
  ok : A → Outcome E A
  refused : E → Outcome E A
  panic : Outcome E A

infixl 5 ◌>>=◌
abbrev pub ◌>>=◌ : {E A B : Type 0} → Outcome E A → (A → Outcome E B) → Outcome E B
ok a >>= f = f a
refused e >>= f = refused e
panic >>= f = panic

-- The code does not panic, and what it returns satisfies `P`.
abbrev pub Ensures : {E A : Type 0} → (A → Type 0) → Outcome E A → Type 0
Ensures P (ok a) = P a
Ensures P (refused e) = Unit
Ensures P panic = ⊥

-- The code returns, and what it returns satisfies `P`.
abbrev pub Returns : {E A : Type 0} → (A → Type 0) → Outcome E A → Type 0
Returns P (ok a) = P a
Returns P (refused e) = ⊥
Returns P panic = ⊥

pub Ensures-bind :
    {E A B : Type 0} (P : A → Type 0) (Q : B → Type 0) (m : Outcome E A) (f : A → Outcome E B)
    → Ensures P m
    → ((a : A) → P a → Ensures Q (f a))
    → Ensures Q (m >>= f)
Ensures-bind P Q (ok a) f h k = k a h
Ensures-bind P Q (refused e) f h k = tt
Ensures-bind P Q panic f h k = absurd h

pub Returns-bind :
    {E A B : Type 0} (P : A → Type 0) (Q : B → Type 0) (m : Outcome E A) (f : A → Outcome E B)
    → Returns P m
    → ((a : A) → P a → Returns Q (f a))
    → Returns Q (m >>= f)
Returns-bind P Q (ok a) f h k = k a h
Returns-bind P Q (refused e) f h k = absurd h
Returns-bind P Q panic f h k = absurd h

pub Ensures-of_Returns :
    {E A : Type 0} (P : A → Type 0) (m : Outcome E A) → Returns P m → Ensures P m
Ensures-of_Returns P (ok a) h = h
Ensures-of_Returns P (refused e) h = tt
Ensures-of_Returns P panic h = h

-- A loop over a list, each round of which may fail.
abbrev pub traverse : {E A B : Type 0} → (A → Outcome E B) → List A → Outcome E (List B)
traverse f [] = ok []
traverse f (x ∷ xs) = do y ← f x; ys ← traverse f xs; ok (y ∷ ys)

-- What the code returns, when it returns, satisfies `P`.
abbrev pub Whenever : {E A : Type 0} → (A → Type 0) → Outcome E A → Type 0
Whenever P (ok a) = P a
Whenever P (refused e) = Unit
Whenever P panic = Unit

pub Whenever-bind :
    {E A B : Type 0} (Q : B → Type 0) (m : Outcome E A) (f : A → Outcome E B)
    → ((a : A) → Whenever Q (f a))
    → Whenever Q (m >>= f)
Whenever-bind Q (ok a) f h = h a
Whenever-bind Q (refused e) f h = tt
Whenever-bind Q panic f h = tt

pub Whenever-then :
    {E A B : Type 0} (P : A → Type 0) (Q : B → Type 0) (m : Outcome E A) (f : A → Outcome E B)
    → Whenever P m
    → ((a : A) → P a → Whenever Q (f a))
    → Whenever Q (m >>= f)
Whenever-then P Q (ok a) f h k = k a h
Whenever-then P Q (refused e) f h k = tt
Whenever-then P Q panic f h k = tt

-- Two facts about the results of code that does not panic.
pub Ensures-and :
    {E A : Type 0} (P Q : A → Type 0) (m : Outcome E A)
    → Ensures P m
    → Whenever Q m
    → Ensures (λ a. P a × Q a) m
Ensures-and P Q (ok a) h k = (h, k)
Ensures-and P Q (refused e) h k = tt
Ensures-and P Q panic h k = absurd h

pub Whenever-join :
    {E A B : Type 0} (Q : B → Type 0) (m : Outcome E A) (f : A → Outcome E B)
    → Whenever (λ a. Whenever Q (f a)) m
    → Whenever Q (m >>= f)
Whenever-join Q (ok a) f h = h
Whenever-join Q (refused e) f h = tt
Whenever-join Q panic f h = tt

pub Ensures-map :
    {E A : Type 0} (P Q : A → Type 0) (m : Outcome E A)
    → ((a : A) → P a → Q a)
    → Ensures P m
    → Ensures Q m
Ensures-map P Q (ok a) k h = k a h
Ensures-map P Q (refused e) k h = tt
Ensures-map P Q panic k h = absurd h
