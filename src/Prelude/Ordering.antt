-- ===== src/Prelude/Ordering.antt =====
-- `ORDER BY`: what holds of the rows before holds after, and a row that belongs first comes first.
use mathlib.Core.Path.{◌≡◌, refl, ◌∙◌}
use Prim.Native.Nat.{suc, ◌+◌}
use mathlib.Core.Bool.{Bool, true, false, ◌&&◌, ◌||◌}
use mathlib.Core.List.{List, [], ◌∷◌, ◌++◌}
use mathlib.Core.Logic.{inl, inr}
use native.Mathlib.Omega.{arith}
use bsnexus.Prelude.Tests.{if◌then◌else◌, Bool-cases}
use bsnexus.Prelude.Lists.{
  All, All-map_imp, All-zip, All-trivial, filter, filter-All, all, any, length, insert_by,
  order_onto, order_by, order_onto-append,
}

module _ {ℓ} {A : Type ℓ} (b : A → A → Bool) where
  insert_by-All {κ} :
      (P : A → Type κ) (x : A) (xs : List A) → P x → All P xs → All P (insert_by b x xs)
  unfolding insert_by
  insert_by-All P x [] p h = (p, tt)
  insert_by-All P x (y ∷ ys) p h = ground (arith, insert_by-All P x ys p h.1)

  order_onto-All {κ} :
      (P : A → Type κ) (acc xs : List A) → All P acc → All P xs → All P (order_onto b acc xs)
  unfolding order_onto
  order_onto-All P acc [] ha h = ha
  order_onto-All P acc (x ∷ xs) ha h =
      order_onto-All P (insert_by b x acc) xs (insert_by-All P x acc h.0 ha) h.1

  pub order_by-All {κ} : (P : A → Type κ) (xs : List A) → All P xs → All P (order_by b xs)
  unfolding order_by
  order_by-All P xs h = order_onto-All P [] xs tt h

  insert_first : (x : A) (xs : List A) → All (λ y. b x y ≡ true) xs → insert_by b x xs ≡ x ∷ xs
  unfolding insert_by
  insert_first x [] h = refl
  insert_first x (y ∷ ys) h = rw (h.0)

  -- A last row that stands before every other is moved to the front, past the sorted rest.
  pub order_by-append_first :
      (x : A) (xs : List A)
      → All (λ y. b x y ≡ true) xs
      → order_by b (xs ++ x ∷ []) ≡ x ∷ order_by b xs
  unfolding order_by
  order_by-append_first x xs h =
      order_onto-append b [] xs (x ∷ [])
      ∙ insert_first x (order_onto b [] xs) (order_onto-All (λ y. b x y ≡ true) [] xs tt h)

-- every element is `b`-before all that follow it
abbrev pub Chain {ℓ} : {A : Type ℓ} → (A → A → Bool) → List A → Type 0
Chain b [] = Unit
Chain b (x ∷ xs) = All (λ y. b x y ≡ true) xs × Chain b xs

pub filter-Chain {ℓ} :
    {A : Type ℓ} (b : A → A → Bool) (p : A → Bool) (xs : List A)
    → Chain b xs
    → Chain b (filter p xs)
filter-Chain b p [] h = tt
filter-Chain b p (x ∷ xs) h = go (p x) (filter-Chain b p xs h.1)
  where
    go : (c : Bool) → Chain b (filter p xs) → Chain b (if c then x ∷ filter p xs else filter p xs)
    go true k = (filter-All (λ y. b x y ≡ true) p xs h.0, k)
    go false k = k

-- Rows that differ under the key are strictly sorted by `ORDER BY`.
module _ {ℓ} {A : Type ℓ} (b d : A → A → Bool)
    (b_trans : (x y z : A) → b x y ≡ true → b y z ≡ true → b x z ≡ true)
    (b_total : (x y : A) → d x y ≡ true → b x y ≡ false → b y x ≡ true)
    (d_sym : (x y : A) → d x y ≡ true → d y x ≡ true) where
  insert_by-Chain :
      (x : A) (xs : List A) → All (λ y. d x y ≡ true) xs → Chain b xs → Chain b (insert_by b x xs)
  unfolding insert_by
  insert_by-Chain x [] n c = (tt, tt)
  insert_by-Chain x (y ∷ ys) n c = elim (Bool-cases (b x y)) [
    | inl h ↦ rw h ((h, All-map_imp (λ z k. b_trans x y z h k) ys c.0), c)
    | inr h ↦ rw h (
      insert_by-All b (λ z. b y z ≡ true) x ys (b_total x y n.0 h) c.0,
      insert_by-Chain x ys n.1 c.1,
    )
  ]

  order_onto-Chain :
      (acc xs : List A)
      → Chain b acc
      → Chain d xs
      → All (λ x. All (λ y. d x y ≡ true) acc) xs
      → Chain b (order_onto b acc xs)
  unfolding order_onto
  order_onto-Chain acc [] ca cx n = ca
  order_onto-Chain acc (x ∷ xs) ca cx n =
      order_onto-Chain (insert_by b x acc) xs (insert_by-Chain x acc n.0 ca) cx.1
        (All-zip (λ z h k. insert_by-All b (λ y. d z y ≡ true) x acc (d_sym x z k) h) xs n.1 cx.0)

  pub order_by-Chain : (xs : List A) → Chain d xs → Chain b (order_by b xs)
  unfolding order_by
  order_by-Chain xs c = order_onto-Chain [] xs tt c (All-trivial xs)

module _ {ℓ} {A : Type ℓ} (b : A → A → Bool) (p : A → Bool) where
  all-insert_by : (x : A) (xs : List A) → all p (insert_by b x xs) ≡ (p x && all p xs)
  unfolding insert_by
  all-insert_by x [] = refl
  all-insert_by x (y ∷ ys) = ground (arith, all-insert_by x ys)

  all-order_onto : (acc xs : List A) → all p (order_onto b acc xs) ≡ (all p acc && all p xs)
  unfolding order_onto
  all-order_onto acc [] = ground arith
  all-order_onto acc (x ∷ xs) =
      ground (arith, all-order_onto (insert_by b x acc) xs, all-insert_by x acc)

  -- Sorting does not change what holds of all rows, or of some row.
  pub all-order_by : (xs : List A) → all p (order_by b xs) ≡ all p xs
  unfolding order_by
  all-order_by xs = all-order_onto [] xs

  any-insert_by : (x : A) (xs : List A) → any p (insert_by b x xs) ≡ (p x || any p xs)
  unfolding insert_by
  any-insert_by x [] = refl
  any-insert_by x (y ∷ ys) = ground (arith, any-insert_by x ys)

  any-order_onto : (acc xs : List A) → any p (order_onto b acc xs) ≡ (any p acc || any p xs)
  unfolding order_onto
  any-order_onto acc [] = ground arith
  any-order_onto acc (x ∷ xs) =
      ground (arith, any-order_onto (insert_by b x acc) xs, any-insert_by x acc)

  pub any-order_by : (xs : List A) → any p (order_by b xs) ≡ any p xs
  unfolding order_by
  any-order_by xs = any-order_onto [] xs

module _ {ℓ} {A : Type ℓ} (b : A → A → Bool) where
  length-insert_by : (x : A) (xs : List A) → length (insert_by b x xs) ≡ suc (length xs)
  unfolding insert_by
  length-insert_by x [] = refl
  length-insert_by x (y ∷ ys) = ground (arith, length-insert_by x ys)

  length-order_onto : (acc xs : List A) → length (order_onto b acc xs) ≡ length acc + length xs
  unfolding order_onto
  length-order_onto acc [] = omega arith
  length-order_onto acc (x ∷ xs) =
      omega (arith, length-order_onto (insert_by b x acc) xs, length-insert_by x acc)

  pub length-order_by : (xs : List A) → length (order_by b xs) ≡ length xs
  unfolding order_by
  length-order_by xs = omega (arith, length-order_onto [] xs)
