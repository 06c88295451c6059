-- ===== src/Base/Lists.antt =====
-- Lists measured by native numbers, and predicates over lists.
use Prim.Native.Nat.{ℕ, zero, suc, ◌+◌}
use mathlib.Core.Path.{◌≡◌, refl, ap, ◌∙◌, subst}
use mathlib.Core.Logic.{◌⊎◌, inl, inr}
use mathlib.Core.Bool.{Bool, true, false, ◌&&◌, ◌||◌}
use mathlib.Core.List.{List, [], ◌∷◌, ◌++◌, map}
use mathlib.Core.Option.{Option, none, some}
use native.Mathlib.Omega.{arith}
use gbc_smart_management.Base.Tests.{if◌then◌else◌, Bool-cases}

module _ {ℓ} {A : Type ℓ} where
  abbrev pub length : List A → ℕ
  length [] = 0
  length (x ∷ xs) = suc (length xs)

  abbrev pub replicate : ℕ → A → List A
  replicate zero a = []
  replicate (suc n) a = a ∷ replicate n a

  -- `Array.prototype.filter`, `every`, `find` and `includes` with a Boolean test.
  unfoldable pub filter_by : (A → Bool) → List A → List A
  filter_by p [] = []
  filter_by p (x ∷ xs) = if p x then x ∷ filter_by p xs else filter_by p xs

  unfoldable pub every : (A → Bool) → List A → Bool
  every p [] = true
  every p (x ∷ xs) = p x && every p xs

  unfoldable pub find_by : (A → Bool) → List A → Option A
  find_by p [] = none
  find_by p (x ∷ xs) = if p x then some x else find_by p xs

  unfoldable pub some_by : (A → Bool) → List A → Bool
  some_by p [] = false
  some_by p (x ∷ xs) = p x || some_by p xs

  -- The entry at a place, and the list without it.
  unfoldable pub get_elem? : List A → ℕ → Option A
  get_elem? [] n = none
  get_elem? (x ∷ xs) zero = some x
  get_elem? (x ∷ xs) (suc n) = get_elem? xs n

  unfoldable pub erase_idx : List A → ℕ → List A
  erase_idx [] n = []
  erase_idx (x ∷ xs) zero = xs
  erase_idx (x ∷ xs) (suc n) = x ∷ erase_idx xs n

  pub length-append : (xs ys : List A) → length (xs ++ ys) ≡ length xs + length ys
  length-append [] ys = omega arith
  length-append (x ∷ xs) ys = omega (arith, length-append xs ys)

-- A predicate of every entry, by recursion, so that it computes to a tuple.
abbrev pub All {ℓ κ} : {A : Type ℓ} → (A → Type κ) → List A → Type κ
All P [] = Unit
All P (x ∷ xs) = P x × All P xs

-- Some entry has the property; the witness is kept.
abbrev pub Any {ℓ} : {A : Type ℓ} → (A → Type 0) → List A → Type 0
Any P [] = ⊥
Any P (x ∷ xs) = P x ⊎ Any P xs

pub All-filter_by {ℓ κ} :
    {A : Type ℓ} (P : A → Type κ) (p : A → Bool) (xs : List A) → All P xs → All P (filter_by p xs)
unfolding filter_by
All-filter_by P p [] h = tt
All-filter_by P p (x ∷ xs) h = ground (arith, All-filter_by P p xs h.1)

pub All-map {ℓ κ μ} :
    {A : Type ℓ} {B : Type κ} (P : B → Type μ) (f : A → B) (xs : List A)
    → All (λ x. P (f x)) xs
    → All P (map f xs)
All-map P f [] h = tt
All-map P f (x ∷ xs) h = (h.0, All-map P f xs h.1)

module _ {ℓ κ} {A : Type ℓ} (P : A → Type κ) where
  pub All-append : (xs ys : List A) → All P xs → All P ys → All P (xs ++ ys)
  All-append [] ys hx hy = hy
  All-append (x ∷ xs) ys hx hy = (hx.0, All-append xs ys hx.1 hy)

  pub All-imp {μ} : (Q : A → Type μ) → ((x : A) → P x → Q x) → (xs : List A) → All P xs → All Q xs
  All-imp Q f [] h = tt
  All-imp Q f (x ∷ xs) h = (f x h.0, All-imp Q f xs h.1)

module _ {ℓ} {A : Type ℓ} (P : A → Type 0) where
  pub Any-append_left : (xs ys : List A) → Any P xs → Any P (xs ++ ys)
  Any-append_left [] ys h = absurd h
  Any-append_left (x ∷ xs) ys (inl h) = inl h
  Any-append_left (x ∷ xs) ys (inr h) = inr (Any-append_left xs ys h)

  pub Any-append_right : (xs ys : List A) → Any P ys → Any P (xs ++ ys)
  Any-append_right [] ys h = h
  Any-append_right (x ∷ xs) ys h = inr (Any-append_right xs ys h)

-- What holds of every entry holds of each.
pub All-Any {ℓ} :
    {A : Type 0} (P : A → Type ℓ) (a : A) (xs : List A) → All P xs → Any (λ x. x ≡ a) xs → P a
All-Any P a [] h i = absurd i
All-Any P a (x ∷ xs) h (inl e) = subst P e h.0
All-Any P a (x ∷ xs) h (inr i) = All-Any P a xs h.1 i

module _ {ℓ κ} {A : Type ℓ} (P : A → Type κ) where
  pub All-erase_idx : (xs : List A) (n : ℕ) → All P xs → All P (erase_idx xs n)
  unfolding erase_idx
  All-erase_idx [] n h = tt
  All-erase_idx (x ∷ xs) zero h = h.1
  All-erase_idx (x ∷ xs) (suc n) h = (h.0, All-erase_idx xs n h.1)

  pub All-get_elem? : (xs : List A) (n : ℕ) (a : A) → All P xs → get_elem? xs n ≡ some a → P a
  unfolding get_elem?
  All-get_elem? [] n a h e = ground arith
  All-get_elem? (x ∷ xs) zero a h e = ground arith
  All-get_elem? (x ∷ xs) (suc n) a h e = All-get_elem? xs n a h.1 e

-- A test that holds of no entry fails at each, and an entry that is found passes its test.
module _ {ℓ} {A : Type ℓ} (p : A → Bool) where
  pub some_by-All : (xs : List A) → some_by p xs ≡ false → All (λ x. p x ≡ false) xs
  unfolding some_by
  some_by-All [] h = tt
  some_by-All (x ∷ xs) h = (ground arith, some_by-All xs (ground arith))

  pub every-All : (xs : List A) → every p xs ≡ true → All (λ x. p x ≡ true) xs
  unfolding every
  every-All [] h = tt
  every-All (x ∷ xs) h = (ground arith, every-All xs (ground arith))

  pub find_by-test : (xs : List A) (a : A) → find_by p xs ≡ some a → p a ≡ true
  unfolding find_by
  find_by-test [] a h = cc
  find_by-test (x ∷ xs) a h = ground (arith, find_by-test xs a)

  pub find_by-none : (xs : List A) → find_by p xs ≡ none → All (λ x. p x ≡ false) xs
  unfolding find_by
  find_by-none [] h = tt
  find_by-none (x ∷ xs) h = elim (Bool-cases (p x)) [
    | inl own ↦ cc (rw own at h)
    | inr other ↦ (other, find_by-none xs (rw other at h))
  ]

  pub All-find_by {κ} :
      (P : A → Type κ) (xs : List A) (a : A) → All P xs → find_by p xs ≡ some a → P a
  unfolding find_by
  All-find_by P [] a h e = cc
  All-find_by P (x ∷ xs) a h e = ground (arith, All-find_by P xs a h.1)

-- An entry of a list is one of the list that is filtered or mapped.
module _ {A : Type 0} where
  pub All-of-Any {κ} :
      (P : A → Type κ) (xs : List A) → ((x : A) → Any (λ y. y ≡ x) xs → P x) → All P xs
  All-of-Any P [] h = tt
  All-of-Any P (x ∷ xs) h = (h x (inl refl), All-of-Any P xs (λ y there. h y (inr there)))

  pub Any-filter_by :
      (p : A → Bool) (a : A) (xs : List A)
      → p a ≡ true
      → Any (λ x. x ≡ a) xs
      → Any (λ x. x ≡ a) (filter_by p xs)
  unfolding filter_by
  Any-filter_by p a [] h there = there
  Any-filter_by p a (x ∷ xs) h (inl e) = rw (ap p e ∙ h) (inl e)
  Any-filter_by p a (x ∷ xs) h (inr there) = elim (Bool-cases (p x)) [
    | inl kept ↦ rw kept (inr (Any-filter_by p a xs h there))
    | inr dropped ↦ rw dropped (Any-filter_by p a xs h there)
  ]

  pub Any-map :
      {B : Type 0} (f : A → B) (a : A) (xs : List A)
      → Any (λ x. x ≡ a) xs
      → Any (λ y. y ≡ f a) (map f xs)
  Any-map f a [] there = there
  Any-map f a (x ∷ xs) (inl e) = inl (ap f e)
  Any-map f a (x ∷ xs) (inr there) = inr (Any-map f a xs there)

  pub All-some_by : (p : A → Bool) (xs : List A) → All (λ x. p x ≡ false) xs → some_by p xs ≡ false
  unfolding some_by
  All-some_by p [] h = refl
  All-some_by p (x ∷ xs) h = rw h.0 (All-some_by p xs h.1)
