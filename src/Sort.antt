-- ===== src/Sort.antt =====
-- `Iterator::filter` and the stable `sorted_by_key` of the standard library (as itertools passes it
-- on), over a Boolean order; sums over a list are kept by sorting.
use open_ark.Prelude.{
  ◌≡◌, refl, Bool, true, false, List, [], ◌∷◌, All, All-imp, if◌then◌else◌, Bool-cases, inl, inr,
}
use open_ark.Prelude.Int.{ℤ, pos, ◌+ℤ◌, int_laws}

module _ {A : Type 0} where
  unfoldable pub filter_by : (A → Bool) → List A → List A
  filter_by test [] = []
  filter_by test (x ∷ xs) = let rest = filter_by test xs in if test x then x ∷ rest else rest

  -- `le x y`: `x` may stand before `y`. Equal elements keep their order.
  unfoldable pub insert : (A → A → Bool) → A → List A → List A
  insert le x [] = x ∷ []
  insert le x (y ∷ ys) = let rest = insert le x ys in if le x y then x ∷ y ∷ ys else y ∷ rest

  unfoldable pub sort : (A → A → Bool) → List A → List A
  sort le [] = []
  sort le (x ∷ xs) = insert le x (sort le xs)

  -- What passes a filter has what it had, and passes the test.
  pub All-filter_by_and {κ ν} :
      (P : A → Type κ) (Q : A → Type ν) (test : A → Bool) (xs : List A)
      → ((x : A) → P x → test x ≡ true → Q x)
      → All P xs
      → All Q (filter_by test xs)
  unfolding filter_by
  All-filter_by_and P Q test [] f h = tt
  All-filter_by_and P Q test (x ∷ xs) f h = elim (Bool-cases (test x)) [
    | inl e ↦ rw e (f x h.0 e, All-filter_by_and P Q test xs f h.1)
    | inr e ↦ rw e (All-filter_by_and P Q test xs f h.1)
  ]

  pub All-insert {κ} :
      (P : A → Type κ) (le : A → A → Bool) (x : A) (ys : List A)
      → P x
      → All P ys
      → All P (insert le x ys)
  unfolding insert
  All-insert P le x [] p h = (p, tt)
  All-insert P le x (y ∷ ys) p h = elim (Bool-cases (le x y)) [
    | inl e ↦ rw e (p, h)
    | inr e ↦ rw e (h.0, All-insert P le x ys p h.1)
  ]

  pub All-sort {κ} :
      (P : A → Type κ) (le : A → A → Bool) (xs : List A) → All P xs → All P (sort le xs)
  unfolding sort
  All-sort P le [] h = tt
  All-sort P le (x ∷ xs) h = All-insert P le x (sort le xs) h.0 (All-sort P le xs h.1)

  -- The sum of `f` over a list.
  abbrev pub total : (A → ℤ) → List A → ℤ
  total f [] = pos 0
  total f (x ∷ xs) = f x +ℤ total f xs

  total-insert :
      (f : A → ℤ) (le : A → A → Bool) (x : A) (ys : List A)
      → total f (insert le x ys) ≡ f x +ℤ total f ys
  unfolding insert
  total-insert f le x [] = refl
  total-insert f le x (y ∷ ys) = elim (Bool-cases (le x y)) [
    | inl e ↦ rw e
    | inr e ↦ rw (e, total-insert f le x ys) (omega int_laws)
  ]

  pub total-sort : (f : A → ℤ) (le : A → A → Bool) (xs : List A) → total f (sort le xs) ≡ total f xs
  unfolding sort
  total-sort f le [] = refl
  total-sort f le (x ∷ xs) = rw (total-insert, total-sort f le xs)

  -- Each element may stand before all that follow.
  abbrev pub IsOrdered {κ} : (A → A → Type κ) → List A → Type κ
  IsOrdered R [] = Unit
  IsOrdered R (x ∷ xs) = All (R x) xs × IsOrdered R xs

  -- Sorting orders by a transitive relation that the test decides, one way or the other.
  module _ {κ} (R : A → A → Type κ) (le : A → A → Bool) (yes_le : (x y : A) → le x y ≡ true → R x y)
      (no_le : (x y : A) → le x y ≡ false → R y x)
      (R_trans : (x y z : A) → R x y → R y z → R x z) where
    insert-IsOrdered : (x : A) (ys : List A) → IsOrdered R ys → IsOrdered R (insert le x ys)
    unfolding insert
    insert-IsOrdered x [] h = (tt, tt)
    insert-IsOrdered x (y ∷ ys) h = elim (Bool-cases (le x y)) [
      | inl e ↦ rw e ((yes_le x y e, All-imp (λ z. R_trans x y z (yes_le x y e)) ys h.0), h)
      | inr e ↦ rw e (All-insert (R y) le x ys (no_le x y e) h.0, insert-IsOrdered x ys h.1)
    ]

    pub sort-IsOrdered : (xs : List A) → IsOrdered R (sort le xs)
    unfolding sort
    sort-IsOrdered [] = tt
    sort-IsOrdered (x ∷ xs) = insert-IsOrdered x (sort le xs) (sort-IsOrdered xs)

  pub filter_by-All : (p : A → Bool) (xs : List A) → All (λ x. p x ≡ true) xs → filter_by p xs ≡ xs
  unfolding filter_by
  filter_by-All p [] h = refl
  filter_by-All p (x ∷ xs) h = rw (h.0, filter_by-All p xs h.1)

  pub All-filter_by : (p : A → Bool) (xs : List A) → All (λ x. p x ≡ true) (filter_by p xs)
  unfolding filter_by
  All-filter_by p [] = tt
  All-filter_by p (x ∷ xs) = elim (Bool-cases (p x)) [
    | inl e ↦ rw e (e, All-filter_by p xs)
    | inr e ↦ rw e (All-filter_by p xs)
  ]

  -- The stronger of two filters decides.
  pub filter_by_both :
      (p q : A → Bool)
      → ((x : A) → p x ≡ true → q x ≡ true)
      → (xs : List A) → filter_by p (filter_by q xs) ≡ filter_by p xs
  unfolding filter_by
  filter_by_both p q f [] = refl
  filter_by_both p q f (x ∷ xs) = elim (Bool-cases (q x)) [
    | inl e ↦ elim (Bool-cases (p x)) [
      | inl e' ↦ rw (e, e', filter_by_both p q f xs)
      | inr e' ↦ rw (e, e', filter_by_both p q f xs)
    ]
    | inr e ↦ elim (Bool-cases (p x)) [
      | inl e' ↦ absurd (cc (f x e'))
      | inr e' ↦ rw (e, e', filter_by_both p q f xs)
    ]
  ]

  pub filter_by-IsOrdered :
      (R : A → A → Type 0) (p : A → Bool) (xs : List A)
      → IsOrdered R xs
      → IsOrdered R (filter_by p xs)
  unfolding filter_by
  filter_by-IsOrdered R p [] h = tt
  filter_by-IsOrdered R p (x ∷ xs) h = elim (Bool-cases (p x)) [
    | inl e ↦
        rw e (All-filter_by_and (R x) (R x) p xs (λ y r _. r) h.0, filter_by-IsOrdered R p xs h.1)
    | inr e ↦ rw e (filter_by-IsOrdered R p xs h.1)
  ]
