-- ===== src/Fetcher/InRange/Sort.antt =====
-- Members of lists of blocks, and the sorting in `find_justifications_in_range` of
-- circuits/input/mod.rs.
use kno_vectorx.Common.{
  ℕ, ◌≤◌, ◌≡◌, refl, sym, subst, true, false, List, [], ◌∷◌, ◌++◌, leb, leb→le, leb-false, ◌⊎◌, inl,
  inr, arith, Bool-cases,
}
use kno_vectorx.Fetcher.InRange.{insert, sort}

abbrev pub In : ℕ → List ℕ → Type 0
In n [] = ⊥
In n (x ∷ xs) = (n ≡ x) ⊎ In n xs

pub In-append : (n : ℕ) (xs ys : List ℕ) → In n (xs ++ ys) → In n xs ⊎ In n ys
In-append n [] ys h = inr h
In-append n (x ∷ xs) ys (inl e) = inl (inl e)
In-append n (x ∷ xs) ys (inr h) = elim (In-append n xs ys h) [ inl a ↦ inl (inr a) | inr b ↦ inr b ]

pub append-In : (n : ℕ) (xs ys : List ℕ) → In n xs ⊎ In n ys → In n (xs ++ ys)
append-In n [] ys (inl h) = absurd h
append-In n [] ys (inr h) = h
append-In n (x ∷ xs) ys (inl (inl e)) = inl e
append-In n (x ∷ xs) ys (inl (inr h)) = inr (append-In n xs ys (inl h))
append-In n (x ∷ xs) ys (inr h) = inr (append-In n xs ys (inr h))

-- Each element is at most the next one.
abbrev pub Sorted : List ℕ → Type 0
Sorted [] = Unit {0}
Sorted (x ∷ []) = Unit {0}
Sorted (x ∷ y ∷ ys) = (x ≤ y) × Sorted (y ∷ ys)

insert_low : (x y : ℕ) (ys : List ℕ) → leb x y ≡ true → insert x (y ∷ ys) ≡ x ∷ y ∷ ys
unfolding insert
insert_low x y ys t = rw t refl

insert_high : (x y : ℕ) (ys : List ℕ) → leb x y ≡ false → insert x (y ∷ ys) ≡ y ∷ insert x ys
unfolding insert
insert_high x y ys t = rw t refl

In-insert : (n x : ℕ) (ys : List ℕ) → In n (insert x ys) → (n ≡ x) ⊎ In n ys
unfolding insert
In-insert n x [] h = h
In-insert n x (y ∷ ys) h = elim (Bool-cases (leb x y)) [
  | inl t ↦ subst (In n) (insert_low x y ys t) h
  | inr t ↦ elim (subst (In n) (insert_high x y ys t) h) [
    | inl e ↦ inr (inl e)
    | inr later ↦ elim (In-insert n x ys later) [ inl e ↦ inl e | inr a ↦ inr (inr a) ]
  ]
]

insert-In : (n x : ℕ) (ys : List ℕ) → (n ≡ x) ⊎ In n ys → In n (insert x ys)
unfolding insert
insert-In n x [] h = h
insert-In n x (y ∷ ys) h = elim (Bool-cases (leb x y)) [
  | inl t ↦ subst (In n) (sym (insert_low x y ys t)) h
  | inr t ↦ subst (In n) (sym (insert_high x y ys t)) (elim h [
    | inl e ↦ inr (insert-In n x ys (inl e))
    | inr (inl e) ↦ inl e
    | inr (inr a) ↦ inr (insert-In n x ys (inr a))
  ])
]

-- Insertion after a first element that is not above what is inserted.
insert-Sorted : (x y : ℕ) (ys : List ℕ) → y ≤ x → Sorted (y ∷ ys) → Sorted (y ∷ insert x ys)
unfolding insert
insert-Sorted x y [] h s = (h, tt)
insert-Sorted x y (z ∷ zs) h s = elim (Bool-cases (leb x z)) [
  | inl t ↦ subst (λ l. Sorted (y ∷ l)) (sym (insert_low x z zs t)) (h, (leb→le x z t, s.1))
  | inr t ↦
      subst (λ l. Sorted (y ∷ l)) (sym (insert_high x z zs t))
        (s.0, insert-Sorted x z zs (omega (arith, leb-false x z t)) s.1)
]

insert_anywhere : (x : ℕ) (ys : List ℕ) → Sorted ys → Sorted (insert x ys)
unfolding insert
insert_anywhere x [] s = tt
insert_anywhere x (y ∷ ys) s = elim (Bool-cases (leb x y)) [
  | inl t ↦ subst Sorted (sym (insert_low x y ys t)) (leb→le x y t, s)
  | inr t ↦
      subst Sorted (sym (insert_high x y ys t))
        (insert-Sorted x y ys (omega (arith, leb-false x y t)) s)
]

pub sort-Sorted : (xs : List ℕ) → Sorted (sort xs)
unfolding sort
sort-Sorted [] = tt
sort-Sorted (x ∷ xs) = insert_anywhere x (sort xs) (sort-Sorted xs)

pub In-sort : (n : ℕ) (xs : List ℕ) → In n (sort xs) → In n xs
unfolding sort
In-sort n [] h = h
In-sort n (x ∷ xs) h = elim (In-insert n x (sort xs) h) [
  | inl e ↦ inl e
  | inr a ↦ inr (In-sort n xs a)
]

pub sort-In : (n : ℕ) (xs : List ℕ) → In n xs → In n (sort xs)
unfolding sort
sort-In n [] h = h
sort-In n (x ∷ xs) (inl e) = insert-In n x (sort xs) (inl e)
sort-In n (x ∷ xs) (inr h) = insert-In n x (sort xs) (inr (sort-In n xs h))
