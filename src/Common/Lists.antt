-- ===== src/Common/Lists.antt =====
-- Lists measured and indexed by native numbers, under the library's names.
use Prim.Native.Nat.{ℕ, zero, suc, ◌+◌, ◌-◌, ◌≤◌, min}
use mathlib.Core.Path.{◌≡◌, refl, ap, ap₂, ◌∙◌}
use mathlib.Core.List.{List, [], ◌∷◌, ◌++◌, map}
use mathlib.Core.Option.{Option, none, some}
use native.Mathlib.Omega.{arith}

-- Bytes, and strings of them.
abbrev pub Bytes : Type 0
Bytes = List ℕ

module _ {ℓ} {A : Type ℓ} where
  abbrev pub length : List A → ℕ
  length [] = 0
  length (x ∷ xs) = suc (length xs)

  abbrev pub get_elem? : List A → ℕ → Option A
  get_elem? [] i = none
  get_elem? (x ∷ xs) zero = some x
  get_elem? (x ∷ xs) (suc i) = get_elem? xs i

  abbrev pub get_or : List A → ℕ → A → A
  get_or [] i d = d
  get_or (x ∷ xs) zero d = x
  get_or (x ∷ xs) (suc i) d = get_or xs i d

  abbrev pub take : ℕ → List A → List A
  take zero xs = []
  take (suc n) [] = []
  take (suc n) (x ∷ xs) = x ∷ take n xs

  abbrev pub drop : ℕ → List A → List A
  drop zero xs = xs
  drop (suc n) [] = []
  drop (suc n) (x ∷ xs) = drop n xs

  abbrev pub replicate : ℕ → A → List A
  replicate zero a = []
  replicate (suc n) a = a ∷ replicate n a

module _ {ℓ} {A : Type ℓ} where
  -- `xs[i..j]`.
  abbrev pub slice : List A → ℕ → ℕ → List A
  slice xs i j = take (j - i) (drop i xs)

  pub length-append : (xs ys : List A) → length (xs ++ ys) ≡ length xs + length ys
  length-append [] ys = omega arith
  length-append (x ∷ xs) ys = omega (arith, length-append xs ys)

  pub length-take : (n : ℕ) (xs : List A) → length (take n xs) ≡ min n (length xs)
  length-take zero xs = omega arith
  length-take (suc n) [] = omega arith
  length-take (suc n) (x ∷ xs) = omega (arith, length-take n xs)

  pub length-drop : (n : ℕ) (xs : List A) → length (drop n xs) ≡ length xs - n
  length-drop zero xs = omega arith
  length-drop (suc n) [] = omega arith
  length-drop (suc n) (x ∷ xs) = omega (arith, length-drop n xs)

  pub length-replicate : (n : ℕ) (a : A) → length (replicate n a) ≡ n
  length-replicate zero a = refl
  length-replicate (suc n) a = ap suc (length-replicate n a)

  pub take-append_left : (xs ys : List A) → take (length xs) (xs ++ ys) ≡ xs
  take-append_left [] ys = refl
  take-append_left (x ∷ xs) ys = ap (◌∷◌ x) (take-append_left xs ys)

  pub drop-append_left : (xs ys : List A) → drop (length xs) (xs ++ ys) ≡ ys
  drop-append_left [] ys = refl
  drop-append_left (x ∷ xs) ys = drop-append_left xs ys

  pub take_all : (n : ℕ) (xs : List A) → length xs ≤ n → take n xs ≡ xs
  take_all zero [] h = refl
  take_all zero (x ∷ xs) h = absurd (omega arith)
  take_all (suc n) [] h = refl
  take_all (suc n) (x ∷ xs) h = ap (◌∷◌ x) (take_all n xs (omega arith))

  pub length-map {κ} : {B : Type κ} (xs : List A) (f : A → B) → length (map f xs) ≡ length xs
  length-map [] f = refl
  length-map (x ∷ xs) f = ap suc (length-map xs f)

-- `(start .. start + count)`
unfoldable pub range_from : (start count : ℕ) → List ℕ
range_from start zero = []
range_from start (suc count) = start ∷ range_from (suc start) count

pub take-range_from : (n m r : ℕ) → take n (range_from r (n + m)) ≡ range_from r n
unfolding range_from
take-range_from zero m r = refl
take-range_from (suc n) m r =
    let shift : suc n + m ≡ suc (n + m) = omega arith in
    ap (λ k. take (suc n) (range_from r k)) shift ∙ ap (◌∷◌ r) (take-range_from n m (suc r))

pub drop-range_from : (n m r : ℕ) → drop n (range_from r (n + m)) ≡ range_from (r + n) m
unfolding range_from
drop-range_from zero m r = ap₂ range_from (omega arith) (omega arith)
drop-range_from (suc n) m r =
    let shift : suc n + m ≡ suc (n + m) = omega arith in
    let start : suc r + n ≡ r + suc n = omega arith in
    ap (λ k. drop (suc n) (range_from r k)) shift
    ∙ drop-range_from n m (suc r)
    ∙ ap (λ k. range_from k m) start

pub length-range_from : (r n : ℕ) → length (range_from r n) ≡ n
unfolding range_from
length-range_from r zero = refl
length-range_from r (suc n) = ap suc (length-range_from (suc r) n)

-- Two neighbouring ranges.
pub range_from-append : (r n m : ℕ) → range_from r (n + m) ≡ range_from r n ++ range_from (r + n) m
unfolding range_from
range_from-append r zero m = ap₂ range_from (omega arith) (omega arith)
range_from-append r (suc n) m =
    let shift : suc n + m ≡ suc (n + m) = omega arith in
    let start : suc r + n ≡ r + suc n = omega arith in
    ap (range_from r) shift
    ∙ ap (◌∷◌ r)
        (range_from-append (suc r) n m ∙ ap (λ k. range_from (suc r) n ++ range_from k m) start)

pub range_from-zero : (r : ℕ) → range_from r 0 ≡ []
unfolding range_from
range_from-zero r = refl

module _ {ℓ} {A : Type ℓ} where
  pub take_exact : (n : ℕ) (xs ys : List A) → length xs ≡ n → take n (xs ++ ys) ≡ xs
  take_exact zero [] ys e = refl
  take_exact zero (x ∷ xs) ys e = absurd (omega arith)
  take_exact (suc n) [] ys e = absurd (omega arith)
  take_exact (suc n) (x ∷ xs) ys e = ap (◌∷◌ x) (take_exact n xs ys (omega arith))

  pub drop_past : (n m : ℕ) (xs ys : List A) → length xs ≡ n → drop (n + m) (xs ++ ys) ≡ drop m ys
  drop_past zero m [] ys e = let z : zero + m ≡ m = omega arith in ap (λ k. drop k ys) z
  drop_past zero m (x ∷ xs) ys e = absurd (omega arith)
  drop_past (suc n) m [] ys e = absurd (omega arith)
  drop_past (suc n) m (x ∷ xs) ys e =
      let s : suc n + m ≡ suc (n + m) = omega arith in
      ap (λ k. drop k (x ∷ (xs ++ ys))) s ∙ drop_past n m xs ys (omega arith)
