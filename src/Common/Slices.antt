-- ===== src/Common/Slices.antt =====
-- Parts of lists: prefixes, suffixes and slices, and how they compose.
use Prim.Native.Nat.{ℕ, zero, suc, ◌+◌, ◌-◌, ◌≤◌, ◌<◌}
use mathlib.Core.Path.{◌≡◌, refl, sym, ap, ap₂, ◌∙◌}
use mathlib.Core.List.{List, [], ◌∷◌, ◌++◌, map}
use mathlib.Core.Option.{some}
use native.Mathlib.Omega.{arith}
use kno_vectorx.Common.Lists.{length, get_elem?, get_or, take, drop, slice, replicate, range_from}

module _ {ℓ} {A : Type ℓ} where
  pub take-add : (m n : ℕ) (xs : List A) → take (m + n) xs ≡ take m xs ++ take n (drop m xs)
  take-add zero n xs = let z : zero + n ≡ n = omega arith in ap (λ k. take k xs) z
  take-add (suc m) zero [] = let s : suc m + 0 ≡ suc m = omega arith in ap (λ k. take k []) s
  take-add (suc m) (suc n) [] =
      let s : suc m + suc n ≡ suc (m + suc n) = omega arith in ap (λ k. take k []) s
  take-add (suc m) n (x ∷ xs) =
      let s : suc m + n ≡ suc (m + n) = omega arith in
      ap (λ k. take k (x ∷ xs)) s ∙ ap (◌∷◌ x) (take-add m n xs)

  pub drop-drop : (m n : ℕ) (xs : List A) → drop m (drop n xs) ≡ drop (n + m) xs
  drop-drop m zero xs = let z : zero + m ≡ m = omega arith in ap (λ k. drop k xs) (sym z)
  drop-drop zero (suc n) [] = let s : suc n + 0 ≡ suc n = omega arith in ap (λ k. drop k []) (sym s)
  drop-drop (suc m) (suc n) [] =
      let s : suc n + suc m ≡ suc (n + suc m) = omega arith in ap (λ k. drop k []) (sym s)
  drop-drop m (suc n) (x ∷ xs) =
      let s : suc n + m ≡ suc (n + m) = omega arith in
      drop-drop m n xs ∙ ap (λ k. drop k (x ∷ xs)) (sym s)

  pub drop_next :
      (i : ℕ) (xs : List A) (d : A) → i < length xs → drop i xs ≡ get_or xs i d ∷ drop (i + 1) xs
  drop_next i [] d h = absurd (omega arith)
  drop_next zero (x ∷ xs) d h = refl
  drop_next (suc i) (x ∷ xs) d h =
      let s : suc i + 1 ≡ suc (i + 1) = omega arith in
      drop_next i xs d (omega arith) ∙ ap (λ k. get_or xs i d ∷ drop k (x ∷ xs)) (sym s)

  pub take-take : (k n : ℕ) (xs : List A) → k ≤ n → take k (take n xs) ≡ take k xs
  take-take zero n xs h = refl
  take-take (suc k) zero xs h = absurd (omega arith)
  take-take (suc k) (suc n) [] h = refl
  take-take (suc k) (suc n) (x ∷ xs) h = ap (◌∷◌ x) (take-take k n xs (omega arith))

  pub drop-take : (a n : ℕ) (xs : List A) → drop a (take n xs) ≡ take (n - a) (drop a xs)
  drop-take zero n xs = let z : n - 0 ≡ n = omega arith in ap (λ k. take k xs) (sym z)
  drop-take (suc a) zero xs =
      let z : 0 - suc a ≡ 0 = omega arith in ap (λ k. take k (drop (suc a) xs)) (sym z)
  drop-take (suc a) (suc n) [] = sym (take_nil (suc n - suc a))
    where
      take_nil : (k : ℕ) → take {A = A} k [] ≡ []
      take_nil zero = refl
      take_nil (suc k) = refl
  drop-take (suc a) (suc n) (x ∷ xs) =
      let s : suc n - suc a ≡ n - a = omega arith in
      drop-take a n xs ∙ ap (λ k. take k (drop a xs)) (sym s)

  -- A slice of a slice.
  pub slice-slice :
      (start n a b : ℕ) (xs : List A)
      → b ≤ n
      → slice (slice xs start (start + n)) a b ≡ slice xs (start + a) (start + b)
  slice-slice start n a b xs h =
      let l : start + n - start ≡ n = omega arith in
      let k : start + b - (start + a) ≡ b - a = omega arith in
      ap (λ m. slice (take m (drop start xs)) a b) l
      ∙ ap (take (b - a)) (drop-take a n (drop start xs))
      ∙ take-take (b - a) (n - a) (drop a (drop start xs)) (omega arith)
      ∙ ap₂ take (sym k) (drop-drop a start xs)

  pub get_elem?-drop : (i n : ℕ) (xs : List A) → get_elem? (drop n xs) i ≡ get_elem? xs (n + i)
  get_elem?-drop i zero xs = let z : zero + i ≡ i = omega arith in ap (get_elem? xs) (sym z)
  get_elem?-drop i (suc n) [] = refl
  get_elem?-drop i (suc n) (x ∷ xs) =
      let s : suc n + i ≡ suc (n + i) = omega arith in
      get_elem?-drop i n xs ∙ ap (get_elem? (x ∷ xs)) (sym s)

  pub get_elem?-take : (i n : ℕ) (xs : List A) → i < n → get_elem? (take n xs) i ≡ get_elem? xs i
  get_elem?-take i zero xs h = absurd (omega arith)
  get_elem?-take i (suc n) [] h = refl
  get_elem?-take zero (suc n) (x ∷ xs) h = refl
  get_elem?-take (suc i) (suc n) (x ∷ xs) h = get_elem?-take i n xs (omega arith)

  pub get_elem?-slice :
      (i start n : ℕ) (xs : List A)
      → i < n
      → get_elem? (slice xs start (start + n)) i ≡ get_elem? xs (start + i)
  get_elem?-slice i start n xs h =
      let l : start + n - start ≡ n = omega arith in
      ap (λ m. get_elem? (take m (drop start xs)) i) l
      ∙ get_elem?-take i n (drop start xs) h
      ∙ get_elem?-drop i start xs

  pub get_elem?-append_left :
      (i : ℕ) (xs ys : List A) → i < length xs → get_elem? (xs ++ ys) i ≡ get_elem? xs i
  get_elem?-append_left i [] ys h = absurd (omega arith)
  get_elem?-append_left zero (x ∷ xs) ys h = refl
  get_elem?-append_left (suc i) (x ∷ xs) ys h = get_elem?-append_left i xs ys (omega arith)

  pub get_elem?-append_right :
      (i : ℕ) (xs ys : List A)
      → length xs ≤ i
      → get_elem? (xs ++ ys) i ≡ get_elem? ys (i - length xs)
  get_elem?-append_right i [] ys h = let z : i - 0 ≡ i = omega arith in ap (get_elem? ys) (sym z)
  get_elem?-append_right zero (x ∷ xs) ys h = absurd (omega arith)
  get_elem?-append_right (suc i) (x ∷ xs) ys h =
      let s : suc i - suc (length xs) ≡ i - length xs = omega arith in
      get_elem?-append_right i xs ys (omega arith) ∙ ap (get_elem? ys) (sym s)

  pub get_elem?-replicate : (i n : ℕ) (a : A) → i < n → get_elem? (replicate n a) i ≡ some a
  get_elem?-replicate i zero a h = absurd (omega arith)
  get_elem?-replicate zero (suc n) a h = refl
  get_elem?-replicate (suc i) (suc n) a h = get_elem?-replicate i n a (omega arith)

  pub get_elem?-map_range :
      (f : ℕ → A) (n start i : ℕ)
      → i < n
      → get_elem? (map f (range_from start n)) i ≡ some (f (start + i))
  unfolding range_from
  get_elem?-map_range f zero start i h = absurd (omega arith)
  get_elem?-map_range f (suc n) start zero h =
      let z : start + 0 ≡ start = omega arith in ap (λ k. some (f k)) (sym z)
  get_elem?-map_range f (suc n) start (suc i) h =
      let s : suc start + i ≡ start + suc i = omega arith in
      get_elem?-map_range f n (suc start) i (omega arith) ∙ ap (λ k. some (f k)) s

  -- A known prefix splits in two.
  pub take-append_split :
      (m c : ℕ) (xs ys zs : List A)
      → take (m + c) xs ≡ ys ++ zs
      → length ys ≡ m
      → (take m xs ≡ ys) × (take c (drop m xs) ≡ zs)
  take-append_split zero c xs [] zs e l =
      (refl, let z : zero + c ≡ c = omega arith in ap (λ k. take k xs) (sym z) ∙ e)
  take-append_split zero c xs (y ∷ ys) zs e l = absurd (omega arith)
  take-append_split (suc m) c xs [] zs e l = absurd (omega arith)
  take-append_split (suc m) c [] (y ∷ ys) zs e l =
      let s : suc m + c ≡ suc (m + c) = omega arith in
      let bad : [] ≡ y ∷ (ys ++ zs) = ap (λ k. take k []) (sym s) ∙ e in cc
  take-append_split (suc m) c (x ∷ xs) (y ∷ ys) zs e l =
      let s : suc m + c ≡ suc (m + c) = omega arith in
      let both : x ∷ take (m + c) xs ≡ y ∷ (ys ++ zs) = ap (λ k. take k (x ∷ xs)) (sym s) ∙ e in
      let head : x ≡ y = cc in
      let tail : take (m + c) xs ≡ ys ++ zs = cc in
      let (first, rest) = take-append_split m c xs ys zs tail (omega arith) in
      (ap₂ ◌∷◌ head first, rest)
