-- ===== src/Subchain/Chain.antt =====
-- The abstract view of a verified range of subchain_verification.rs: a list of blocks linked by
-- parent hash and number, and the merkle tree over their roots padded with empty leaves.
use kno_vectorx.Common.{
  ℕ, zero, suc, ◌+◌, ◌*◌, ◌^◌, ◌≤◌, ◌≡◌, refl, ap, subst, ◌∙◌, some, List, [], ◌∷◌, ◌++◌, Bytes,
  length, take, arith,
}
use native.Mathlib.Nat.{pow-suc, mul_comm}
use kno_vectorx.Plonky2x.{Gates, Gadgets, zero_hash, hash_level, tree_root, enable_leaves}
use kno_vectorx.Vars.{EncodedHeader}
use kno_vectorx.Decoder.{hash_encoded_header, decode_header}
use kno_vectorx.Subchain.{Block}

-- Each block's parent is the hash before it, and the numbers count up from `n`.
abbrev pub Linked : Bytes → ℕ → List Block → Type 0
Linked parent n [] = Unit {0}
Linked parent n (b ∷ bs) =
    (b.header.parent_hash ≡ parent) × (b.header.block_number ≡ n) × Linked b.hash (suc n) bs

-- The hash of the last block, or the hash before the first.
abbrev pub last_hash : Bytes → List Block → Bytes
last_hash h [] = h
last_hash h (b ∷ bs) = last_hash b.hash bs

-- Hash and fields of every block are those of some encoded header.
abbrev pub AllDecoded : Gates → Gadgets → List Block → Type 0
AllDecoded g G [] = Unit {0}
AllDecoded g G (b ∷ bs) =
    ((h : EncodedHeader) × (hash_encoded_header g G h ≡ b.hash)
      × (decode_header g G h b.hash ≡ some b.header))
    × AllDecoded g G bs

-- The first `n` leaves, filled up with empty ones.
abbrev pub pad : ℕ → List Bytes → List Bytes
pad zero xs = []
pad (suc n) [] = zero_hash ∷ pad n []
pad (suc n) (x ∷ xs) = x ∷ pad n xs

pub length-pad : (n : ℕ) (xs : List Bytes) → length (pad n xs) ≡ n
length-pad zero xs = refl
length-pad (suc n) [] = ap suc (length-pad n [])
length-pad (suc n) (x ∷ xs) = ap suc (length-pad n xs)

pub enable_leaves-pad : (k : ℕ) (xs : List Bytes) → enable_leaves k xs ≡ pad (length xs) (take k xs)
unfolding enable_leaves
enable_leaves-pad zero [] = refl
enable_leaves-pad (suc k) [] = refl
enable_leaves-pad zero (x ∷ xs) = ap (◌∷◌ zero_hash) (enable_leaves-pad zero xs)
enable_leaves-pad (suc k) (x ∷ xs) = ap (◌∷◌ x) (enable_leaves-pad k xs)

-- Two neighbouring ranges, of which the left one is full or the right one empty.
pub pad-append_full :
    (n m : ℕ) (xs ys : List Bytes) → length xs ≡ n → pad (n + m) (xs ++ ys) ≡ pad n xs ++ pad m ys
pad-append_full zero m [] ys e = ap (λ k. pad k ys) (omega arith)
pad-append_full (suc n) m [] ys e = absurd (omega arith)
pad-append_full zero m (x ∷ xs) ys e = absurd (omega arith)
pad-append_full (suc n) m (x ∷ xs) ys e =
    let shift : suc n + m ≡ suc (n + m) = omega arith in
    ap (λ k. pad k (x ∷ (xs ++ ys))) shift ∙ ap (◌∷◌ x) (pad-append_full n m xs ys (omega arith))

pub pad-append_empty :
    (n m : ℕ) (xs : List Bytes) → length xs ≤ n → pad (n + m) xs ≡ pad n xs ++ pad m []
pad-append_empty zero m [] e = ap (λ k. pad k []) (omega arith)
pad-append_empty zero m (x ∷ xs) e = absurd (omega arith)
pad-append_empty (suc n) m [] e =
    let shift : suc n + m ≡ suc (n + m) = omega arith in
    ap (λ k. pad k []) shift ∙ ap (◌∷◌ zero_hash) (pad-append_empty n m [] (omega arith))
pad-append_empty (suc n) m (x ∷ xs) e =
    let shift : suc n + m ≡ suc (n + m) = omega arith in
    ap (λ k. pad k (x ∷ xs)) shift ∙ ap (◌∷◌ x) (pad-append_empty n m xs (omega arith))

pub Linked-append :
    (p : Bytes) (n m : ℕ) (bs cs : List Block)
    → n + length bs ≡ m
    → Linked p n bs
    → Linked (last_hash p bs) m cs
    → Linked p n (bs ++ cs)
Linked-append p n m [] cs e l r =
    let start : m ≡ n = omega arith in subst (λ k. Linked p k cs) start r
Linked-append p n m (b ∷ bs) cs e (parent, number, l) r =
    (parent, number, Linked-append b.hash (suc n) m bs cs (omega arith) l r)

pub last_hash-append :
    (p : Bytes) (bs cs : List Block) → last_hash p (bs ++ cs) ≡ last_hash (last_hash p bs) cs
last_hash-append p [] cs = refl
last_hash-append p (b ∷ bs) cs = last_hash-append b.hash bs cs

pub AllDecoded-append :
    (g : Gates) (G : Gadgets) (bs cs : List Block)
    → AllDecoded g G bs
    → AllDecoded g G cs
    → AllDecoded g G (bs ++ cs)
AllDecoded-append g G [] cs l r = r
AllDecoded-append g G (b ∷ bs) cs (d, l) r = (d, AllDecoded-append g G bs cs l r)

pub AllDecoded-take :
    (g : Gates) (G : Gadgets) (k : ℕ) (bs : List Block)
    → AllDecoded g G bs
    → AllDecoded g G (take k bs)
AllDecoded-take g G zero bs l = tt
AllDecoded-take g G (suc k) [] l = tt
AllDecoded-take g G (suc k) (b ∷ bs) (d, l) = (d, AllDecoded-take g G k bs l)

module _ (h : Bytes → Bytes) where
  -- An even number of leaves keeps the pairs of both parts.
  hash_level-append :
      (m : ℕ) (xs ys : List Bytes)
      → length xs ≡ 2 * m
      → hash_level h (xs ++ ys) ≡ hash_level h xs ++ hash_level h ys
  unfolding hash_level
  hash_level-append m [] ys e = refl
  hash_level-append m (x ∷ []) ys e = absurd (omega arith)
  hash_level-append zero (x ∷ y ∷ xs) ys e = absurd (omega arith)
  hash_level-append (suc m) (x ∷ y ∷ xs) ys e =
      ap (◌∷◌ (h (x ++ y))) (hash_level-append m xs ys (omega arith))

  pub length-hash_level :
      (m : ℕ) (xs : List Bytes) → length xs ≡ 2 * m → length (hash_level h xs) ≡ m
  unfolding hash_level
  length-hash_level zero [] e = refl
  length-hash_level (suc m) [] e = absurd (omega arith)
  length-hash_level m (x ∷ []) e = absurd (omega arith)
  length-hash_level zero (x ∷ y ∷ xs) e = absurd (omega arith)
  length-hash_level (suc m) (x ∷ y ∷ xs) e = ap suc (length-hash_level m xs (omega arith))

  -- The root of a tree is the hash of the roots of its halves.
  pub tree_root-append :
      (d : ℕ) (xs ys : List Bytes)
      → length xs ≡ 2 ^ d
      → length ys ≡ 2 ^ d
      → tree_root h (suc d) (xs ++ ys) ≡ h (tree_root h d xs ++ tree_root h d ys)
  unfolding tree_root hash_level
  tree_root-append zero [] ys p q = absurd (omega arith)
  tree_root-append zero (x ∷ y ∷ xs) ys p q = absurd (omega arith)
  tree_root-append zero (x ∷ []) [] p q = absurd (omega arith)
  tree_root-append zero (x ∷ []) (y ∷ z ∷ ys) p q = absurd (omega arith)
  tree_root-append zero (x ∷ []) (y ∷ []) p q = refl
  tree_root-append (suc d) xs ys p q =
      let p' : length xs ≡ 2 * 2 ^ d = p ∙ pow-suc 2 d ∙ mul_comm _ _ in
      let q' : length ys ≡ 2 * 2 ^ d = q ∙ pow-suc 2 d ∙ mul_comm _ _ in
      ap (tree_root h (suc d)) (hash_level-append (2 ^ d) xs ys p')
      ∙ tree_root-append d (hash_level h xs) (hash_level h ys) (length-hash_level (2 ^ d) xs p')
          (length-hash_level (2 ^ d) ys q')
