-- ===== src/Node/Latencies.antt =====
-- SimulatedNode.h: the window of latencies, its percentiles, and the word of a handle.
use fatp_balancer.Base.{
  ℕ, zero, suc, ◌*◌, ◌≤◌, ◌<◌, ◌^◌, ◌≡◌, refl, inl, inr, Bool, true, ◌&&◌, leb, List, [], ◌∷◌,
  length, arith, Bool-cases,
}
use native.Mathlib.Nat.{mul-le-mul_right}
use fatp_balancer.Node.State.{
  SlotHandle, encode, decode, insert_sorted, sort, percentile_index, elem_or, percentile,
}

-- Every element is at least `x`.
unfoldable all_ge : ℕ → List ℕ → Bool
all_ge x [] = true
all_ge x (y ∷ ys) = leb x y && all_ge x ys

unfoldable is_sorted : List ℕ → Bool
unfolding all_ge
is_sorted [] = true
is_sorted (x ∷ xs) = all_ge x xs && is_sorted xs

all_ge_mono : (a x : ℕ) (ys : List ℕ) → a ≤ x → all_ge x ys ≡ true → all_ge a ys ≡ true
unfolding all_ge
all_ge_mono a x [] h g = refl
all_ge_mono a x (y ∷ ys) h g = ground (arith, all_ge_mono a x ys h)

all_ge-insert_sorted :
    (a x : ℕ) (ys : List ℕ) → a ≤ x → all_ge a ys ≡ true → all_ge a (insert_sorted x ys) ≡ true
unfolding all_ge insert_sorted
all_ge-insert_sorted a x [] h g = ground arith
all_ge-insert_sorted a x (y ∷ ys) h g = ground (arith, all_ge-insert_sorted a x ys h)

is_sorted-insert_sorted :
    (x : ℕ) (ys : List ℕ) → is_sorted ys ≡ true → is_sorted (insert_sorted x ys) ≡ true
unfolding is_sorted insert_sorted all_ge
is_sorted-insert_sorted x [] g = refl
is_sorted-insert_sorted x (y ∷ ys) g = elim (Bool-cases (leb x y)) [
  | inl h ↦ ground (arith, h, g, all_ge_mono x y ys)
  | inr h ↦ ground (arith, h, g, is_sorted-insert_sorted x ys, all_ge-insert_sorted y x ys)
]

is_sorted-sort : (xs : List ℕ) → is_sorted (sort xs) ≡ true
unfolding sort is_sorted
is_sorted-sort [] = refl
is_sorted-sort (x ∷ xs) = is_sorted-insert_sorted x (sort xs) (is_sorted-sort xs)

length-insert_sorted : (x : ℕ) (ys : List ℕ) → length (insert_sorted x ys) ≡ suc (length ys)
unfolding insert_sorted
length-insert_sorted x [] = refl
length-insert_sorted x (y ∷ ys) = ground (arith, length-insert_sorted x ys)

length-sort : (xs : List ℕ) → length (sort xs) ≡ length xs
unfolding sort
length-sort [] = refl
length-sort (x ∷ xs) = ground (arith, length-insert_sorted x (sort xs), length-sort xs)

elem_or-suc : (x : ℕ) (xs : List ℕ) (i : ℕ) → elem_or (x ∷ xs) (suc i) ≡ elem_or xs i
unfolding elem_or
elem_or-suc x [] i = refl
elem_or-suc x (y ∷ ys) i = refl

all_ge-elem_or :
    (a : ℕ) (xs : List ℕ) (i : ℕ) → all_ge a xs ≡ true → i < length xs → a ≤ elem_or xs i
unfolding all_ge elem_or
all_ge-elem_or a [] i g h = omega (arith, h)
all_ge-elem_or a (x ∷ xs) zero g h = ground (arith, g)
all_ge-elem_or a (x ∷ xs) (suc i) g h =
    ground (arith, g, elem_or-suc x xs i, all_ge-elem_or a xs i, h)

elem_or_mono :
    (xs : List ℕ) (i j : ℕ)
    → is_sorted xs ≡ true
    → i ≤ j
    → j < length xs
    → elem_or xs i ≤ elem_or xs j
unfolding is_sorted elem_or
elem_or_mono [] i j s h l = omega (arith, l)
elem_or_mono (x ∷ xs) zero zero s h l = omega arith
elem_or_mono (x ∷ xs) zero (suc j) s h l =
    ground (arith, s, elem_or-suc x xs j, all_ge-elem_or x xs j, l)
elem_or_mono (x ∷ xs) (suc i) zero s h l = omega (arith, h)
elem_or_mono (x ∷ xs) (suc i) (suc j) s h l =
    ground (arith, s, elem_or-suc x xs i, elem_or-suc x xs j, elem_or_mono xs i j, h, l)

-- Of the same latencies, a smaller percentile is at most a larger one; the 50th that a node reports
-- is at most its 99th.
pub percentile_mono : (xs : List ℕ) (p q : ℕ) → p ≤ q → percentile xs p ≤ percentile xs q
unfolding percentile percentile_index sort
percentile_mono [] p q h = omega arith
percentile_mono (x ∷ xs) p q h =
    let l = length (x ∷ xs) in
    let m : p * l ≤ q * l = mul-le-mul_right l h in
    elem_or_mono (sort (x ∷ xs)) (percentile_index p l) (percentile_index q l)
      (is_sorted-sort (x ∷ xs)) (ground (arith, m)) (ground (arith, length-sort (x ∷ xs)))

-- The word of a handle of two 32-bit words is 64 bits and gives the handle back.
pub decode-encode :
    (h : SlotHandle) → h.slot < 2 ^ 32 → h.generation < 2 ^ 32 → decode (encode h) ≡ h
unfolding decode encode
decode-encode h s g = ground arith
