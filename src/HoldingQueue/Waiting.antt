-- ===== src/HoldingQueue/Waiting.antt =====
-- The holding queue seen as one list: the order in which `try_dequeue` will hand the entries out.
use fatp_balancer.Base.{
  ℕ, ◌≡◌, refl, Bool, true, false, Option, none, some, List, [], ◌∷◌, ◌++◌, arith, ◌==◌,
  if◌then◌else◌, All,
}
use fatp_balancer.Job.{is_critical}
use fatp_balancer.HoldingQueue.Defs.{Entry, HoldingQueue, extract_from}

module _ {ℓ} {C : Type ℓ} where
  abbrev pub is_first : Entry C → Bool
  is_first e = is_critical e.job.priority

  abbrev pub waiting : HoldingQueue C → List (Entry C)
  waiting q = q.critical ++ q.high

  -- Stable insertion: a Critical entry goes behind the last Critical one, any other to the end.
  unfoldable pub insert : Entry C → List (Entry C) → List (Entry C)
  insert e [] = e ∷ []
  insert e (x ∷ xs) =
      let rest = insert e xs in
      if is_first e then (if is_first x then x ∷ rest else e ∷ x ∷ xs) else x ∷ rest

  -- The list without its first entry with the handle, and that entry.
  unfoldable pub without : ℕ → List (Entry C) → List (Entry C)
  without raw [] = []
  without raw (x ∷ xs) = let rest = without raw xs in if x.hold_handle == raw then xs else x ∷ rest

  unfoldable pub first_with : ℕ → List (Entry C) → Option (Entry C)
  first_with raw [] = none
  first_with raw (x ∷ xs) =
      let rest = first_with raw xs in if x.hold_handle == raw then some x else rest

  insert-seconds :
      (e : Entry C) (ys : List (Entry C))
      → is_first e ≡ true
      → All (λ x. is_first x ≡ false) ys
      → insert e ys ≡ e ∷ ys
  unfolding insert
  insert-seconds e [] f h = refl
  insert-seconds e (y ∷ ys) f h = ground (arith, h.0)

  pub insert-critical :
      (e : Entry C) (xs ys : List (Entry C))
      → is_first e ≡ true
      → All (λ x. is_first x ≡ true) xs
      → All (λ x. is_first x ≡ false) ys
      → (xs ++ e ∷ []) ++ ys ≡ insert e (xs ++ ys)
  unfolding insert
  insert-critical e [] ys f h k = ground (arith, insert-seconds e ys f k)
  insert-critical e (x ∷ xs) ys f h k = ground (arith, h.0, insert-critical e xs ys f h.1 k)

  pub insert-high :
      (e : Entry C) (xs : List (Entry C)) → is_first e ≡ false → xs ++ e ∷ [] ≡ insert e xs
  unfolding insert
  insert-high e [] f = refl
  insert-high e (x ∷ xs) f = ground (arith, insert-high e xs f)

  pub extract_from_lem :
      (xs : List (Entry C)) (raw : ℕ) → extract_from xs raw ≡ (without raw xs, first_with raw xs)
  unfolding extract_from without first_with
  extract_from_lem [] raw = refl
  extract_from_lem (x ∷ xs) raw = ground (arith, extract_from_lem xs raw)

  pub first_with-append :
      (raw : ℕ) (xs ys : List (Entry C)) (e : Entry C)
      → first_with raw xs ≡ some e
      → (first_with raw (xs ++ ys) ≡ some e) × (without raw (xs ++ ys) ≡ without raw xs ++ ys)
  unfolding first_with without
  first_with-append raw [] ys e h = cc
  first_with-append raw (x ∷ xs) ys e h = ground (arith, first_with-append raw xs ys e)

  pub first_with-append-none :
      (raw : ℕ) (xs ys : List (Entry C))
      → first_with raw xs ≡ none
      → (first_with raw (xs ++ ys) ≡ first_with raw ys)
        × (without raw (xs ++ ys) ≡ xs ++ without raw ys)
  unfolding first_with without
  first_with-append-none raw [] ys h = (refl, refl)
  first_with-append-none raw (x ∷ xs) ys h = ground (arith, first_with-append-none raw xs ys)

  pub without-none :
      (raw : ℕ) (xs : List (Entry C)) → first_with raw xs ≡ none → without raw xs ≡ xs
  unfolding first_with without
  without-none raw [] h = refl
  without-none raw (x ∷ xs) h = ground (arith, without-none raw xs)
