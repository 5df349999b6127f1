-- ===== src/Admission/Reserve.antt =====
-- AdmissionControl::tryReserveHoldingSlot: the compare-exchange loop, with whatever the other
-- threads do to the counter between its attempts.
use fatp_balancer.Base.{
  ℕ, ◌+◌, ◌≡◌, ◌≢◌, ◌⊎◌, refl, sym, ◌∙◌, inl, inr, Bool, true, false, ◌&&◌, not, leb, Bool-cases,
  ◌==◌, if◌then◌else◌, List, [], ◌∷◌, Option, none, some, arith, ok,
}
use fatp_balancer.Job.{u32, holding_queue_full}
use fatp_balancer.Floats.{Floats}
use fatp_balancer.Admission.Defs.{AdmissionControl, Verdict, reject, try_reserve_holding_slot}

-- What one round of the loop meets: the counter at that instant, and whether the exchange fails
-- though the counter is the expected one.
pub record Attempt : Type 0 where
  pub depth : ℕ
  pub spurious : Bool

-- compare_exchange_weak: the counter after it, and whether it has stored `desired`.
unfoldable pub compare_exchange : Attempt → ℕ → ℕ → ℕ × Bool
compare_exchange t expected desired =
    if not t.spurious && t.depth == expected then (desired, true) else (t.depth, false)

-- The counter was read with this value: by the first load, or at some attempt.
abbrev pub Seen : ℕ → ℕ → List Attempt → Type 0
Seen d current [] = current ≡ d
Seen d current (t ∷ ts) = (current ≡ d) ⊎ Seen d t.depth ts

is_none : {A : Type 0} {x : A} → some x ≡ none → ⊥
is_none h = cc

module _ {F : Type 0} ⦃fl : Floats F⦄ where
  -- After the exchange.
  exchanged :
      AdmissionControl F
      → ℕ × Bool
      → Option (AdmissionControl F × Verdict)
      → Option (AdmissionControl F × Verdict)
  exchanged a (stored, true) rest = some (record a { holding_queue_depth = stored }, ok tt)
  exchanged a (stored, false) rest = rest

  -- `current` is the expected value; a failed exchange reloads it. The result is none if the loop
  -- has not ended within the attempts given.
  unfoldable pub reserve_loop :
      AdmissionControl F → ℕ → List Attempt → Option (AdmissionControl F × Verdict)
  unfolding reject compare_exchange exchanged
  reserve_loop a current [] = none
  reserve_loop a current (t ∷ ts) =
      let met = record a { holding_queue_depth = t.depth } in
      let rest = reserve_loop a t.depth ts in
      if leb a.holding_queue_capacity current
      then some (reject met holding_queue_full)
      else exchanged met (compare_exchange t current (u32 (current + 1))) rest

  -- What the one-step operation makes where the counter is `d`.
  abbrev pub one_step : AdmissionControl F → ℕ → AdmissionControl F × Verdict
  unfolding try_reserve_holding_slot
  one_step a d = try_reserve_holding_slot (record a { holding_queue_depth = d })

  refuses :
      (a : AdmissionControl F) (current : ℕ) (t : Attempt) (ts : List Attempt)
      → leb a.holding_queue_capacity current ≡ true
      → reserve_loop a current (t ∷ ts)
        ≡ some (
          record (one_step a current).0 { holding_queue_depth = t.depth },
          (one_step a current).1,
        )
  unfolding reserve_loop try_reserve_holding_slot reject
  refuses a current t ts full = rw full refl

  stores :
      (a : AdmissionControl F) (current : ℕ) (t : Attempt) (ts : List Attempt)
      → leb a.holding_queue_capacity current ≡ false
      → (not t.spurious && t.depth == current) ≡ true
      → reserve_loop a current (t ∷ ts) ≡ some (one_step a current)
  unfolding reserve_loop try_reserve_holding_slot compare_exchange exchanged
  stores a current t ts room same = rw (room, same) refl

  reloads :
      (a : AdmissionControl F) (current : ℕ) (t : Attempt) (ts : List Attempt)
      → leb a.holding_queue_capacity current ≡ false
      → (not t.spurious && t.depth == current) ≡ false
      → reserve_loop a current (t ∷ ts) ≡ reserve_loop a t.depth ts
  unfolding reserve_loop compare_exchange exchanged
  reloads a current t ts room other = rw (room, other) refl

  -- The loop ends as soon as the counter stands still over two attempts of which the second does
  -- not fail spuriously.
  pub reserve_loop_ends :
      (a : AdmissionControl F) (current d : ℕ) (s : Bool) (ts : List Attempt)
      → reserve_loop a current
          (record { depth = d; spurious = s } ∷ record { depth = d; spurious = false } ∷ ts)
        ≢ none
  unfolding reserve_loop compare_exchange exchanged
  reserve_loop_ends a current d s ts h =
      let t : Attempt = record { depth = d; spurious = s } in
      let t' : Attempt = record { depth = d; spurious = false } in
      elim (Bool-cases (leb a.holding_queue_capacity current)) [
        | inl full ↦ is_none (sym (refuses a current t (t' ∷ ts) full) ∙ h)
        | inr room ↦ elim (Bool-cases (not s && d == current)) [
          | inl stored ↦ is_none (sym (stores a current t (t' ∷ ts) room stored) ∙ h)
          | inr lost ↦
              let k = sym (reloads a current t (t' ∷ ts) room lost) ∙ h in
              elim (Bool-cases (leb a.holding_queue_capacity d)) [
                | inl full ↦ is_none (sym (refuses a d t' ts full) ∙ k)
                | inr room ↦ is_none (sym (stores a d t' ts room (ground arith)) ∙ k)
              ]
        ]
      ]
