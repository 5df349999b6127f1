-- ===== src/Node/Handles.antt =====
-- SimulatedNode.h: what the slots promise, and the life of one handle.
use fatp_balancer.Base.{
  ℕ, zero, suc, ◌+◌, ◌≡◌, refl, inl, inr, Bool, true, false, ◌||◌, if◌then◌else◌, List, [], ◌∷◌,
  Option, none, some, is_some, arith, Option-cases,
}
use fatp_balancer.Node.State.{PendingJobState, queued, running, SlotHandle, same_handle, SlotMap}
use fatp_balancer.Node.Jobs.{Task}
use fatp_balancer.Node.Run.{Run, pick}

-- What a slot map promises: `past` holds of the handles that were given out and erased, which it
-- never gives out again.
pub record SlotMapLaws {V S : Type 0} (slots : SlotMap V S) : Type 0 where
  pub past : S → SlotHandle → Bool
  pub get-fresh : (s : S) (v : V) → slots.get s (slots.insert s v).1 ≡ none
  pub past-fresh : (s : S) (v : V) → past s (slots.insert s v).1 ≡ false
  pub get-insert :
      (s : S) (v : V) (h : SlotHandle)
      → slots.get (slots.insert s v).0 h
        ≡ (if same_handle h (slots.insert s v).1 then some v else slots.get s h)
  pub past-insert : (s : S) (v : V) (h : SlotHandle) → past (slots.insert s v).0 h ≡ past s h
  pub get-put :
      (s : S) (k : SlotHandle) (v : V) (h : SlotHandle)
      → is_some (slots.get s k) ≡ true
      → slots.get (slots.put s k v) h ≡ (if same_handle h k then some v else slots.get s h)
  pub past-put :
      (s : S) (k : SlotHandle) (v : V) (h : SlotHandle)
      → is_some (slots.get s k) ≡ true
      → past (slots.put s k v) h ≡ past s h
  pub get-erase :
      (s : S) (k h : SlotHandle)
      → slots.get (slots.erase s k) h ≡ (if same_handle h k then none else slots.get s h)
  pub past-erase :
      (s : S) (k h : SlotHandle)
      → is_some (slots.get s k) ≡ true
      → past (slots.erase s k) h ≡ (same_handle h k || past s h)

pub data Phase : Type 0 where
  unissued waits runs cancelled gone : Phase

-- The ways of a handle.
pub data Moves : Phase → Phase → Type 0 where
  stays : {p : Phase} → Moves p p
  issues : Moves unissued waits
  begins_run : Moves waits runs
  ends_run : Moves runs gone
  withdraws : Moves waits cancelled
  drops : Moves cancelled gone

pub data Reaches : Phase → Phase → Type 0 where
  at_once : {p : Phase} → Reaches p p
  after : {p q r : Phase} → Moves p q → Reaches q r → Reaches p r

-- How often a handle stands in a list of tasks.
unfoldable pub uses : SlotHandle → List Task → ℕ
uses h [] = 0
uses h (t ∷ ts) = (if same_handle h t.handle then 1 else 0) + uses h ts

abbrev pub slot_of : Phase → Option PendingJobState
slot_of waits = some queued
slot_of runs = some running
slot_of _ = none

abbrev pub past_of : Phase → Bool
past_of cancelled = true
past_of gone = true
past_of _ = false

abbrev pub waiting_of : Phase → ℕ
waiting_of waits = 1
waiting_of cancelled = 1
waiting_of _ = 0

abbrev pub running_of : Phase → ℕ
running_of runs = 1
running_of _ = 0

pub uses-pick :
    (h : SlotHandle) (ts : List Task) (i : ℕ) {t : Task} {us : List Task}
    → pick ts i ≡ some (t, us)
    → uses h ts ≡ (if same_handle h t.handle then 1 else 0) + uses h us
unfolding pick uses
uses-pick h [] i e = cc
uses-pick h (t ∷ ts) zero e = ground arith
uses-pick h (t ∷ ts) (suc i) e = elim (Option-cases (pick ts i)) [
  | inl k ↦ ground arith
  | inr ((u, us), k) ↦ ground (arith, uses-pick h ts i k)
]

pub same_handle-≡ : (h k : SlotHandle) → same_handle h k ≡ true → h ≡ k
same_handle-≡ h k e = ground arith

pub same_handle_refl : (h : SlotHandle) → same_handle h h ≡ true
same_handle_refl h = ground arith

pub unissued_of : (p : Phase) → slot_of p ≡ none → past_of p ≡ false → p ≡ unissued
unissued_of unissued e f = refl
unissued_of waits e f = cc
unissued_of runs e f = cc
unissued_of cancelled e f = cc
unissued_of gone e f = cc

pub waits_of : (p : Phase) → slot_of p ≡ some queued → p ≡ waits
waits_of unissued e = cc
waits_of waits e = refl
waits_of runs e = cc
waits_of cancelled e = cc
waits_of gone e = cc

pub runs_of : (p : Phase) (k : ℕ) → running_of p ≡ suc k → (p ≡ runs) × (k ≡ 0)
runs_of unissued k e = ground arith
runs_of waits k e = ground arith
runs_of runs k e = (refl, omega (arith, e))
runs_of cancelled k e = ground arith
runs_of gone k e = ground arith

pub cancelled_of :
    (p : Phase) (k : ℕ) → waiting_of p ≡ suc k → slot_of p ≡ none → (p ≡ cancelled) × (k ≡ 0)
cancelled_of unissued k e f = ground arith
cancelled_of waits k e f = cc
cancelled_of runs k e f = ground arith
cancelled_of cancelled k e f = (refl, omega (arith, e))
cancelled_of gone k e f = ground arith

pub waits_at :
    (p : Phase) (k : ℕ) {s : PendingJobState}
    → waiting_of p ≡ suc k
    → slot_of p ≡ some s
    → (p ≡ waits) × (k ≡ 0)
waits_at unissued k e f = ground arith
waits_at waits k e f = (refl, omega (arith, e))
waits_at runs k e f = ground arith
waits_at cancelled k e f = cc
waits_at gone k e f = ground arith

module _ {S O : Type 0} ⦃slots : SlotMap PendingJobState S⦄ ⦃laws : SlotMapLaws slots⦄ where
  pub record HasPhase (r : Run S O) (h : SlotHandle) (p : Phase) : Type 0 where
    pub slot : slots.get r.node.slots h ≡ slot_of p
    pub past : laws.past r.node.slots h ≡ past_of p
    pub waiting : uses h r.waiting ≡ waiting_of p
    pub running : uses h r.running ≡ running_of p

  -- A phase and the way to the next one.
  unfoldable pub Moved : Run S O → SlotHandle → Phase → Type 0
  Moved r h p = (q : Phase) × Moves p q × HasPhase r h q
