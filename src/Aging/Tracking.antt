-- ===== src/Aging/Tracking.antt =====
-- AgingEngine.h: the tracked jobs under track, untrack and tick.
use fatp_balancer.Base.{
  ℕ, ◌+◌, ◌-◌, ◌≤◌, leb, leb→le, ◌≡◌, ◌⊎◌, refl, true, false, ◌==◌, if◌then◌else◌, List, [], ◌∷◌,
  Option, none, some, is_some, inl, inr, arith, Option-cases, Bool-cases,
}
use fatp_balancer.Job.{Priority, index, Job, is_expired}
use fatp_balancer.Aging.Defs.{
  AgingConfig, AgingEngine, TrackedJob, AgedEvent, ExpiredEvent, aged_or_stays, promoted_priority,
  Fate, expires, ages, stays, find, erase, track, untrack, fate, sweep, tick, aging_threshold,
}

-- No job is tracked twice.
abbrev pub IsDistinct : List TrackedJob → Type 0
IsDistinct [] = Unit {0}
IsDistinct (t ∷ ts) = (find t.id ts ≡ none) × IsDistinct ts

-- What becomes of an entry under its fate.
abbrev pub kept : TrackedJob → Fate → Option TrackedJob
kept t (expires e) = none
kept t (ages t' e) = some t'
kept t stays = some t

abbrev pub after_tick : AgingConfig → ℕ → Option TrackedJob → Option TrackedJob
after_tick c now none = none
after_tick c now (some t) = kept t (fate c now t)

-- What aging an entry does: it climbs one band after waiting for the threshold of its band, under
-- the same id and deadline, and its clock starts again.
pub record Climbs (c : AgingConfig) (now : ℕ) (t t' : TrackedJob) (e : AgedEvent) : Type 0 where
  pub same_id : t'.id ≡ t.id
  pub same_deadline : t'.deadline ≡ t.deadline
  pub restarted : t'.last_bump_at ≡ now
  pub event_id : e.id ≡ t.id
  pub from : e.old_priority ≡ t.current_priority
  pub to : e.new_priority ≡ t'.current_priority
  pub one_up : index t'.current_priority + 1 ≡ index t.current_priority
  pub threshold : ℕ
  pub configured : aging_threshold c t.current_priority ≡ some threshold
  pub waited : threshold ≤ now - t.last_bump_at

abbrev pub Ages : AgingConfig → ℕ → TrackedJob → Fate → Type 0
Ages c now t f = (t' : TrackedJob) × (e : AgedEvent) × (f ≡ ages t' e) × Climbs c now t t' e

one_up-promoted :
    (c : AgingConfig) (p : Priority) {n : ℕ}
    → aging_threshold c p ≡ some n
    → index (promoted_priority p) + 1 ≡ index p
unfolding aging_threshold promoted_priority
one_up-promoted c p h = ground arith

aged_or_stays_cases :
    (c : AgingConfig) (now : ℕ) (t : TrackedJob) (o : Option ℕ)
    → aging_threshold c t.current_priority ≡ o
    → (aged_or_stays t now o ≡ stays) ⊎ Ages c now t (aged_or_stays t now o)
unfolding aged_or_stays
aged_or_stays_cases c now t none h = inl refl
aged_or_stays_cases c now t (some n) h = elim (Bool-cases (leb n (now - t.last_bump_at))) [
  | inr young ↦ rw young (inl refl)
  | inl old ↦ rw old (
      inr (
        _,
        _,
        refl,
        record {
          same_id = refl;
          same_deadline = refl;
          restarted = refl;
          event_id = refl;
          from = refl;
          to = refl;
          one_up = one_up-promoted c t.current_priority h;
          threshold = n;
          configured = h;
          waited = leb→le _ _ old;
        },
      ))
]

abbrev pub Expires : ℕ → TrackedJob → Fate → Type 0
Expires now t f =
    (e : ExpiredEvent) × (f ≡ expires e)
    × (is_expired t.deadline now ≡ true)
    × (e.id ≡ t.id)
    × (e.priority ≡ t.current_priority)

-- An entry expires if its deadline has come; else it climbs or stays.
pub fate_cases :
    (c : AgingConfig) (now : ℕ) (t : TrackedJob)
    → Expires now t (fate c now t)
      ⊎ ((is_expired t.deadline now ≡ false) × (fate c now t ≡ stays))
      ⊎ ((is_expired t.deadline now ≡ false) × Ages c now t (fate c now t))
unfolding fate
fate_cases c now t = elim (Bool-cases (is_expired t.deadline now)) [
  | inl e ↦ rw e (inl (_, refl, refl, refl, refl))
  | inr e ↦ rw e (elim (aged_or_stays_cases c now t (aging_threshold c t.current_priority) refl) [
    | inl h ↦ inr (inl (refl, h))
    | inr h ↦ inr (inr (refl, h))
  ])
]

pub find-erase :
    (id k : ℕ) (ts : List TrackedJob)
    → IsDistinct ts
    → find k (erase id ts) ≡ (if id == k then none else find k ts)
unfolding find erase
find-erase id k [] d = ground arith
find-erase id k (t ∷ ts) d = ground (arith, find-erase id k ts d.1)

erase-IsDistinct : (id : ℕ) (ts : List TrackedJob) → IsDistinct ts → IsDistinct (erase id ts)
unfolding erase
erase-IsDistinct id [] d = tt
erase-IsDistinct id (t ∷ ts) d = elim (Bool-cases (t.id == id)) [
  | inl e ↦ rw e d.1
  | inr e ↦ rw e (ground (arith, find-erase id t.id ts d.1), erase-IsDistinct id ts d.1)
]

pub find-sweep :
    (c : AgingConfig) (now id : ℕ) (ts : List TrackedJob)
    → IsDistinct ts
    → find id (sweep c now ts).0 ≡ after_tick c now (find id ts)
unfolding find sweep
find-sweep c now id [] d = refl
find-sweep c now id (t ∷ ts) d = ground (arith, fate_cases c now t, find-sweep c now id ts d.1, d.0)

sweep-IsDistinct :
    (c : AgingConfig) (now : ℕ) (ts : List TrackedJob)
    → IsDistinct ts
    → IsDistinct (sweep c now ts).0
unfolding sweep
sweep-IsDistinct c now [] d = tt
sweep-IsDistinct c now (t ∷ ts) d =
    ground (arith, fate_cases c now t, find-sweep c now t.id ts d.1, sweep-IsDistinct c now ts d.1)

-- The engine with no job tracked twice.
abbrev pub IsSingle : AgingEngine → Type 0
IsSingle a = IsDistinct a.tracked

pub track-IsSingle : (a : AgingEngine) (j : Job) (now : ℕ) → IsSingle a → IsSingle (track a j now)
unfolding track
track-IsSingle a j now d = elim (Option-cases (find j.id a.tracked)) [
  | inl e ↦ rw e (e, d)
  | inr (t, e) ↦ rw e d
]

pub untrack-IsSingle : (a : AgingEngine) (id : ℕ) → IsSingle a → IsSingle (untrack a id)
unfolding untrack
untrack-IsSingle a id d = erase-IsDistinct id a.tracked d

pub tick-IsSingle : (a : AgingEngine) (now : ℕ) → IsSingle a → IsSingle (tick a now).0
unfolding tick
tick-IsSingle a now d = sweep-IsDistinct a.config now a.tracked d

-- A job that is tracked keeps its entry when it is tracked again, another gets a fresh entry, and
-- the entries of other jobs stay.
pub find-track :
    (a : AgingEngine) (j : Job) (now k : ℕ)
    → find k (track a j now).tracked ≡ (
        if j.id == k
        then (if is_some (find j.id a.tracked)
            then find j.id a.tracked
            else some (record {
              id = j.id;
              current_priority = j.priority;
              deadline = j.deadline;
              last_bump_at = now;
            }))
        else find k a.tracked)
unfolding track find
find-track a j now k = ground arith

-- Where no job is tracked twice, after untrack the job is not tracked, and every other job is as
-- it was.
pub find-untrack :
    (a : AgingEngine) (id k : ℕ)
    → IsSingle a
    → find k (untrack a id).tracked ≡ (if id == k then none else find k a.tracked)
unfolding untrack
find-untrack a id k d = find-erase id k a.tracked d
