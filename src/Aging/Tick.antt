-- ===== src/Aging/Tick.antt =====
-- AgingEngine::tick: which events fire, and how often over any sequence of ticks.
use fatp_balancer.Base.{
  ℕ, ◌+◌, ◌≤◌, ◌<◌, ◌≡◌, ◌⊎◌, true, false, ◌==◌, if◌then◌else◌, List, [], ◌∷◌, Option, none, some,
  inl, inr, arith, Option-cases,
}
use fatp_balancer.Job.{Priority, index, is_expired}
use fatp_balancer.Aging.Defs.{
  AgingConfig, AgingEngine, AgedEvent, ExpiredEvent, TrackedJob, find, sweep, tick, aging_threshold,
}
use fatp_balancer.Aging.Tracking.{
  IsDistinct, IsSingle, Climbs, fate_cases, find-sweep, tick-IsSingle,
}

-- How many events of a list name the job.
unfoldable pub expiries : ℕ → List ExpiredEvent → ℕ
expiries id [] = 0
expiries id (e ∷ es) = (if e.id == id then 1 else 0) + expiries id es

unfoldable pub promotions : ℕ → List AgedEvent → ℕ
promotions id [] = 0
promotions id (e ∷ es) = (if e.id == id then 1 else 0) + promotions id es

abbrev pub present : Option TrackedJob → ℕ
present none = 0
present (some t) = 1

-- How many bands a tracked job is below Critical.
abbrev pub rank : Option TrackedJob → ℕ
rank none = 0
rank (some t) = index t.current_priority

-- Where no job is tracked twice, a tick removes a tracked job whose deadline has come; another job
-- keeps its entry or, after waiting for the threshold of its band, climbs one band.
pub tick_cases :
    (a : AgingEngine) (now id : ℕ) (t : TrackedJob)
    → IsSingle a
    → find id a.tracked ≡ some t
    → let after = find id (tick a now).0.tracked in
      ((is_expired t.deadline now ≡ true) × (after ≡ none))
      ⊎ ((is_expired t.deadline now ≡ false) × (after ≡ some t))
      ⊎ ((is_expired t.deadline now ≡ false)
          × ((t' : TrackedJob) × (e : AgedEvent) × (after ≡ some t') × Climbs a.config now t t' e))
unfolding tick
tick_cases a now id t d h = elim (fate_cases a.config now t) [
  | inl (e, f, x, _, _) ↦ inl (x, ground (arith, find-sweep a.config now id a.tracked d))
  | inr (inl (x, f)) ↦ inr (inl (x, ground (arith, find-sweep a.config now id a.tracked d)))
  | inr (inr (x, (t', e, f, k))) ↦
      inr (inr (x, (t', e, ground (arith, find-sweep a.config now id a.tracked d), k)))
]

sweep_counts :
    (c : AgingConfig) (now id : ℕ) (ts : List TrackedJob)
    → IsDistinct ts
    → let r = sweep c now ts in
      (expiries id r.1.expired + present (find id r.0) ≡ present (find id ts))
      × (promotions id r.1.aged + rank (find id r.0) ≤ rank (find id ts))
unfolding sweep find expiries promotions
sweep_counts c now id [] d = omega arith
sweep_counts c now id (t ∷ ts) d =
    ground
      (arith, fate_cases c now t, sweep_counts c now id ts d.1, find-sweep c now id ts d.1, d.0)

-- Ticks at the given times, with the number of promotions and expiries of a job.
pub record Tally : Type 0 where
  pub engine : AgingEngine
  pub promoted : ℕ
  pub expired : ℕ

unfoldable pub ticks : ℕ → AgingEngine → List ℕ → Tally
ticks id a [] = record { engine = a; promoted = 0; expired = 0 }
ticks id a (now ∷ times) =
    let (a', r) = tick a now in
    let rest = ticks id a' times in
    record {
      engine = rest.engine;
      promoted = promotions id r.aged + rest.promoted;
      expired = expiries id r.expired + rest.expired;
    }

-- Where no job is tracked twice, over any ticks a job expires once if it leaves the tracker and
-- never if it stays, and it is promoted at most as many times as it is bands below Critical.
pub ticks_counts :
    (id : ℕ) (a : AgingEngine) (times : List ℕ)
    → IsSingle a
    → let s = ticks id a times in
      (s.expired + present (find id s.engine.tracked) ≡ present (find id a.tracked))
      × (s.promoted + rank (find id s.engine.tracked) ≤ rank (find id a.tracked))
unfolding ticks tick
ticks_counts id a [] d = omega arith
ticks_counts id a (now ∷ times) d = omega (
  arith,
  sweep_counts a.config now id a.tracked d,
  ticks_counts id (tick a now).0 times (tick-IsSingle a now d),
)

threshold_ceiling :
    (c : AgingConfig) (p : Priority) {n : ℕ}
    → c.high_to_critical_enabled ≡ false
    → aging_threshold c p ≡ some n
    → 2 ≤ index p
unfolding aging_threshold
threshold_ceiling c p off h = ground arith

rank-tick :
    (a : AgingEngine) (now id : ℕ)
    → IsSingle a
    → a.config.high_to_critical_enabled ≡ false
    → 0 < rank (find id a.tracked)
    → (find id (tick a now).0.tracked ≡ none) ⊎ (0 < rank (find id (tick a now).0.tracked))
rank-tick a now id d off below = elim (Option-cases (find id a.tracked)) [
  | inl e ↦ absurd (ground arith)
  | inr (t, e) ↦ elim (tick_cases a now id t d e) [
    | inl (_, gone) ↦ inl gone
    | inr (inl (_, same)) ↦ inr (ground arith)
    | inr (inr (_, (t', _, after, k))) ↦
        inr
          (ground (arith, threshold_ceiling a.config t.current_priority off k.configured, k.one_up))
  ]
]

-- Where no job is tracked twice, and unless the configuration lets High jobs age, no tracked job
-- that is not Critical becomes Critical over any ticks.
pub ticks_ceiling :
    (id : ℕ) (a : AgingEngine) (times : List ℕ) (t : TrackedJob)
    → IsSingle a
    → a.config.high_to_critical_enabled ≡ false
    → 0 < rank (find id a.tracked)
    → find id (ticks id a times).engine.tracked ≡ some t
    → 0 < index t.current_priority
unfolding ticks
ticks_ceiling id a [] t d off below h = ground arith
ticks_ceiling id a (now ∷ times) t d off below h =
    let single = tick-IsSingle a now d in
    elim (rank-tick a now id d off below) [
      | inl gone ↦ absurd (ground (arith, ticks_counts id (tick a now).0 times single))
      | inr still ↦ ticks_ceiling id (tick a now).0 times t single (unfold tick in off) still h
    ]
