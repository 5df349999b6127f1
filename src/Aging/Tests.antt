-- ===== src/Aging/Tests.antt =====
-- AgingEngine.h on concrete calls: a Bulk job that ages, with a deadline at 30.
use fatp_balancer.Base.{◌+◌, ◌<◌, ◌≡◌, ◌≤◌, ◌⊎◌, refl, arith, true, false, [], ◌∷◌, none, some}
use fatp_balancer.Job.{normal, low, bulk, Job, default_job, is_expired}
use fatp_balancer.Aging.Defs.{
  AgingConfig, AgingEngine, AgedEvent, TrackedJob, find, track, tick, sweep, fate, is_tracked,
  tracked_count, current_priority,
}
use fatp_balancer.Aging.Tracking.{IsSingle, Climbs, track-IsSingle}
use fatp_balancer.Aging.Tick.{present, rank, ticks, tick_cases, ticks_counts}

abbrev config : AgingConfig
config = record {
  bulk_to_low = 10;
  low_to_normal = 10;
  normal_to_high = 10;
  high_to_critical_enabled = false;
  high_to_critical = 10;
}

abbrev empty : AgingEngine
empty = record { config = config; tracked = [] }

abbrev job : Job
job = record (default_job bulk) { id = 7; deadline = some 30 }

abbrev entry : TrackedJob
entry = record { id = 7; current_priority = bulk; deadline = some 30; last_bump_at = 0 }

abbrev engine : AgingEngine
engine = track empty job 0

engine-IsSingle : IsSingle engine
engine-IsSingle = track-IsSingle empty job 0 tt

engine-entry : find 7 engine.tracked ≡ some entry
unfolding track find
engine-entry = refl

climbs_twice :
    (current_priority engine 7 ≡ bulk)
    × (current_priority (tick (tick engine 10).0 20).0 7 ≡ normal)
unfolding track find tick sweep fate current_priority
climbs_twice = (refl, refl)

expires_once : (tracked_count (tick engine 30).0 ≡ 0) × (is_tracked (tick engine 30).0 7 ≡ false)
unfolding track find tick sweep fate tracked_count is_tracked
expires_once = (refl, refl)

tick_cases_example :
    let after = find 7 (tick engine 10).0.tracked in
    ((is_expired entry.deadline 10 ≡ true) × (after ≡ none))
    ⊎ ((is_expired entry.deadline 10 ≡ false) × (after ≡ some entry))
    ⊎ ((is_expired entry.deadline 10 ≡ false)
        × ((t' : TrackedJob) × (e : AgedEvent) × (after ≡ some t')
            × Climbs engine.config 10 entry t' e))
tick_cases_example = tick_cases engine 10 7 entry engine-IsSingle engine-entry

ticks_counts_example :
    let s = ticks 7 engine (10 ∷ 20 ∷ 30 ∷ []) in
    (s.expired + present (find 7 s.engine.tracked) ≡ present (find 7 engine.tracked))
    × (s.promoted + rank (find 7 s.engine.tracked) ≤ rank (find 7 engine.tracked))
ticks_counts_example = ticks_counts 7 engine (10 ∷ 20 ∷ 30 ∷ []) engine-IsSingle

engine-off : engine.config.high_to_critical_enabled ≡ false
unfolding track find
engine-off = refl

engine-below : 0 < rank (find 7 engine.tracked)
unfolding track find
engine-below = omega arith

abbrev climbed : TrackedJob
climbed = record entry { current_priority = low; last_bump_at = 10 }

engine-climbed : find 7 (ticks 7 engine (10 ∷ [])).engine.tracked ≡ some climbed
unfolding track find tick sweep fate ticks
engine-climbed = refl
