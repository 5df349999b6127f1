-- ===== src/Aging/Defs.antt =====
-- AgingEngine.h. `mTracked` is an association list without repeated keys: the events of a tick are
-- in its order, which the hash map leaves open. Thresholds are in clock ticks, and `tick` is given
-- times that do not fall (as its caller must), so `now - last_bump_at` is exact.
use fatp_balancer.Base.{
  ℕ, ◌-◌, Bool, leb, ◌==◌, if◌then◌else◌, List, [], ◌∷◌, Option, none, some, is_some, length,
}
use fatp_balancer.Job.{Priority, critical, high, normal, low, bulk, Job, is_expired}

pub record AgingConfig : Type 0 where
  pub bulk_to_low : ℕ
  pub low_to_normal : ℕ
  pub normal_to_high : ℕ
  pub high_to_critical_enabled : Bool
  pub high_to_critical : ℕ

pub record AgedEvent : Type 0 where
  pub id : ℕ
  pub old_priority : Priority
  pub new_priority : Priority

pub record ExpiredEvent : Type 0 where
  pub id : ℕ
  pub priority : Priority

pub record TickResult : Type 0 where
  pub aged : List AgedEvent
  pub expired : List ExpiredEvent

pub record TrackedJob : Type 0 where
  pub id : ℕ
  pub current_priority : Priority
  pub deadline : Option ℕ
  pub last_bump_at : ℕ

pub record AgingEngine : Type 0 where
  pub config : AgingConfig
  pub tracked : List TrackedJob

unfoldable pub find : ℕ → List TrackedJob → Option TrackedJob
find id [] = none
find id (t ∷ ts) = if t.id == id then some t else find id ts

unfoldable pub erase : ℕ → List TrackedJob → List TrackedJob
erase id [] = []
erase id (t ∷ ts) = let rest = erase id ts in if t.id == id then ts else t ∷ rest

unfoldable pub track : AgingEngine → Job → ℕ → AgingEngine
track a j now = if is_some (find j.id a.tracked) then a else record a {
  tracked =
      record { id = j.id; current_priority = j.priority; deadline = j.deadline; last_bump_at = now }
      ∷ a.tracked;
}

unfoldable pub untrack : AgingEngine → ℕ → AgingEngine
untrack a id = record a { tracked = erase id a.tracked }

unfoldable pub aging_threshold : AgingConfig → Priority → Option ℕ
aging_threshold c bulk = some c.bulk_to_low
aging_threshold c low = some c.low_to_normal
aging_threshold c normal = some c.normal_to_high
aging_threshold c high = if c.high_to_critical_enabled then some c.high_to_critical else none
aging_threshold c critical = none

-- static_cast<Priority>(static_cast<uint8_t>(p) - 1); it is never asked of Critical.
unfoldable pub promoted_priority : Priority → Priority
promoted_priority bulk = low
promoted_priority low = normal
promoted_priority normal = high
promoted_priority high = critical
promoted_priority critical = critical

-- What the body of the loop does to one entry.
pub data Fate : Type 0 where
  expires : ExpiredEvent → Fate
  ages : TrackedJob → AgedEvent → Fate
  stays : Fate

unfoldable pub aged_or_stays : TrackedJob → ℕ → Option ℕ → Fate
aged_or_stays t now none = stays
aged_or_stays t now (some threshold) =
    let p = promoted_priority t.current_priority in
    if leb threshold (now - t.last_bump_at)
    then ages (record t { current_priority = p; last_bump_at = now })
        (record { id = t.id; old_priority = t.current_priority; new_priority = p })
    else stays

unfoldable pub fate : AgingConfig → ℕ → TrackedJob → Fate
unfolding aged_or_stays aging_threshold promoted_priority
fate c now t =
    if is_expired t.deadline now
    then expires (record { id = t.id; priority = t.current_priority })
    else aged_or_stays t now (aging_threshold c t.current_priority)

-- The loop over mTracked: the entries that are kept, and the events.
unfoldable pub settle :
    TrackedJob → Fate → List TrackedJob → TickResult → List TrackedJob × TickResult
settle t (expires e) ts r = (ts, record r { expired = e ∷ r.expired })
settle t (ages t' e) ts r = (t' ∷ ts, record r { aged = e ∷ r.aged })
settle t stays ts r = (t ∷ ts, r)

unfoldable pub sweep : AgingConfig → ℕ → List TrackedJob → List TrackedJob × TickResult
unfolding settle
sweep c now [] = ([], record { aged = []; expired = [] })
sweep c now (t ∷ ts) = let (ts', r) = sweep c now ts in settle t (fate c now t) ts' r

unfoldable pub tick : AgingEngine → ℕ → AgingEngine × TickResult
unfolding sweep
tick a now = let (ts, r) = sweep a.config now a.tracked in (record a { tracked = ts }, r)

unfoldable pub is_tracked : AgingEngine → ℕ → Bool
is_tracked a id = is_some (find id a.tracked)

unfoldable pub tracked_count : AgingEngine → ℕ
tracked_count a = length a.tracked

priority_or_normal : Option TrackedJob → Priority
priority_or_normal none = normal
priority_or_normal (some t) = t.current_priority

unfoldable pub current_priority : AgingEngine → ℕ → Priority
unfolding priority_or_normal
current_priority a id = priority_or_normal (find id a.tracked)
