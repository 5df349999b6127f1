-- ===== src/Metrics/Tests.antt =====
-- LoadMetrics.h at concrete states.
use fatp_balancer.Base.{◌≡◌, true, refl}
use fatp_balancer.Job.{high}
use fatp_balancer.Metrics.{overloaded, node_accepts_priority}

overloaded_takes_high : node_accepts_priority overloaded high ≡ true
unfolding node_accepts_priority
overloaded_takes_high = refl
