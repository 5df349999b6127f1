-- ===== src/Cluster/Writer.antt =====
-- SimulatedCluster.h: startSnapshotWriter and stopSnapshotWriter, as a thread that takes turns with
-- its owner and leaves its text in two files.
use fatp_balancer.Base.{Bool, true, false, if◌then◌else◌, List, [], ◌∷◌, ◌++◌, Option, none, some}
use fatp_balancer.Cluster.Defs.{TelemetrySnapshot}
use fatp_balancer.Cluster.Format.{Writes, format_json}

-- Where the thread stands: at the test of the loop, before the file is opened, with what is not yet
-- in the file that is open, before std::rename, in sleep_for, and at its end. `unstarted` is a
-- thread that is not joinable.
pub data Place (C : Type 0) : Type 0 where
  unstarted testing sleeping renaming ended : Place C
  captured : List C → Place C
  writing : List C → Place C

-- mSnapshotWriterRunning, the thread, and the files `path + ".tmp"` and `path`.
pub record SnapshotWriter (C : Type 0) : Type 0 where
  pub running : Bool
  pub place : Place C
  pub tmp : Option (List C)
  pub path : Option (List C)

-- What the system makes of the next call of the thread: the snapshot that would be captured, whether
-- the file opens, all of the text arrives when it is closed, and the file can be renamed.
pub record Turn (F : Type 0) : Type 0 where
  pub snapshot : TelemetrySnapshot F
  pub opens : Bool
  pub arrives : Bool
  pub renames : Bool

-- A turn of the thread, a character that reaches the file before it is closed, and the calls of the
-- owner: the flag is cleared, the thread is joined, and a thread is started.
pub data Event (F : Type 0) : Type 0 where
  turns : Turn F → Event F
  reaches clears joins launches : Event F

abbrev pub appended : {C : Type 0} → Option (List C) → List C → Option (List C)
appended none t = none
appended (some t) t' = some (t ++ t')

-- std::rename of a file that is there replaces the other.
unfoldable pub rename : {C : Type 0} → SnapshotWriter C → Option (List C) → SnapshotWriter C
rename s none = s
rename s (some t) = record s { tmp = none; path = some t }

module _ {C : Type 0} where
  unfoldable pub reach : SnapshotWriter C → Place C → SnapshotWriter C
  reach s (writing (c ∷ rest)) = record s { place = writing rest; tmp = appended s.tmp (c ∷ []) }
  reach s _ = s

  -- The owner waits in join until the thread is at its end.
  unfoldable pub join : SnapshotWriter C → Place C → SnapshotWriter C
  join s ended = record s { place = unstarted }
  join s _ = s

  -- startSnapshotWriter stops the previous thread before.
  unfoldable pub launch : SnapshotWriter C → Place C → SnapshotWriter C
  launch s unstarted = record s { running = true; place = testing }
  launch s _ = s

module _ {C J F : Type 0} (w : Writes C J F) where
  unfoldable pub turn : SnapshotWriter C → Turn F → Place C → SnapshotWriter C
  unfolding rename
  turn s t unstarted = s
  turn s t testing = record s {
    place = if s.running then captured (format_json w t.snapshot false) else ended;
  }
  turn s t (captured json) =
      if t.opens
      then record s { place = writing json; tmp = some [] }
      else record s { place = renaming }
  turn s t (writing rest) = record s {
    place = renaming;
    tmp = if t.arrives then appended s.tmp rest else s.tmp;
  }
  turn s t renaming = record (if t.renames then rename s s.tmp else s) { place = sleeping }
  turn s t sleeping = record s { place = testing }
  turn s t ended = s

  unfoldable pub step : SnapshotWriter C → Event F → SnapshotWriter C
  unfolding turn reach join launch
  step s (turns t) = turn s t s.place
  step s reaches = reach s s.place
  step s clears = record s { running = false }
  step s joins = join s s.place
  step s launches = launch s s.place

  unfoldable pub steps : SnapshotWriter C → List (Event F) → SnapshotWriter C
  unfolding step
  steps s [] = s
  steps s (e ∷ es) = steps (step s e) es
