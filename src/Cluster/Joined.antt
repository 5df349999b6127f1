-- ===== src/Cluster/Joined.antt =====
-- SimulatedCluster.h: the end of the thread that stopSnapshotWriter waits for.
use fatp_balancer.Base.{
  ℕ, suc, ◌-◌, ◌≤◌, ◌≡◌, refl, sym, ap, subst, ◌∙◌, Bool, true, false, if◌then◌else◌, List, [], ◌∷◌,
  Option, none, some, All, arith,
}
use fatp_balancer.Cluster.Format.{Writes, format_json}
use fatp_balancer.Cluster.Writer.{
  Place, unstarted, testing, sleeping, renaming, ended, captured, writing, SnapshotWriter, Turn,
  Event, turns, reaches, clears, joins, launches, rename, reach, join, turn, step, steps,
}

-- The turns to the end of the thread, once the flag is cleared.
abbrev left : {C : Type 0} → Place C → ℕ
left unstarted = 0
left ended = 0
left testing = 1
left sleeping = 2
left renaming = 3
left (writing rest) = 4
left (captured json) = 5

module _ {F : Type 0} where
  -- What happens while the owner waits in join.
  abbrev pub IsThread : Event F → Type 0
  IsThread (turns t) = Unit
  IsThread reaches = Unit
  IsThread _ = ⊥

  abbrev pub count_turns : List (Event F) → ℕ
  count_turns [] = 0
  count_turns (turns t ∷ es) = suc (count_turns es)
  count_turns (_ ∷ es) = count_turns es

module _ {C J F : Type 0} (w : Writes C J F) where
  running-rename : (s : SnapshotWriter C) (o : Option (List C)) → (rename s o).running ≡ s.running
  unfolding rename
  running-rename s none = refl
  running-rename s (some t) = refl

  -- A turn on the way to the end.
  record IsNearer (p : Place C) (s : SnapshotWriter C) : Type 0 where
    near : left s.place ≤ left p - 1
    cleared : s.running ≡ false

  turn-IsNearer :
      (s : SnapshotWriter C) (t : Turn F) (p : Place C)
      → s.running ≡ false
      → s.place ≡ p
      → IsNearer p (turn w s t p)
  unfolding turn
  turn-IsNearer s t unstarted h e = record { near = omega (arith, ap left e); cleared = h }
  turn-IsNearer s t testing h e = record {
    near =
        subst (λ b. left (if b then captured (format_json w t.snapshot false) else ended) ≤ 0)
          (sym h) (omega arith);
    cleared = h;
  }
  turn-IsNearer s t (captured json) h e = go t.opens
    where
      go :
          (b : Bool)
          → IsNearer (captured json) (
              if b
              then record s { place = writing json; tmp = some [] }
              else record s { place = renaming })
      go true = record { near = omega arith; cleared = h }
      go false = record { near = omega arith; cleared = h }
  turn-IsNearer s t (writing rest) h e = record { near = omega arith; cleared = h }
  turn-IsNearer s t renaming h e = record { near = omega arith; cleared = go t.renames }
    where
      go : (b : Bool) → (if b then rename s s.tmp else s).running ≡ false
      go true = running-rename s s.tmp ∙ h
      go false = h
  turn-IsNearer s t sleeping h e = record { near = omega arith; cleared = h }
  turn-IsNearer s t ended h e = record { near = omega (arith, ap left e); cleared = h }

  left-reach :
      (s : SnapshotWriter C) (p : Place C)
      → s.place ≡ p
      → (left (reach s p).place ≡ left p) × ((reach s p).running ≡ s.running)
  unfolding reach
  left-reach s (writing (c ∷ rest)) e = (refl, refl)
  left-reach s (writing []) e = (ap left e, refl)
  left-reach s (captured json) e = (ap left e, refl)
  left-reach s unstarted e = (ap left e, refl)
  left-reach s testing e = (ap left e, refl)
  left-reach s sleeping e = (ap left e, refl)
  left-reach s renaming e = (ap left e, refl)
  left-reach s ended e = (ap left e, refl)

  steps-left :
      (s : SnapshotWriter C) (es : List (Event F))
      → All IsThread es
      → s.running ≡ false
      → (left (steps w s es).place ≤ left s.place - count_turns es)
        × ((steps w s es).running ≡ false)
  unfolding steps step
  steps-left s [] a h = (omega arith, h)
  steps-left s (turns t ∷ es) a h =
      let n = turn-IsNearer s t s.place h refl in
      let r = steps-left (turn w s t s.place) es a.1 n.cleared in (omega (arith, r.0, n.near), r.1)
  steps-left s (reaches ∷ es) a h =
      let n = left-reach s s.place refl in
      let r = steps-left (reach s s.place) es a.1 (n.1 ∙ h) in (omega (arith, r.0, n.0), r.1)
  steps-left s (clears ∷ es) a h = elim a.0 [ ]
  steps-left s (joins ∷ es) a h = elim a.0 [ ]
  steps-left s (launches ∷ es) a h = elim a.0 [ ]

  join-unstarted :
      (s : SnapshotWriter C) (p : Place C) → s.place ≡ p → left p ≡ 0 → (join s p).place ≡ unstarted
  unfolding join
  join-unstarted s unstarted e h = e
  join-unstarted s ended e h = refl
  join-unstarted s testing e h = ground (arith, h)
  join-unstarted s sleeping e h = ground (arith, h)
  join-unstarted s renaming e h = ground (arith, h)
  join-unstarted s (writing rest) e h = ground (arith, h)
  join-unstarted s (captured json) e h = ground (arith, h)

  left_bound : (p : Place C) → left p ≤ 5
  left_bound unstarted = omega arith
  left_bound ended = omega arith
  left_bound testing = omega arith
  left_bound sleeping = omega arith
  left_bound renaming = omega arith
  left_bound (writing rest) = omega arith
  left_bound (captured json) = omega arith

  -- The calls of stopSnapshotWriter, with five turns of the thread or more while it waits in join,
  -- among characters that reach the file, leave no thread behind, wherever the thread stood and
  -- whatever the file system makes of its calls.
  pub clears-joins :
      (s : SnapshotWriter C) (es : List (Event F))
      → All IsThread es
      → 5 ≤ count_turns es
      → ((step w (steps w (step w s clears) es) joins).place ≡ unstarted)
        × ((steps w (step w s clears) es).running ≡ false)
  unfolding step
  clears-joins s es a n =
      let l = steps-left (record s { running = false }) es a refl in
      let after = steps w (record s { running = false }) es in
      (join-unstarted after after.place refl (omega (arith, l.0, n, left_bound s.place)), l.1)
