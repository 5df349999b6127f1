-- ===== src/Cluster/Published.antt =====
-- SimulatedCluster.h: what a reader of the snapshot file finds, and the end of the thread.
use fatp_balancer.Base.{
  ◌≡◌, refl, sym, subst, ◌⊎◌, inl, inr, Bool, true, false, if◌then◌else◌, List, [], ◌∷◌, ◌++◌,
  Option, none, some, All,
}
use mathlib.Core.List.{append_assoc}
use fatp_balancer.Cluster.Format.{Writes, format_json}
use fatp_balancer.Cluster.Writer.{
  Place, unstarted, testing, sleeping, renaming, ended, captured, writing, SnapshotWriter, Turn,
  Event, turns, reaches, clears, joins, launches, appended, rename, reach, join, launch, turn, step,
  steps,
}

module _ {C : Type 0} where
  -- The text of a file, if there is one.
  abbrev Holds : (List C → Type 0) → Option (List C) → Type 0
  Holds P none = Unit
  Holds P (some t) = P t

  -- The file that is written, by where the thread stands.
  abbrev Pending : (List C → Type 0) → Place C → Option (List C) → Type 0
  Pending P (captured json) tmp = P json × Holds P tmp
  Pending P (writing rest) tmp = Holds (λ t. P (t ++ rest)) tmp
  Pending P unstarted tmp = Holds P tmp
  Pending P testing tmp = Holds P tmp
  Pending P sleeping tmp = Holds P tmp
  Pending P renaming tmp = Holds P tmp
  Pending P ended tmp = Holds P tmp

  record IsWhole (P : List C → Type 0) (s : SnapshotWriter C) : Type 0 where
    pending : Pending P s.place s.tmp
    published : Holds P s.path

module _ {C J F : Type 0} (w : Writes C J F) where
  abbrev Allows : (List C → Type 0) → Event F → Type 0
  Allows P (turns t) = (t.arrives ≡ true) × P (format_json w t.snapshot false)
  Allows P _ = Unit

  turn-IsWhole :
      (P : List C → Type 0) (s : SnapshotWriter C) (t : Turn F) (p : Place C)
      → t.arrives ≡ true
      → P (format_json w t.snapshot false)
      → Pending P p s.tmp
      → Holds P s.path
      → IsWhole P (turn w (record s { place = p }) t p)
  unfolding turn rename
  turn-IsWhole P s t unstarted a f h k = record { pending = h; published = k }
  turn-IsWhole P s t testing a f h k = record { pending = go s.running; published = k }
    where
      go :
          (b : Bool)
          → Pending P (if b then captured (format_json w t.snapshot false) else ended) s.tmp
      go true = (f, h)
      go false = h
  turn-IsWhole P s t (captured json) a f h k = go t.opens
    where
      go :
          (b : Bool)
          → IsWhole P (
              if b
              then record s { place = writing json; tmp = some [] }
              else record s { place = renaming })
      go true = record { pending = h.0; published = k }
      go false = record { pending = h.1; published = k }
  turn-IsWhole P s t (writing rest) a f h k = record {
    pending = subst (λ b. Holds P (if b then appended s.tmp rest else s.tmp)) (sym a) (go s.tmp h);
    published = k;
  }
    where
      go : (o : Option (List C)) → Holds (λ t. P (t ++ rest)) o → Holds P (appended o rest)
      go none h = tt
      go (some t) h = h
  turn-IsWhole P s t renaming a f h k = go t.renames s.tmp h
    where
      r : SnapshotWriter C
      r = record s { place = renaming }

      go :
          (b : Bool) (o : Option (List C))
          → Holds P o
          → IsWhole P
              (record (if b then rename (record r { tmp = o }) o else record r { tmp = o }) {
                place = sleeping;
              })
      go true none h = record { pending = tt; published = k }
      go true (some t) h = record { pending = tt; published = h }
      go false o h = record { pending = h; published = k }
  turn-IsWhole P s t sleeping a f h k = record { pending = h; published = k }
  turn-IsWhole P s t ended a f h k = record { pending = h; published = k }

  reach-IsWhole :
      (P : List C → Type 0) (s : SnapshotWriter C) (p : Place C)
      → Pending P p s.tmp
      → Holds P s.path
      → IsWhole P (reach (record s { place = p }) p)
  unfolding reach
  reach-IsWhole P s (writing (c ∷ rest)) h k = record { pending = go s.tmp h; published = k }
    where
      go :
          (o : Option (List C))
          → Holds (λ t. P (t ++ c ∷ rest)) o
          → Holds (λ t. P (t ++ rest)) (appended o (c ∷ []))
      go none h = tt
      go (some t) h = subst P (sym (append_assoc t (c ∷ []) rest)) h
  reach-IsWhole P s (writing []) h k = record { pending = h; published = k }
  reach-IsWhole P s (captured json) h k = record { pending = h; published = k }
  reach-IsWhole P s unstarted h k = record { pending = h; published = k }
  reach-IsWhole P s testing h k = record { pending = h; published = k }
  reach-IsWhole P s sleeping h k = record { pending = h; published = k }
  reach-IsWhole P s renaming h k = record { pending = h; published = k }
  reach-IsWhole P s ended h k = record { pending = h; published = k }

  join-IsWhole :
      (P : List C → Type 0) (s : SnapshotWriter C) (p : Place C)
      → Pending P p s.tmp
      → Holds P s.path
      → IsWhole P (join (record s { place = p }) p)
  unfolding join
  join-IsWhole P s ended h k = record { pending = h; published = k }
  join-IsWhole P s (writing rest) h k = record { pending = h; published = k }
  join-IsWhole P s (captured json) h k = record { pending = h; published = k }
  join-IsWhole P s unstarted h k = record { pending = h; published = k }
  join-IsWhole P s testing h k = record { pending = h; published = k }
  join-IsWhole P s sleeping h k = record { pending = h; published = k }
  join-IsWhole P s renaming h k = record { pending = h; published = k }

  launch-IsWhole :
      (P : List C → Type 0) (s : SnapshotWriter C) (p : Place C)
      → Pending P p s.tmp
      → Holds P s.path
      → IsWhole P (launch (record s { place = p }) p)
  unfolding launch
  launch-IsWhole P s unstarted h k = record { pending = h; published = k }
  launch-IsWhole P s (writing rest) h k = record { pending = h; published = k }
  launch-IsWhole P s (captured json) h k = record { pending = h; published = k }
  launch-IsWhole P s testing h k = record { pending = h; published = k }
  launch-IsWhole P s sleeping h k = record { pending = h; published = k }
  launch-IsWhole P s renaming h k = record { pending = h; published = k }
  launch-IsWhole P s ended h k = record { pending = h; published = k }

  step-IsWhole :
      (P : List C → Type 0) (s : SnapshotWriter C) (e : Event F)
      → IsWhole P s
      → Allows P e
      → IsWhole P (step w s e)
  unfolding step
  step-IsWhole P s (turns t) h a = turn-IsWhole P s t s.place a.0 a.1 h.pending h.published
  step-IsWhole P s reaches h a = reach-IsWhole P s s.place h.pending h.published
  step-IsWhole P s clears h a = record { pending = h.pending; published = h.published }
  step-IsWhole P s joins h a = join-IsWhole P s s.place h.pending h.published
  step-IsWhole P s launches h a = launch-IsWhole P s s.place h.pending h.published

  steps-IsWhole :
      (P : List C → Type 0) (s : SnapshotWriter C) (es : List (Event F))
      → IsWhole P s
      → All (Allows P) es
      → IsWhole P (steps w s es)
  unfolding steps
  steps-IsWhole P s [] h a = h
  steps-IsWhole P s (e ∷ es) h a = steps-IsWhole P (step w s e) es (step-IsWhole P s e h a.0) a.1

  -- The text arrives whole when the file is closed.
  abbrev pub Arrives : Event F → Type 0
  Arrives (turns t) = t.arrives ≡ true
  Arrives _ = Unit

  -- A document of a snapshot that the thread may have captured in the run.
  abbrev pub IsDocument : List (Event F) → List C → Type 0
  IsDocument [] text = ⊥
  IsDocument (turns t ∷ es) text = (format_json w t.snapshot false ≡ text) ⊎ IsDocument es text
  IsDocument (_ ∷ es) text = IsDocument es text

  allowed :
      (P : List C → Type 0) (es : List (Event F))
      → All Arrives es
      → ((text : List C) → IsDocument es text → P text)
      → All (Allows P) es
  allowed P [] a h = tt
  allowed P (turns t ∷ es) a h = (
    (a.0, h (format_json w t.snapshot false) (inl refl)),
    allowed P es a.1 (λ text d. h text (inr d)),
  )
  allowed P (reaches ∷ es) a h = (tt, allowed P es a.1 h)
  allowed P (clears ∷ es) a h = (tt, allowed P es a.1 h)
  allowed P (joins ∷ es) a h = (tt, allowed P es a.1 h)
  allowed P (launches ∷ es) a h = (tt, allowed P es a.1 h)

  -- Where no thread has been started, no temporary file is left and every text arrives when its file
  -- is closed: in a run in any order of the thread's turns, of the characters that reach the file and
  -- of the owner's calls, the file that readers open is at any time the one that was there at first
  -- or the whole document of a snapshot, never a part of one.
  pub steps-IsDocument :
      (s : SnapshotWriter C) (es : List (Event F)) (text : List C)
      → s.place ≡ unstarted
      → s.tmp ≡ none
      → All Arrives es
      → (steps w s es).path ≡ some text
      → (s.path ≡ some text) ⊎ IsDocument es text
  steps-IsDocument s es text u n a h = subst (Holds P) h whole.published
    where
      P : List C → Type 0
      P t = (s.path ≡ some t) ⊎ IsDocument es t

      path : (o : Option (List C)) → ((t : List C) → o ≡ some t → s.path ≡ some t) → Holds P o
      path none f = tt
      path (some t) f = inl (f t refl)

      whole : IsWhole P (steps w s es)
      whole =
          steps-IsWhole P s es
            (record {
              pending = subst (λ p. Pending P p s.tmp) (sym u) (subst (Holds P) (sym n) tt);
              published = path s.path (λ t e. e);
            })
            (allowed P es a (λ t d. inr d))
