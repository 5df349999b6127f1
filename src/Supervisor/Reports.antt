-- ===== src/Supervisor/Reports.antt =====
-- FeatureSupervisor.h: the balancer after what the observer was told.
use Prim.Native.String.{String}
use text.Mathlib.Text.{◌==◌}
use text.Mathlib.TextEquality.{eq_iff}
use fatp_balancer.Base.{
  zero, ◌≡◌, refl, subst, sym, ap, ◌∙◌, inl, inr, Bool, true, false, not, ◌&&◌, if◌then◌else◌, List,
  [], ◌∷◌, ◌++◌, Option, none, some, arith, Bool-cases, Option-cases,
}
use fatp_balancer.Floats.{Floats}
use fatp_balancer.Policy.Kinds.{Policy}
use fatp_balancer.Policy.Factory.{make_policy, policy_composite, make_policy_total}
use fatp_balancer.Cost.Model.{CostModel}
use fatp_balancer.Balancer.Control as Control
use fatp_balancer.Balancer.State.{Balancer}
use fatp_balancer.Supervisor.Defs.{
  Command, FeatureChange, command, commands, observe, is_policy_feature, feature_aging,
  feature_degradation_curve, admission_bulk_shed, admission_strict,
}
use fatp_balancer.Supervisor.Wiring.{
  Report, make_policy_from_feature_name, execute, execute_all, notify, switch_to,
}

-- The changes that were committed, in their order.
unfoldable pub committed : List Report → List FeatureChange
committed [] = []
committed (r ∷ rs) = (if r.committed then r.changes else []) ++ committed rs

-- The state that a feature was last told to have, and `v` if it was not told.
unfoldable pub told : Bool → String → List FeatureChange → Bool
told v name [] = v
told v name (c ∷ cs) = told (if c.name == name then c.new_state else v) name cs

-- A policy that was enabled; Composite is not switched to.
unfoldable pub enables_policy : FeatureChange → Bool
enables_policy c = is_policy_feature c.name && c.new_state && not (c.name == policy_composite)

-- The policy that was last enabled, and `o` if none was.
unfoldable pub last_policy : Option String → List FeatureChange → Option String
last_policy o [] = o
last_policy o (c ∷ cs) = last_policy (if enables_policy c then some c.name else o) cs

-- What the factory makes of the name, and the old policy without one.
unfoldable pub policy_of : {F : Type 0} → List String → Policy F → Option String → Policy F
policy_of chain p none = p
policy_of chain p (some name) = elim (make_policy_from_feature_name chain name) [
  | none ↦ p
  | some q ↦ q
]

told-append :
    (v : Bool) (name : String) (xs ys : List FeatureChange)
    → told v name (xs ++ ys) ≡ told (told v name xs) name ys
unfolding told
told-append v name [] ys = refl
told-append v name (c ∷ xs) ys = told-append (if c.name == name then c.new_state else v) name xs ys

last_policy-append :
    (o : Option String) (xs ys : List FeatureChange)
    → last_policy o (xs ++ ys) ≡ last_policy (last_policy o xs) ys
unfolding last_policy
last_policy-append o [] ys = refl
last_policy-append o (c ∷ xs) ys =
    last_policy-append (if enables_policy c then some c.name else o) xs ys

module _ {F : Type 0} (chain : List String) where
  -- The factory knows every name.
  policy_of-some :
      (p q : Policy F) (name : String)
      → policy_of chain p (some name) ≡ policy_of chain q (some name)
  unfolding policy_of make_policy_from_feature_name
  policy_of-some p q name = elim (Option-cases (make_policy {F = F} 3 name true chain)) [
    | inl e ↦ absurd (ground (arith, e, (make_policy_total {F = F} zero name true chain).0))
    | inr (r, e) ↦ ground (arith, e)
  ]

  policy_of-last :
      (p : Policy F) (o : Option String) (cs : List FeatureChange)
      → policy_of chain p (last_policy o cs)
        ≡ policy_of chain (policy_of chain p o) (last_policy none cs)
  unfolding last_policy
  policy_of-last p o [] = unfold policy_of in refl
  policy_of-last p o (c ∷ cs) = elim (Bool-cases (enables_policy c)) [
    | inl e ↦ rw e (
        policy_of-last p (some c.name) cs
        ∙ ap (λ q. policy_of chain q (last_policy none cs))
            (policy_of-some p (policy_of chain p o) c.name)
        ∙ sym (policy_of-last (policy_of chain p o) (some c.name) cs))
    | inr e ↦ rw e (policy_of-last p o cs)
  ]

module _ {F M N R H : Type 0} ⦃fl : Floats F⦄ (chain : List String) where
  -- The modes and the policy of `b` after the changes.
  pub record Follows (b : Balancer F (CostModel F M) N R H) (cs : List FeatureChange)
      (b' : Balancer F (CostModel F M) N R H) : Type 0 where
    pub aging : b'.aging_enabled ≡ told b.aging_enabled feature_aging cs
    pub degradation :
        b'.cost_model.degradation_enabled
        ≡ told b.cost_model.degradation_enabled feature_degradation_curve cs
    pub shed_bulk : b'.admission.shed_bulk ≡ told b.admission.shed_bulk admission_bulk_shed cs
    pub strict :
        b'.admission.admission_strict ≡ told b.admission.admission_strict admission_strict cs
    pub policy : b'.policy ≡ policy_of chain b.policy (last_policy none cs)
    pub count : b'.submitted_count ≡ b.submitted_count

  abbrev Step : Balancer F (CostModel F M) N R H → String → Bool → Type 0
  Step b name v =
      let c : FeatureChange = record { name = name; new_state = v } in
      (b' : Balancer F (CostModel F M) N R H) × (execute_all chain b (command c) ≡ some b')
      × Follows b (c ∷ []) b'

  -- No flag goes by the name.
  module _ (b : Balancer F (CostModel F M) N R H) (name : String) (v : Bool)
      (calm : b.submitted_count ≡ 0) (a : (name == feature_aging) ≡ false)
      (d : (name == feature_degradation_curve) ≡ false) (s : (name == admission_bulk_shed) ≡ false)
      (t : (name == admission_strict) ≡ false) where
    switch-Step :
        (is_policy_feature name && v && not (name == policy_composite)) ≡ true → Step b name v
    unfolding execute_all execute command told last_policy enables_policy policy_of switch_to
        make_policy_from_feature_name
    switch-Step p = elim (Option-cases (make_policy_from_feature_name {F = F} chain name)) [
      | inl e ↦ absurd (ground (arith, e, (make_policy_total {F = F} zero name true chain).0))
      | inr (q, e) ↦ (
        record b { policy = q; draining = false },
        rw (a, d, s, t, p) (ground (arith, e, calm)),
        record {
          aging = ground arith;
          degradation = ground arith;
          shed_bulk = ground arith;
          strict = ground arith;
          policy = ground arith;
          count = refl;
        },
      )
    ]

    idle-Step :
        (is_policy_feature name && v && not (name == policy_composite)) ≡ false → Step b name v
    unfolding execute_all execute command told last_policy enables_policy policy_of
    idle-Step p = (
      b,
      ground arith,
      record {
        aging = ground arith;
        degradation = ground arith;
        shed_bulk = ground arith;
        strict = ground arith;
        policy = ground arith;
        count = refl;
      },
    )

  aging-Step : (b : Balancer F (CostModel F M) N R H) (v : Bool) → Step b feature_aging v
  unfolding execute_all execute command told last_policy enables_policy policy_of
      Control.set_aging_enabled
  aging-Step b v = (
    Control.set_aging_enabled b v,
    refl,
    record {
      aging = ground arith;
      degradation = ground arith;
      shed_bulk = ground arith;
      strict = ground arith;
      policy = ground arith;
      count = ground arith;
    },
  )

  degradation-Step :
      (b : Balancer F (CostModel F M) N R H) (v : Bool) → Step b feature_degradation_curve v
  unfolding execute_all execute command told last_policy enables_policy policy_of
  degradation-Step b v = (
    record b { cost_model = record b.cost_model { degradation_enabled = v } },
    refl,
    record {
      aging = refl;
      degradation = refl;
      shed_bulk = refl;
      strict = refl;
      policy = refl;
      count = refl;
    },
  )

  shed_bulk-Step : (b : Balancer F (CostModel F M) N R H) (v : Bool) → Step b admission_bulk_shed v
  unfolding execute_all execute command told last_policy enables_policy policy_of
  shed_bulk-Step b v = (
    record b { admission = record b.admission { shed_bulk = v } },
    refl,
    record {
      aging = refl;
      degradation = refl;
      shed_bulk = refl;
      strict = refl;
      policy = refl;
      count = refl;
    },
  )

  strict-Step : (b : Balancer F (CostModel F M) N R H) (v : Bool) → Step b admission_strict v
  unfolding execute_all execute command told last_policy enables_policy policy_of
  strict-Step b v = (
    record b { admission = record b.admission { admission_strict = v } },
    refl,
    record {
      aging = refl;
      degradation = refl;
      shed_bulk = refl;
      strict = refl;
      policy = refl;
      count = refl;
    },
  )

  change-Step :
      (b : Balancer F (CostModel F M) N R H) (name : String) (v : Bool)
      → b.submitted_count ≡ 0
      → Step b name v
  change-Step b name v calm = elim (Bool-cases (name == feature_aging)) [
    | inl e ↦ subst (λ n. Step b n v) (sym ((eq_iff name feature_aging).0 e)) (aging-Step b v)
    | inr a ↦ elim (Bool-cases (name == feature_degradation_curve)) [
      | inl e ↦
          subst (λ n. Step b n v) (sym ((eq_iff name feature_degradation_curve).0 e))
            (degradation-Step b v)
      | inr d ↦ elim (Bool-cases (name == admission_bulk_shed)) [
        | inl e ↦
            subst (λ n. Step b n v) (sym ((eq_iff name admission_bulk_shed).0 e))
              (shed_bulk-Step b v)
        | inr s ↦ elim (Bool-cases (name == admission_strict)) [
          | inl e ↦
              subst (λ n. Step b n v) (sym ((eq_iff name admission_strict).0 e)) (strict-Step b v)
          | inr t ↦
              elim (Bool-cases (is_policy_feature name && v && not (name == policy_composite))) [
                | inl p ↦ switch-Step b name v calm a d s t p
                | inr p ↦ idle-Step b name v calm a d s t p
              ]
        ]
      ]
    ]
  ]

  Follows-append :
      (b c d : Balancer F (CostModel F M) N R H) (xs ys : List FeatureChange)
      → Follows b xs c
      → Follows c ys d
      → Follows b (xs ++ ys) d
  Follows-append b c d xs ys f g = record {
    aging =
        g.aging
        ∙ ap (λ v. told v feature_aging ys) f.aging
        ∙ sym (told-append b.aging_enabled feature_aging xs ys);
    degradation =
        g.degradation
        ∙ ap (λ v. told v feature_degradation_curve ys) f.degradation
        ∙ sym (told-append b.cost_model.degradation_enabled feature_degradation_curve xs ys);
    shed_bulk =
        g.shed_bulk
        ∙ ap (λ v. told v admission_bulk_shed ys) f.shed_bulk
        ∙ sym (told-append b.admission.shed_bulk admission_bulk_shed xs ys);
    strict =
        g.strict
        ∙ ap (λ v. told v admission_strict ys) f.strict
        ∙ sym (told-append b.admission.admission_strict admission_strict xs ys);
    policy =
        g.policy
        ∙ ap (λ p. policy_of chain p (last_policy none ys)) f.policy
        ∙ sym (policy_of-last chain b.policy (last_policy none xs) ys)
        ∙ ap (policy_of chain b.policy) (sym (last_policy-append none xs ys));
    count = g.count ∙ f.count;
  }

  nothing-Follows : (b : Balancer F (CostModel F M) N R H) → Follows b [] b
  unfolding told last_policy policy_of
  nothing-Follows b = record {
    aging = refl;
    degradation = refl;
    shed_bulk = refl;
    strict = refl;
    policy = refl;
    count = refl;
  }

  execute_all-append :
      (b c : Balancer F (CostModel F M) N R H) (xs ys : List Command)
      → execute_all chain b xs ≡ some c
      → execute_all chain b (xs ++ ys) ≡ execute_all chain c ys
  unfolding execute_all
  execute_all-append b c [] ys h = ground (arith, h)
  execute_all-append b c (x ∷ xs) ys h = elim (Option-cases (execute chain b x)) [
    | inl e ↦ absurd (ground (arith, e, h))
    | inr (b', e) ↦
        let rest : execute_all chain b' xs ≡ some c = ground (arith, e, h) in
        ground (arith, e, execute_all-append b' c xs ys rest)
  ]

  changes-Follows :
      (b : Balancer F (CostModel F M) N R H) (cs : List FeatureChange)
      → b.submitted_count ≡ 0
      → (b' : Balancer F (CostModel F M) N R H) × (execute_all chain b (commands cs) ≡ some b')
        × Follows b cs b'
  unfolding execute_all commands
  changes-Follows b [] calm = (b, refl, nothing-Follows b)
  changes-Follows b (c ∷ cs) calm =
      let (b1, e, f) = change-Step b c.name c.new_state calm in
      let (b2, e', f') = changes-Follows b1 cs (f.count ∙ calm) in
      (
        b2,
        execute_all-append b b1 (command c) (commands cs) e ∙ e',
        Follows-append b b1 b2 (c ∷ []) cs f f',
      )

  observe-told :
      (b : Balancer F (CostModel F M) N R H) (r : Report) {b' : Balancer F (CostModel F M) N R H}
      → execute_all chain b (commands (if r.committed then r.changes else [])) ≡ some b'
      → execute_all chain b (observe r.changes r.committed) ≡ some b'
  unfolding observe commands
  observe-told b r e = elim (Bool-cases r.committed) [
    | inl c ↦ rw c (rw c at e)
    | inr c ↦ rw c (rw c at e)
  ]

  -- When no job is in flight, the observer never waits, and whatever it was told, over any calls of
  -- the manager, the balancer has each of the four modes as it was last committed, and the policy
  -- that was last enabled, Composite apart; a mode or policy that was not told stays.
  pub notify-Follows :
      (b : Balancer F (CostModel F M) N R H) (rs : List Report)
      → b.submitted_count ≡ 0
      → (b' : Balancer F (CostModel F M) N R H) × (notify chain b rs ≡ some b')
        × Follows b (committed rs) b'
  unfolding notify committed
  notify-Follows b [] calm = (b, refl, nothing-Follows b)
  notify-Follows b (r ∷ rs) calm =
      let told_now = if r.committed then r.changes else [] in
      let (b1, e, f) = changes-Follows b told_now calm in
      let (b2, e', f') = notify-Follows b1 rs (f.count ∙ calm) in
      let seen : execute_all chain b (observe r.changes r.committed) ≡ some b1 =
        observe-told b r e in
      (b2, ground (arith, seen, e'), Follows-append b b1 b2 told_now (committed rs) f f')
