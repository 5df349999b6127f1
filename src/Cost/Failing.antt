-- ===== src/Cost/Failing.antt =====
-- CostModel.h: the failures of load.
use fatp_balancer.Base.{
  ℕ, ◌≡◌, refl, ap, ◌∙◌, ◌⊎◌, inl, inr, Bool, true, false, List, [], ◌∷◌, Option, none, some,
  Expected, ok, err, Option-cases,
}
use fatp_balancer.Job.{Job, u32}
use fatp_balancer.Floats.{Floats}
use fatp_balancer.Balancer.State.{FastHashMap}
use fatp_balancer.Cost.Matrix.{AffinityMatrix, new_matrix}
use fatp_balancer.Cost.Curve.{NodeLearningState, Literals}
use fatp_balancer.Cost.Model.{CostModel, reset, predict, predict_from}
use fatp_balancer.Cost.Json.{
  Key, nodes, affinity, throughput_multiplier, observation_count, Json, JsonText, find_key,
}
use fatp_balancer.Cost.Persist.{PersistError, malformed_json, dimension_mismatch, load_matrix}
use fatp_balancer.Cost.File.{
  Entries, Source, unopened, content, parse_key, clear_model, read_state, load_nodes, load_rest,
  load_root, load,
}

ok_err : {A E : Type 0} {a : A} {e : E} → ok a ≡ err e → ⊥
ok_err h = cc

module _ {F M : Type 0} ⦃fl : Floats F⦄ ⦃lit : Literals F⦄
    ⦃states : FastHashMap (NodeLearningState F) M⦄ ⦃all : Entries (NodeLearningState F) M⦄ where
  -- A load that fails after the file was opened has cleared the model.
  abbrev Clears : CostModel F M → CostModel F M × Expected (Unit {0}) PersistError → Type 0
  Clears m r = (e : PersistError) → r.1 ≡ err e → r.0 ≡ reset m all.clear

  clear_model-Clears : (m : CostModel F M) (e : PersistError) → Clears m (clear_model m e)
  unfolding clear_model
  clear_model-Clears m e e' h = refl

module _ {J F M : Type 0} ⦃fl : Floats F⦄ ⦃lit : Literals F⦄ ⦃json : Json J F⦄
    ⦃states : FastHashMap (NodeLearningState F) M⦄ ⦃all : Entries (NodeLearningState F) M⦄ where
  load_nodes-Clears :
      (m : CostModel F M) (x : AffinityMatrix F) (read : M) (xs : List (Key × J))
      → Clears m (load_nodes m x read xs)
  unfolding load_nodes
  load_nodes-Clears m x read [] = λ e h. absurd (ok_err h)
  load_nodes-Clears m x read ((k, j) ∷ xs) = elim (Option-cases (json.as_object j)) [
    | inl a ↦ rw (load_nodes, a) (clear_model-Clears m malformed_json)
    | inr (ns, a) ↦ elim (Option-cases (find_key ns throughput_multiplier)) [
      | inl b ↦ rw (load_nodes, a, b) (clear_model-Clears m malformed_json)
      | inr (tm, b) ↦ elim (Option-cases (find_key ns observation_count)) [
        | inl c ↦ rw (load_nodes, a, b, c) (clear_model-Clears m malformed_json)
        | inr (oc, c) ↦ elim (Option-cases (parse_key k)) [
          | inl d ↦ rw (load_nodes, a, b, c, d) (clear_model-Clears m malformed_json)
          | inr (n, d) ↦
              rw (load_nodes, a, b, c, d)
                (load_nodes-Clears m x
                  (states.insert read (u32 n) (read_state m.config.degradation ns tm oc)) xs)
        ]
      ]
    ]
  ]

  load_rest-Clears :
      (m : CostModel F M) (root : List (Key × J)) (loaded : AffinityMatrix F × Bool)
      → Clears m (load_rest m root loaded)
  unfolding load_rest
  load_rest-Clears m root (x, false) = clear_model-Clears m dimension_mismatch
  load_rest-Clears m root (x, true) = elim (Option-cases (find_key root nodes)) [
    | inl a ↦ rw (load_rest, a) (clear_model-Clears m malformed_json)
    | inr (nj, a) ↦ elim (Option-cases (json.as_object nj)) [
      | inl b ↦ rw (load_rest, a, b) (clear_model-Clears m malformed_json)
      | inr (ns, b) ↦ rw (load_rest, a, b) (load_nodes-Clears m x all.clear ns)
    ]
  ]

  load_root-Clears :
      (m : CostModel F M) (root? : Option (List (Key × J))) → Clears m (load_root m root?)
  unfolding load_root
  load_root-Clears m none = clear_model-Clears m malformed_json
  load_root-Clears m (some root) = elim (Option-cases (find_key root affinity)) [
    | inl a ↦ rw (load_root, a) (clear_model-Clears m malformed_json)
    | inr (aj, a) ↦
        rw (load_root, a) (load_rest-Clears m root (load_matrix (new_matrix m.config.affinity) aj))
  ]

module _ {J F M T : Type 0} ⦃fl : Floats F⦄ ⦃lit : Literals F⦄ ⦃json : Json J F⦄
    ⦃states : FastHashMap (NodeLearningState F) M⦄ ⦃all : Entries (NodeLearningState F) M⦄ where
  content-Clears :
      (text : JsonText J T) (m : CostModel F M) (t : T) → Clears m (load text m (content t))
  unfolding load
  content-Clears text m t = elim (Option-cases (text.parse_json t)) [
    | inl a ↦ rw (load, a) (clear_model-Clears m malformed_json)
    | inr (root, a) ↦ rw (load, a) (load_root-Clears m (json.as_object root))
  ]

  -- If the empty map of states has no entry: a load that fails, wherever it does, changes nothing if
  -- the file could not be opened; else it leaves a model that was reset, whose predictions are the
  -- estimates.
  pub load-err :
      (text : JsonText J T) (m : CostModel F M) (s : Source T) (e : PersistError)
      → ((k : ℕ) → states.find all.clear k ≡ none)
      → (load text m s).1 ≡ err e
      → ((s ≡ unopened) × ((load text m s).0 ≡ m))
        ⊎ (((load text m s).0 ≡ reset m all.clear)
            × ((job : Job) (n : ℕ) → predict (load text m s).0 job n ≡ job.estimated_cost))
  unfolding load reset predict predict_from
  load-err text m unopened e c h = inl (refl, refl)
  load-err text m (content t) e c h =
      let r = content-Clears text m t e h in
      inr (
        r,
        λ job n. ap (λ m'. predict m' job n) r ∙ ap (predict_from (reset m all.clear) job n) (c n),
      )
