-- ===== src/Cost/Restored.antt =====
-- CostModel.h: what a model that was saved and loaded predicts.
use fatp_balancer.Base.{
  ℕ, zero, suc, ◌+◌, ◌≤◌, ◌<◌, ◌≡◌, refl, ap, subst, ◌∙◌, inl, inr, Bool-cases, false, ltb, leb,
  ◌==◌, if◌then◌else◌, List, [], ◌∷◌, map, Option, none, some, arith,
}
use fatp_balancer.Job.{u32}
use fatp_balancer.Floats.{Floats}
use fatp_balancer.Cost.Curve.{
  Bucket, NodeLearningState, DegradationCurveConfig, Literals, new_state, configure, bucket_index,
  get_curve, max_buckets,
}
use fatp_balancer.Cost.Json.{Key, Json, JsonLaws, map_values, find_key, value, observations}
use fatp_balancer.Cost.File.{bucket_json, buckets_json, load_bucket, load_buckets, found_buckets}
use fatp_balancer.Cost.Learning.{bucket_index-configure}
use fatp_balancer.Cost.Storable.{IsStorable}
use fatp_balancer.Cost.Reload.{reloaded}
use fatp_balancer.Cost.Snapshot.{read_float-IsNumber, read_count-int}

module _ (J : Type 0) {F : Type 0} ⦃fl : Floats F⦄ ⦃lit : Literals F⦄ ⦃json : Json J F⦄ (ρ : J → J)
    (laws : JsonLaws json ρ) where
  abbrev fields : Bucket F → List (Key × J)
  fields b =
      map_values ρ
        ((value, json.double b.multiplier.value) ∷ (observations, json.int b.observations) ∷ [])

  -- The array after the b-th bucket was read.
  abbrev put : (ℕ → Bucket F) → ℕ → Bucket F → ℕ → Bucket F
  unfolding load_bucket
  put g b x i = if i == b then load_bucket (g b) (fields x) else g i

  load_bucket-fields :
      (g x : Bucket F)
      → ((load_bucket g (fields x)).multiplier.value ≡ x.multiplier.value)
        × ((load_bucket g (fields x)).observations ≡ u32 x.observations)
  unfolding load_bucket find_key
  load_bucket-fields g x = (
    read_float-IsNumber g.multiplier.value (ρ (json.double x.multiplier.value)) x.multiplier.value
        (laws.double-IsNumber x.multiplier.value),
    read_count-int ρ laws _ _,
  )

  load_buckets-cons :
      (g : ℕ → Bucket F) (b : ℕ) (x : Bucket F) (js : List J) (i : ℕ)
      → b < 32
      → load_buckets {J = J} g b (ρ (bucket_json x) ∷ js) i
        ≡ load_buckets {J = J} (put g b x) (suc b) js i
  unfolding load_buckets bucket_json
  load_buckets-cons g b x js i h =
      let e : leb max_buckets b ≡ false = ground (arith, h) in
      let s : b + 1 ≡ suc b = omega arith in
      let t : load_buckets {J = J} g b (ρ (bucket_json x) ∷ js) i
          ≡ load_buckets {J = J} (put g b x) (b + 1) js i =
        simp (e, laws.as_object-object _) in
      t ∙ ap (λ c. load_buckets {J = J} (put g b x) c js i) s

  load_buckets-kept :
      (f g : ℕ → Bucket F) (b n i : ℕ)
      → i < b
      → b + n ≤ 32
      → load_buckets {J = J} g b (map ρ (buckets_json f b n)) i ≡ g i
  unfolding load_buckets buckets_json
  load_buckets-kept f g b zero i h k = refl
  load_buckets-kept f g b (suc n) i h k =
      let e : (i == b) ≡ false = ground (arith, h) in
      load_buckets-cons g b (f b) (map ρ (buckets_json f (suc b) n)) i (omega (arith, k))
      ∙ load_buckets-kept f (put g b (f b)) (suc b) n i (omega (arith, h)) (omega (arith, k))
      ∙ ap (λ x. if x then load_bucket (g b) (fields (f b)) else g i) e

  -- Every bucket that was written is read into its place.
  load_buckets-buckets_json :
      (f g : ℕ → Bucket F) (b n i : ℕ)
      → b ≤ i
      → i < b + n
      → b + n ≤ 32
      → load_buckets {J = J} g b (map ρ (buckets_json f b n)) i ≡ load_bucket (g i) (fields (f i))
  unfolding load_buckets buckets_json
  load_buckets-buckets_json f g b zero i h l k = ground (arith, h, l)
  load_buckets-buckets_json f g b (suc n) i h l k =
      load_buckets-cons g b (f b) (map ρ (buckets_json f (suc b) n)) i (omega (arith, k, l, h))
      ∙ elim (Bool-cases (i == b)) [
        | inl e ↦
            let c : b ≡ i = ground (arith, e) in
            load_buckets-kept f (put g b (f b)) (suc b) n i (omega (arith, c)) (omega (arith, k))
            ∙ ap (λ x. if x then load_bucket (g b) (fields (f b)) else g i) e
            ∙ ap (λ c. load_bucket (g c) (fields (f c))) c
        | inr e ↦
            let c : b < i = ground (arith, e, h) in
            load_buckets-buckets_json f (put g b (f b)) (suc b) n i (omega (arith, c))
              (omega (arith, l)) (omega (arith, k))
            ∙ ap
                (λ x.
                  load_bucket (if x then load_bucket (g b) (fields (f b)) else g i) (fields (f i)))
                e
      ]

  array_found : (ℕ → Bucket F) → Option (List J) → ℕ → Bucket F
  array_found g o = elim o [ none ↦ g | some js ↦ load_buckets {J = J} g 0 js ]

  -- A bucket of a curve that was saved and loaded.
  bucket-reloaded :
      (config : DegradationCurveConfig F) (s : NodeLearningState F) (i : ℕ)
      → IsStorable fl config s
      → i < s.degradation.bucket_count
      → s.degradation.bucket_count ≤ 32
      → (((reloaded J ρ laws config s).degradation.buckets i).multiplier.value
          ≡ (s.degradation.buckets i).multiplier.value)
        × (((reloaded J ρ laws config s).degradation.buckets i).observations
            ≡ (s.degradation.buckets i).observations)
  unfolding reloaded found_buckets array_found
  bucket-reloaded config s i h k l =
      let g = (configure (new_state {F = F}).degradation config).buckets in
      let js = buckets_json s.degradation.buckets 0 s.degradation.bucket_count in
      let e : (reloaded J ρ laws config s).degradation.buckets i
          ≡ load_bucket (g i) (fields (s.degradation.buckets i)) =
        ap (λ o. array_found g o i) (laws.as_array-array js)
        ∙ load_buckets-buckets_json s.degradation.buckets g 0 s.degradation.bucket_count i
            (omega arith) (omega (arith, k)) (omega (arith, l)) in
      let x = load_bucket-fields (g i) (s.degradation.buckets i) in
      let u : u32 (s.degradation.buckets i).observations ≡ (s.degradation.buckets i).observations =
        omega (arith, h.buckets i) in
      (ap (λ b. b.multiplier.value) e ∙ x.0, ap (λ b. b.observations) e ∙ x.1 ∙ u)

  -- The degradation of a node after a load.
  pub get_curve-reloaded :
      (config : DegradationCurveConfig F) (s : NodeLearningState F) (depth : ℕ)
      → IsStorable fl config s
      → get_curve (reloaded J ρ laws config s).degradation depth ≡ get_curve s.degradation depth
  unfolding get_curve reloaded bucket_index configure
  get_curve-reloaded config s depth h =
      let d = configure s.degradation config in
      let i = bucket_index d depth in
      let n : i < s.degradation.bucket_count =
        subst (λ e. i < e.bucket_count) h.curve
          (bucket_index-configure s.degradation config depth).0 in
      let l : s.degradation.bucket_count ≤ 32 =
        subst (λ e. e.bucket_count ≤ 32) h.curve
          (bucket_index-configure s.degradation config depth).1 in
      let x = bucket-reloaded config s i h n l in
      let y : get_curve (reloaded J ρ laws config s).degradation depth ≡ get_curve d depth =
        ap
          (λ k.
            if ltb k config.warm_threshold
            then fl.of_ℕ 1
            else ((reloaded J ρ laws config s).degradation.buckets i).multiplier.value)
          x.1
        ∙ ap
            (λ v.
              if ltb (s.degradation.buckets i).observations config.warm_threshold
              then fl.of_ℕ 1
              else v)
            x.0 in
      y ∙ ap (λ e. get_curve e depth) h.curve
