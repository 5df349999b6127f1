-- ===== src/Supervisor/NnAdvisor.antt =====
-- NNAdvisor.h: evaluate, which reads an alert from a file that a neural network writes. The file
-- and the calls of fat_p::JsonLite are an interface: each call is given what
-- load_json_from_file returns or throws.
use Prim.Native.String.{String, ◌++◌}
use text.Mathlib.Text.{◌==◌}
use fatp_balancer.Base.{
  ◌≡◌, refl, ◌∙◌, ◌⊎◌, inl, inr, Bool, true, false, ◌||◌, if◌then◌else◌, Option, none, some,
  Expected, ok, err, has_value, Bool-cases,
}
use fatp_balancer.Supervisor.Defs.{
  Outcome, FeatureManager, FeatureSupervisor, alert_none, alert_overload, alert_latency,
  alert_node_fault, alert_or_none, apply_changes,
}
use fatp_balancer.Supervisor.Alerts.{apply_changes_cases, apply_changes_again}

-- `O` is JsonObject, `J` JsonValue: the tests of the variant with std::get, and JsonObject::find.
pub record InferenceJson (J O : Type 0) : Type 0 where
  pub as_object : J → Option O
  pub find : O → String → Option J
  pub as_string : J → Option String

unfoldable pub is_known_alert : String → Bool
is_known_alert name =
    name == ""
    || name == alert_none
    || name == alert_overload
    || name == alert_latency
    || name == alert_node_fault

-- The text of the error for another name.
unfoldable pub unknown_alert : String → String
unknown_alert name =
    "NNAdvisor: unknown alert name '" ++ name ++ "'. Valid values: \"\", \"" ++ alert_none
    ++ "\", \"" ++ alert_overload ++ "\", \"" ++ alert_latency ++ "\", \"" ++ alert_node_fault
    ++ "\""

unfoldable pub unreadable : String → String → String
unreadable path what = "NNAdvisor: failed to read/parse inference file '" ++ path ++ "': " ++ what

module _ {J O : Type 0} (json : InferenceJson J O) where
  -- The field "active_alert" of the file's object.
  unfoldable pub string_of : Option J → Expected String String
  string_of none = err "NNAdvisor: inference file missing required field 'active_alert'"
  string_of (some v) = elim (json.as_string v) [
    | none ↦ err "NNAdvisor: 'active_alert' must be a string"
    | some alert ↦ ok alert
  ]

  unfoldable pub field_of : Option O → Expected String String
  unfolding string_of
  field_of none = err "NNAdvisor: inference file root must be a JSON object"
  field_of (some o) = string_of (json.find o "active_alert")

  -- `root` is the value in the file, or what() of the exception.
  unfoldable pub alert_in : String → Expected J String → Expected String String
  unfolding field_of unreadable
  alert_in path (err what) = err (unreadable path what)
  alert_in path (ok root) = field_of (json.as_object root)

module _ {G J O : Type 0} (features : FeatureManager G) (json : InferenceJson J O) where
  unfoldable pub infer :
      FeatureSupervisor G → Expected String String → FeatureSupervisor G × Outcome
  unfolding is_known_alert unknown_alert
  infer s (err e) = (s, err e)
  infer s (ok alert) =
      if is_known_alert alert
      then apply_changes features s alert
      else (s, err (unknown_alert alert))

  -- evaluate, for the file at `path`.
  unfoldable pub evaluate_file :
      FeatureSupervisor G → String → Expected J String → FeatureSupervisor G × Outcome
  unfolding infer alert_in
  evaluate_file s path root = infer s (alert_in json path root)

  infer_known :
      (s : FeatureSupervisor G) (alert : String)
      → is_known_alert alert ≡ true
      → infer s (ok alert) ≡ apply_changes features s alert
  unfolding infer
  infer_known s alert known = rw known refl

  -- The file holds an object whose field "active_alert" is this text.
  abbrev pub Names : Expected J String → String → Type 0
  Names root alert =
      (value : J) × (o : O) × (field : J) × (root ≡ ok value)
      × (json.as_object value ≡ some o)
      × (json.find o "active_alert" ≡ some field)
      × (json.as_string field ≡ some alert)

  string_of-ok :
      (field? : Option J) (alert : String)
      → string_of json field? ≡ ok alert
      → (field : J) × (field? ≡ some field) × (json.as_string field ≡ some alert)
  unfolding string_of
  string_of-ok none alert h = cc
  string_of-ok (some field) alert h = (field, refl, go (json.as_string field) h)
    where
      E : Type 0
      E = Expected String String

      go :
          (text? : Option String)
          → (elim text? as (λ o. E) [
            | none ↦ err "NNAdvisor: 'active_alert' must be a string"
            | some text ↦ ok text
          ])
            ≡ ok alert
          → text? ≡ some alert
      go none h = cc
      go (some text) h = cc

  field_of-ok :
      (o? : Option O) (alert : String)
      → field_of json o? ≡ ok alert
      → (o : O) × (field : J) × (o? ≡ some o)
        × (json.find o "active_alert" ≡ some field)
        × (json.as_string field ≡ some alert)
  unfolding field_of
  field_of-ok none alert h = cc
  field_of-ok (some o) alert h =
      let (field, f, t) = string_of-ok (json.find o "active_alert") alert h in
      (o, field, refl, f, t)

  alert_in-Names :
      (path : String) (root : Expected J String) (alert : String)
      → alert_in json path root ≡ ok alert
      → Names root alert
  unfolding alert_in
  alert_in-Names path (err what) alert h = cc
  alert_in-Names path (ok value) alert h =
      let (o, field, e, f, t) = field_of-ok (json.as_object value) alert h in
      (value, o, field, refl, e, f, t)

  -- What follows from the name that was read.
  abbrev Settles : FeatureSupervisor G → Expected String String → Type 0
  Settles s named =
      let r = infer s named in
      ((has_value r.1 ≡ false) × (r.0.active_alert ≡ s.active_alert))
      ⊎ ((has_value r.1 ≡ true)
          × ((alert : String) × (named ≡ ok alert)
              × (is_known_alert alert ≡ true)
              × (alert_or_none r.0.active_alert ≡ alert_or_none alert))
          × (infer r.0 named ≡ (r.0, ok tt)))

  known-Settles :
      (s : FeatureSupervisor G) (alert : String)
      → is_known_alert alert ≡ true
      → Settles s (ok alert)
  known-Settles s alert known =
      let again : infer (apply_changes features s alert).0 (ok alert)
          ≡ apply_changes features (apply_changes features s alert).0 alert =
        infer_known (apply_changes features s alert).0 alert known in
      elim (apply_changes_cases features s alert) [
        | inl (done, same) ↦ rw (infer_known s alert known) (
            inr
              (done, (alert, refl, known, same), again ∙ apply_changes_again features s alert done))
        | inr (refused, same) ↦ rw (infer_known s alert known) (inl (refused, same))
      ]

  infer-Settles : (s : FeatureSupervisor G) (named : Expected String String) → Settles s named
  unfolding infer
  infer-Settles s (err e) = inl (refl, refl)
  infer-Settles s (ok alert) = elim (Bool-cases (is_known_alert alert)) [
    | inl known ↦ known-Settles s alert known
    | inr other ↦ rw other (inl (refl, refl))
  ]

  -- An evaluation that fails leaves the active alert as it was, whatever is in the file. One that
  -- succeeds has read a known alert: the file holds an object, its field "active_alert" is the text
  -- of that alert, which is then the active one, where "" and "alert.none" are the same; and the
  -- same file changes nothing any more.
  pub evaluate_file_cases :
      (s : FeatureSupervisor G) (path : String) (root : Expected J String)
      → let r = evaluate_file s path root in
        ((has_value r.1 ≡ false) × (r.0.active_alert ≡ s.active_alert))
        ⊎ ((has_value r.1 ≡ true)
            × ((alert : String) × Names root alert
                × (is_known_alert alert ≡ true)
                × (alert_or_none r.0.active_alert ≡ alert_or_none alert))
            × (evaluate_file r.0 path root ≡ (r.0, ok tt)))
  unfolding evaluate_file
  evaluate_file_cases s path root = elim (infer-Settles s (alert_in json path root)) [
    | inl unchanged ↦ inl unchanged
    | inr (done, (alert, e, known, same), again) ↦
        inr (done, (alert, alert_in-Names path root alert e, known, same), again)
  ]
