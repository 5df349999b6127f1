-- ===== src/Supervisor/Tests/Files.antt =====
-- NNAdvisor.h over files with one field.
use Prim.Native.String.{String}
use text.Mathlib.Text.{◌==◌}
use fatp_balancer.Base.{
  ◌≡◌, refl, ◌⊎◌, true, false, if◌then◌else◌, none, some, Expected, ok, has_value,
}
use fatp_balancer.Supervisor.Defs.{
  FeatureManager, FeatureSupervisor, alert_none, alert_overload, alert_or_none, apply_changes,
}
use fatp_balancer.Supervisor.NnAdvisor.{
  InferenceJson, is_known_alert, alert_in, infer, Names, evaluate_file, evaluate_file_cases,
}

-- A value is a text, or an object with one field that holds a text.
data File : Type 0 where
  leaf : String → File
  field : String → String → File

abbrev files : InferenceJson File (String × String)
files = record {
  as_object = λ j. elim j [ leaf s ↦ none | field k s ↦ some (k, s) ];
  find = λ o k. if o.0 == k then some (leaf o.1) else none;
  as_string = λ j. elim j [ leaf s ↦ some s | field k s ↦ none ];
}

abbrev taking : FeatureManager String
taking = record {
  replace = λ g from to. (to, ok tt);
  enable = λ g name. (name, ok tt);
  disable = λ g name. ("", ok tt);
  is_enabled = λ g name. g == name;
}

abbrev idle : FeatureSupervisor String
idle = record { manager = alert_none; active_alert = "" }

abbrev overloaded_file : Expected File String
overloaded_file = ok (field "active_alert" alert_overload)

overload_read :
    (evaluate_file taking files idle "nn.json" overloaded_file).0.active_alert ≡ alert_overload
unfolding evaluate_file infer alert_in is_known_alert apply_changes alert_or_none
overload_read = refl

unknown_refused :
    has_value (evaluate_file taking files idle "nn.json" (ok (field "active_alert" "fire"))).1
    ≡ false
unfolding evaluate_file infer alert_in is_known_alert
unknown_refused = refl

not_an_object : has_value (evaluate_file taking files idle "nn.json" (ok (leaf "fire"))).1 ≡ false
unfolding evaluate_file infer alert_in
not_an_object = refl

evaluate_file_cases_example :
    let r = evaluate_file taking files idle "nn.json" overloaded_file in
    ((has_value r.1 ≡ false) × (r.0.active_alert ≡ ""))
    ⊎ ((has_value r.1 ≡ true)
        × ((alert : String) × Names taking files overloaded_file alert
            × (is_known_alert alert ≡ true)
            × (alert_or_none r.0.active_alert ≡ alert_or_none alert))
        × (evaluate_file taking files r.0 "nn.json" overloaded_file ≡ (r.0, ok tt)))
evaluate_file_cases_example = evaluate_file_cases taking files idle "nn.json" overloaded_file
