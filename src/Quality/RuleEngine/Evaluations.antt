-- ===== src/Quality/RuleEngine/Evaluations.antt =====
-- Evaluations and scopes, as apps/quality-api/app/services/rule_engine.py makes them. `none` is an
-- exception.
use Prim.Native.String.{◌++◌ as concat}
use datagenie.Prelude.{
  Bool, String, Option, List, ℕ, some, if◌then◌else◌, true, ◌∷◌, truthy, false, none, none, [],
}
use datagenie.Prelude.Json.{
  Fields, Value, field, get_field, end, text, null, object, array, bool, nil,
}
use datagenie.Quality.Models.{QualityRule}

pub record Evaluation : Type 0 where
  pub evaluated : Bool
  pub passed : Bool
  pub score : ℕ
  pub observed_value : Fields
  pub expected_value : Fields
  pub evidence : Fields
  pub explanation : String

-- `_scope`
abbrev pub sample_rows : Fields → Value
sample_rows profile = elim (get_field "sample_rows" profile) [ none ↦ array nil | some v ↦ v ]

abbrev pub column_profile : String → Value → Option (Option Fields)
column_profile name (object columns) = elim (get_field name columns) [
  | some (object p) ↦ some (some p)
  | _ ↦ some none
]
column_profile name _ = none

abbrev pub column_lookup : String → Option Value → Option (Option Fields)
column_lookup name none = some none
column_lookup name (some v) = column_profile name v

-- The scope of a column by what the profile has of it.
abbrev pub scope_of : Fields → String → Option (Option Fields) → Option (Fields × Fields)
scope_of profile name none = none
scope_of profile name (some none) = some (
  end,
  field "scope" (text "column")
      (field "column_name" (text name) (field "missing_profile" (bool true) end)),
)
scope_of profile name (some (some p)) = some (
  p,
  field "scope" (text "column")
      (field "column_name" (text name) (field "sample_rows" (sample_rows p) end)),
)

abbrev pub asset_scope : Fields → Fields × Fields
asset_scope profile =
    (profile, field "scope" (text "asset") (field "sample_rows" (sample_rows profile) end))

unfoldable pub scope : Fields → Option String → Option (Fields × Fields)
scope profile none = some (asset_scope profile)
scope profile (some name) =
    if truthy (some name)
    then scope_of profile name (column_lookup name (get_field "columns" profile))
    else some (asset_scope profile)

-- A step that may raise.
abbrev pub and_then : {A B : Type 0} → Option A → (A → Option B) → Option B
and_then none f = none
and_then (some a) f = f a

-- Without parameters, `dict(None)` raises.
unfoldable pub not_evaluable : QualityRule → Fields → String → Option Evaluation
not_evaluable rule evidence message = and_then rule.parameters λ parameters. some (record {
  evaluated = false;
  passed = false;
  score = 0;
  observed_value = end;
  expected_value = parameters;
  evidence = evidence;
  explanation = message;
})

abbrev pub score_of : Bool → ℕ
score_of passed = if passed then 100 else 0

abbrev pub passed_text : Bool → String
passed_text passed = if passed then "passed" else "failed"

-- The evaluation that a test comes to.
unfoldable pub verdict : Bool → Fields → Fields → Fields → String → Option Evaluation
verdict passed observed expected evidence explanation = some (record {
  evaluated = true;
  passed = passed;
  score = score_of passed;
  observed_value = observed;
  expected_value = expected;
  evidence = evidence;
  explanation = explanation;
})

abbrev pub is_empty_fields : Fields → Bool
is_empty_fields end = true
is_empty_fields (field _ _ _) = false

-- `column_name or "asset"`
abbrev pub scope_text : Option String → String
scope_text none = "asset"
scope_text (some s) = if truthy (some s) then s else "asset"

abbrev pub value_or_null : Option Value → Value
value_or_null none = null
value_or_null (some v) = v

abbrev pub join : List String → String
join [] = ""
join (s ∷ ss) = concat s (join ss)
