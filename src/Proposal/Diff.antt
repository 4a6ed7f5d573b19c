-- ===== src/Proposal/Diff.antt =====
-- The body of a new proposal, and `_check_type_and_diff`.
use datagenie.Catalog.Models.{
  ProposalType, Asset, asset_curation, certification_review_request, quality_check_schedule,
}
use datagenie.Prelude.{
  String, List, Option, Bool, ℕ, length, all, true, contains, ◌∷◌, some, leb, not, if◌then◌else◌,
  false, none, [], ◌&&◌, ◌||◌, none, none, ltb, eqb,
}
use datagenie.Prelude.Json.{Value, Fields, get_field, text, array, all_texts, keys, object, as_int}
use datagenie.Catalog.Session.{Error, http}
use datagenie.Prelude.Text.{codes}

pub record ProposalCreate : Type 0 where
  pub proposal_type : ProposalType
  pub title : String
  pub proposal_text : String
  pub resource_type : String
  pub resource_id : String
  pub purpose : String
  pub diff : Fields
  pub evidence : Value
  pub impact : Value
  pub version_preconditions : Fields
  pub source_channel : String
  pub source_agent_id : Option String
  pub source_model_id : Option String
  pub expires_in_seconds : ℕ

-- `len(s)`
abbrev pub text_length : String → ℕ
text_length s = length (codes s)

abbrev pub is_subset : List String → List String → Bool
is_subset xs ys = all (λ x. contains x ys) xs

abbrev pub is_empty : {A : Type 0} → List A → Bool
is_empty [] = true
is_empty (x ∷ xs) = false

abbrev pub invalid_diff : Option Error
invalid_diff = some (http 422 "invalid_proposal_diff")

-- The first of two checks that fails.
abbrev pub then_check : Option Error → Option Error → Option Error
then_check none later = later
then_check (some e) later = some e

abbrev pub refuse_if : Bool → Option Error → Option Error
refuse_if b e = if b then e else none

-- The tests on a field that the diff may lack.
abbrev pub if_present : Option Value → (Value → Bool) → Bool
if_present none good = true
if_present (some v) good = good v

abbrev pub bounded_text : ℕ → Value → Bool
bounded_text n (text s) = leb (text_length s) n
bounded_text n _ = false

abbrev pub all_tags : Value → Bool
all_tags (array items) =
    all_texts (λ tag. leb 1 (text_length tag) && leb (text_length tag) 100) items
all_tags _ = false

abbrev pub all_rule_types : Value → Bool
all_rule_types (array items) = all_texts (λ item. leb 1 (text_length item)) items
all_rule_types _ = false

unfoldable pub check_curation : Fields → Option Error
check_curation diff =
    then_check
      (refuse_if
        (is_empty (keys diff)
          || not (is_subset (keys diff) ("description" ∷ "tags" ∷ "owner" ∷ "domain_id" ∷ [])))
        invalid_diff)
      (then_check
        (refuse_if (not (if_present (get_field "description" diff) (bounded_text 10000)))
          invalid_diff)
        (refuse_if (not (if_present (get_field "tags" diff) all_tags)) invalid_diff))

unfoldable pub check_certification : Fields → Option Error
check_certification diff =
    refuse_if
      (not (is_subset (keys diff) ("note" ∷ []))
        || not (if_present (get_field "note" diff) (bounded_text 5000)))
      invalid_diff

-- `schedule.get("frequency") not in {…}`: a list or an object has no hash, and raises a TypeError.
unfoldable pub check_frequency : Option Value → Option Error
check_frequency (some (text s)) =
    refuse_if (not (contains s ("daily" ∷ "weekly" ∷ "manual" ∷ []))) invalid_diff
check_frequency (some (array items)) = some Error.other
check_frequency (some (object fields)) = some Error.other
check_frequency _ = invalid_diff

unfoldable pub check_schedule_fields : Fields → Option Error
unfolding check_frequency
check_schedule_fields schedule =
    then_check
      (refuse_if (not (is_subset (keys schedule) ("frequency" ∷ "rule_types" ∷ []))) invalid_diff)
      (then_check (check_frequency (get_field "frequency" schedule)) (
        refuse_if (not (if_present (get_field "rule_types" schedule) all_rule_types)) invalid_diff))

abbrev pub check_schedule_value : Option Value → Option Error
check_schedule_value (some (object schedule)) = check_schedule_fields schedule
check_schedule_value _ = invalid_diff

unfoldable pub check_schedule : Fields → Option Error
unfolding check_schedule_fields
check_schedule diff =
    then_check
      (refuse_if (is_empty (keys diff) || not (is_subset (keys diff) ("schedule" ∷ [])))
        invalid_diff)
      (check_schedule_value (get_field "schedule" diff))

unfoldable pub check_diff : ProposalType → Fields → Option Error
unfolding check_curation check_certification check_schedule
check_diff asset_curation diff = check_curation diff
check_diff certification_review_request diff = check_certification diff
check_diff quality_check_schedule diff = check_schedule diff

abbrev pub expected_version : Fields → Option ℕ
expected_version preconditions = elim (get_field "technical_version" preconditions) [
  | none ↦ none
  | some v ↦ as_int v
]

unfoldable pub check_version : Option ℕ → ℕ → Option Error
check_version none actual = some (http 422 "missing_version_precondition")
check_version (some expected) actual =
    if ltb expected 1
    then some (http 422 "missing_version_precondition")
    else if not (eqb expected actual)
    then some (http 409 "proposal_precondition_failed")
    else none

unfoldable pub check_type_and_diff : ProposalCreate → Asset → Option Error
unfolding check_diff check_version
check_type_and_diff payload asset =
    then_check (check_diff payload.proposal_type payload.diff)
      (check_version (expected_version payload.version_preconditions) asset.technical_version)
