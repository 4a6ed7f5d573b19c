-- ===== src/Policy/Text.antt =====
-- The two text tests of apps/catalog-api/app/services/policy_service.py: is a classification
-- sensitive, and does a purpose name a permitted use.
use datagenie.Prelude.{
  String, Bool, true, false, not, Option, none, some, List, [], ◌∷◌, map, any, keep,
}
use datagenie.Prelude.Text.{Codes, codes, codes_eq, lower, strip, split, is_infix}

abbrev pub sensitive_classifications : List String
sensitive_classifications =
    "email_address" ∷ "phone_number" ∷ "government_identifier" ∷ "payment_data"
    ∷ "health_information" ∷ []

abbrev pub sensitive_purpose_keywords : List String
sensitive_purpose_keywords =
    "analysis" ∷ "analytics" ∷ "audit" ∷ "compliance" ∷ "financial" ∷ "reporting" ∷ "risk"
    ∷ "security" ∷ []

abbrev pub is_sensitive_label : Codes → Bool
is_sensitive_label value = any (λ s. codes_eq value (codes s)) sensitive_classifications

abbrev pub is_blank : Codes → Bool
is_blank [] = true
is_blank (c ∷ s) = false

-- The set comprehension: the fields of the comma-separated text that are not blank, normalised.
unfoldable pub classification_values : String → List Codes
classification_values text =
    map (λ value. lower (strip value))
      (keep (λ value. not (is_blank (strip value))) (split b',' (codes text)))

unfoldable pub has_sensitive_classification : Option String → Bool
unfolding classification_values
has_sensitive_classification none = false
has_sensitive_classification (some String.[]) = false
has_sensitive_classification (some text) = any is_sensitive_label (classification_values text)

unfoldable pub purpose_is_permitted : Option String → Bool
purpose_is_permitted none = false
purpose_is_permitted (some purpose) =
    any (λ keyword. is_infix (codes keyword) (lower (codes purpose))) sensitive_purpose_keywords
