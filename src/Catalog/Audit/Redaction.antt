-- ===== src/Catalog/Audit/Redaction.antt =====
-- No secret reaches the audit table.
-- Every field with a sensitive key, at any depth, holds the redaction mark.
use datagenie.Catalog.Audit.{sanitize_value, sanitize_items, sanitize_fields, is_sensitive_key}
use datagenie.Prelude.Json.{
  Value, bool, int, negative, fraction, text, array, object, Items, cons, Fields, field, nil, null,
  end,
}
use datagenie.Prelude.{Bool-cases, inl, inr, ◌≡◌, true, ap, refl}

abbrev mutual
  pub IsRedacted : Value → Type 0
  IsRedacted (array xs) = AreRedacted xs
  IsRedacted (object fs) = FieldsRedacted fs
  IsRedacted _ = Unit

  pub AreRedacted : Items → Type 0
  AreRedacted nil = Unit
  AreRedacted (cons v vs) = IsRedacted v × AreRedacted vs

  pub FieldsRedacted : Fields → Type 0
  FieldsRedacted end = Unit
  FieldsRedacted (field k v fs) =
      ((is_sensitive_key k ≡ true → v ≡ text "[REDACTED]") × IsRedacted v) × FieldsRedacted fs

mutual
  unfolding sanitize_value sanitize_items sanitize_fields

  value-IsRedacted : (v : Value) → IsRedacted (sanitize_value v)
  value-IsRedacted null = tt
  value-IsRedacted (bool b) = tt
  value-IsRedacted (int n) = tt
  value-IsRedacted (negative n) = tt
  value-IsRedacted (fraction s) = tt
  value-IsRedacted (text s) = tt
  value-IsRedacted (array xs) = items-AreRedacted xs
  value-IsRedacted (object fs) = fields-FieldsRedacted fs

  items-AreRedacted : (xs : Items) → AreRedacted (sanitize_items xs)
  items-AreRedacted nil = tt
  items-AreRedacted (cons v vs) = (value-IsRedacted v, items-AreRedacted vs)

  fields-FieldsRedacted : (fs : Fields) → FieldsRedacted (sanitize_fields fs)
  fields-FieldsRedacted end = tt
  fields-FieldsRedacted (field k v fs) = (
    elim (Bool-cases (is_sensitive_key k)) [
      | inl e ↦ rw e ((λ _. refl), tt)
      | inr e ↦ rw e ((λ h. cc), value-IsRedacted v)
    ],
    fields-FieldsRedacted fs,
  )

mutual
  unfolding sanitize_value sanitize_items sanitize_fields

  value_idem : (v : Value) → sanitize_value (sanitize_value v) ≡ sanitize_value v
  value_idem null = refl
  value_idem (bool b) = refl
  value_idem (int n) = refl
  value_idem (negative n) = refl
  value_idem (fraction s) = refl
  value_idem (text s) = refl
  value_idem (array xs) = ap array (items_idem xs)
  value_idem (object fs) = ap object (fields_idem fs)

  items_idem : (xs : Items) → sanitize_items (sanitize_items xs) ≡ sanitize_items xs
  items_idem nil = refl
  items_idem (cons v vs) = cc (value_idem v, items_idem vs)

  fields_idem : (fs : Fields) → sanitize_fields (sanitize_fields fs) ≡ sanitize_fields fs
  fields_idem end = refl
  fields_idem (field k v fs) = elim (Bool-cases (is_sensitive_key k)) [
    | inl e ↦ rw e (ap (field k (text "[REDACTED]")) (fields_idem fs))
    | inr e ↦ rw e (cc (value_idem v, fields_idem fs))
  ]

-- No field with a sensitive key keeps its value, at any depth of the metadata, and sanitising what
-- is sanitised changes nothing.
pub sanitize_value-IsRedacted :
    (v : Value)
    → IsRedacted (sanitize_value v) × (sanitize_value (sanitize_value v) ≡ sanitize_value v)
sanitize_value-IsRedacted v = (value-IsRedacted v, value_idem v)
