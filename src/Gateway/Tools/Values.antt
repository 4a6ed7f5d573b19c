-- ===== src/Gateway/Tools/Values.antt =====
-- The values that the other services answer, as the tools take them apart (`none`: that raises). A
-- text or a dictionary in the place of a list raises here, where Python would take its length.
use datagenie.Prelude.{
  Option, ℕ, String, List, some, Bool, suc, if◌then◌else◌, false, none, [], none, eqb, ◌==◌, ◌∷◌,
  ◌-◌, ltb, ◌&&◌,
}
use datagenie.Prelude.Json.{
  Items, Value, Fields, null, cons, nil, end, array, object, text, field, get_field, int, bool,
  negative, fraction,
}
use datagenie.Gateway.Tools.Types.{Validation, PolicyEvidence}

abbrev pub list_of : Option Value → Option Items
list_of none = some nil
list_of (some (array vs)) = some vs
list_of (some _) = none

abbrev pub list_given : Option Value → Option Items
list_given (some (array vs)) = some vs
list_given _ = none

abbrev pub size_of : Items → ℕ
size_of nil = 0
size_of (cons v vs) = suc (size_of vs)

abbrev pub take_items : ℕ → Items → Items
take_items n nil = nil
take_items n (cons v vs) = if eqb n 0 then nil else cons v (take_items (n - 1) vs)

abbrev pub object_of : Option Value → Option Fields
object_of (some (object fs)) = some fs
object_of _ = none

abbrev pub text_of : Option Value → Option String
text_of (some (text s)) = some s
text_of _ = none

-- `asset.pop(key, None)`
abbrev pub drop_field : String → Fields → Fields
drop_field k end = end
drop_field k (field j v fs) = let rest = drop_field k fs in if j == k then rest else field j v rest

-- `downstream.get("total", 0) > n`
abbrev pub is_above : Validation → Option Value → ℕ → Option Bool
is_above v none n = some false
is_above v (some (int m)) n = some (ltb n m)
is_above v (some (bool b)) n = some (b && ltb n 1)
is_above v (some (negative m)) n = some false
is_above v (some (fraction s)) n = some (v.fraction_above s n)
is_above v (some _) n = none

abbrev pub evidence_pair : Option String → Option String → Option PolicyEvidence
evidence_pair (some t) (some r) = some (record { type = t; reference = r })
evidence_pair _ _ = none

-- `PolicyEvidence.model_validate`
abbrev pub evidence_item : Value → Option PolicyEvidence
evidence_item (object fs) =
    evidence_pair (text_of (get_field "type" fs)) (text_of (get_field "reference" fs))
evidence_item _ = none

abbrev pub evidence_list : Items → Option (List PolicyEvidence)
evidence_list nil = some []
evidence_list (cons v vs) = elim (evidence_item v) [
  | none ↦ none
  | some e ↦ elim (evidence_list vs) [ none ↦ none | some es ↦ some (e ∷ es) ]
]

-- The `data` of a proposal's result; a key that is missing raises.
abbrev pub required_fields : List (String × String) → Fields → Option Fields
required_fields [] source = some end
required_fields ((name, key) ∷ names) source = elim (get_field key source) [
  | none ↦ none
  | some v ↦ elim (required_fields names source) [ none ↦ none | some fs ↦ some (field name v fs) ]
]

abbrev pub value_or_null : Option Value → Value
value_or_null none = null
value_or_null (some v) = v
