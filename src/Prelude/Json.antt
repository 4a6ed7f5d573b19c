-- ===== src/Prelude/Json.antt =====
-- The values of `dict[str, Any]`: what a JSON column or a request body holds. `negative n` is the
-- integer -(n + 1), and `fraction` is a number that is no integer, by its text.
use Prim.Native.Nat.{ℕ}
use Prim.Native.String.{String}
use mathlib.Core.Bool.{Bool, true, false, ◌&&◌}
use mathlib.Core.Option.{Option, none, some}
use mathlib.Core.List.{List, [], ◌∷◌}
use datagenie.Prelude.Tests.{◌==◌, if◌then◌else◌}
use datagenie.Prelude.{suc, eqb}

mutual
  pub data Value : Type 0 where
    null : Value
    bool : Bool → Value
    int : ℕ → Value
    negative : ℕ → Value
    fraction : String → Value
    text : String → Value
    array : Items → Value
    object : Fields → Value

  pub data Items : Type 0 where
    nil : Items
    cons : Value → Items → Items

  pub data Fields : Type 0 where
    end : Fields
    field : String → Value → Fields → Fields

-- `d.get(key)`
abbrev pub get_field : String → Fields → Option Value
get_field k end = none
get_field k (field j v fs) = if j == k then some v else get_field k fs

-- `key in d`
abbrev pub has_field : String → Fields → Bool
has_field k fs = elim (get_field k fs) [ none ↦ false | some _ ↦ true ]

-- `d[key] = value` for a key that is new, or at its place.
abbrev pub put_field : String → Value → Fields → Fields
put_field k v end = field k v end
put_field k v (field j w fs) = if j == k then field k v fs else field j w (put_field k v fs)

-- The keys of a dictionary, in order.
abbrev pub keys : Fields → List String
keys end = []
keys (field k v fs) = k ∷ keys fs

-- `isinstance(value, int)`: in Python `True` is the integer 1 and `False` is 0. A negative integer
-- has no place here: every use asks for a positive one.
abbrev pub as_int : Value → Option ℕ
as_int (int n) = some n
as_int (bool true) = some 1
as_int (bool false) = some 0
as_int _ = none

-- `isinstance(value, str)`
abbrev pub as_text : Value → Option String
as_text (text s) = some s
as_text _ = none

-- `all(test(item) for item in items)` where the test asks for a text.
abbrev pub all_texts : (String → Bool) → Items → Bool
all_texts p nil = true
all_texts p (cons (text s) vs) = p s && all_texts p vs
all_texts p (cons _ vs) = false

abbrev pub text_or_null : Option String → Value
text_or_null none = null
text_or_null (some s) = text s

abbrev pub texts : List String → Items
texts [] = nil
texts (s ∷ ss) = cons (text s) (texts ss)

abbrev pub fields_or_null : Option Fields → Value
fields_or_null none = null
fields_or_null (some fs) = object fs

abbrev pub size : Fields → ℕ
size end = 0
size (field k v fs) = suc (size fs)

-- Python's `==`: a dictionary's order does not count, and `True` is 1.
unfoldable mutual
  pub same_value : Value → Value → Bool
  same_value null null = true
  same_value (negative m) (negative n) = eqb m n
  same_value (fraction s) (fraction t) = s == t
  same_value (text s) (text t) = s == t
  same_value (array vs) (array ws) = same_items vs ws
  same_value (object fs) (object gs) = eqb (size fs) (size gs) && all_same fs gs
  same_value v w = elim (as_int v) [
    | none ↦ false
    | some m ↦ elim (as_int w) [ none ↦ false | some n ↦ eqb m n ]
  ]

  pub same_items : Items → Items → Bool
  same_items nil nil = true
  same_items (cons v vs) (cons w ws) = same_value v w && same_items vs ws
  same_items _ _ = false

  pub all_same : Fields → Fields → Bool
  all_same end gs = true
  all_same (field k v fs) gs = elim (get_field k gs) [
    | none ↦ false
    | some w ↦ same_value v w && all_same fs gs
  ]
