-- ===== src/Quality/RuleEngine/Scoped.antt =====
-- Steps that may raise, by what holds of every answer; and the evidence, which names its scope
-- from the start and keeps it.
use datagenie.Prelude.{
  String, Option, some, ◌≡◌, none, none, none, true, Bool-cases, truthy, arith, inr, inl, eq_iff,
  refl,
}
use datagenie.Prelude.Json.{Fields, Value, has_field, put_field, field, get_field, end}
use datagenie.Quality.RuleEngine.Evaluations.{scope, and_then, scope_of, column_lookup}

pub has_field-put_field :
    (k j : String) (v : Value) (fs : Fields)
    → has_field k fs ≡ true
    → has_field k (put_field j v fs) ≡ true
has_field-put_field k j v end h = absurd (ground arith)
has_field-put_field k j v (field i w fs) h =
    ground (arith, eq_iff i j, eq_iff i k, has_field-put_field k j v fs)

-- What a step that may raise answers, where it answers.
abbrev pub Always : {A : Type 0} → (A → Type 0) → Option A → Type 0
Always P none = Unit
Always P (some a) = P a

pub Always-and_then :
    {A B : Type 0} (Q : A → Type 0) (P : B → Type 0) (o : Option A) (f : A → Option B)
    → Always Q o
    → ((a : A) → Q a → Always P (f a))
    → Always P (and_then o f)
Always-and_then Q P none f q h = tt
Always-and_then Q P (some a) f q h = h a q

abbrev pub Any : {A : Type 0} → A → Type 0
Any a = Unit {0}

pub Always-Any : {A : Type 0} (o : Option A) → Always Any o
Always-Any none = tt
Always-Any (some a) = tt

abbrev pub IsScoped : Fields → Type 0
IsScoped e = has_field "scope" e ≡ true

pub scope-IsScoped :
    (profile : Fields) (column : Option String) → Always (λ r. IsScoped r.1) (scope profile column)
unfolding scope
scope-IsScoped profile none = refl
scope-IsScoped profile (some name) = elim (Bool-cases (truthy (some name))) [
  | inr e ↦ rw e refl
  | inl e ↦ rw e (by_lookup (column_lookup name (get_field "columns" profile)))
]
  where
    by_lookup : (o : Option (Option Fields)) → Always (λ r. IsScoped r.1) (scope_of profile name o)
    by_lookup none = tt
    by_lookup (some none) = refl
    by_lookup (some (some p)) = refl
