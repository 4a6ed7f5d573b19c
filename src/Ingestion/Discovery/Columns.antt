-- ===== src/Ingestion/Discovery/Columns.antt =====
-- What the synchronisation of an asset's columns comes to.
use datagenie.Prelude.{
  List, find_row, String, put_row, ◌∷◌, [], ◌≡◌, none, if◌then◌else◌, Bool-cases, some, true, ◌==◌,
  ◌++◌, ◌≢◌, arith, eq_iff, ◌∙◌, inl, same_bool-eq, refl, inr, same_text-eq,
}
use datagenie.Ingestion.Discovery.{
  put_named, by_name_from, by_name, same_column, remove_column, column_of,
}
use datagenie.Catalog.Models.{AssetColumn}

-- A name stands for one column, which the database ensures by a unique constraint.
abbrev pub Named : List AssetColumn → Type 0
Named [] = Unit
Named (c ∷ cs) = (column_of c.name cs ≡ none) × Named cs

pub column_of-put_named :
    (k : String) (c : AssetColumn) (cs : List AssetColumn)
    → column_of k (put_named c cs) ≡ (if c.name == k then some c else column_of k cs)
unfolding put_named find_row
column_of-put_named k c [] = refl
column_of-put_named k c (d ∷ ds) =
    ground
      (arith, eq_iff d.name c.name, eq_iff d.name k, eq_iff c.name k, column_of-put_named k c ds)

pub put_named-Named : (c : AssetColumn) (cs : List AssetColumn) → Named cs → Named (put_named c cs)
unfolding put_named find_row
put_named-Named c [] h = (refl, tt)
put_named-Named c (d ∷ ds) h = elim (Bool-cases (d.name == c.name)) [
  | inl e ↦ rw e (ground (arith, eq_iff d.name c.name), h.1)
  | inr e ↦ rw e (
    column_of-put_named d.name c ds ∙ ground (arith, eq_iff d.name c.name, eq_iff c.name d.name),
    put_named-Named c ds h.1,
  )
]

pub by_name_from-Named : (named cs : List AssetColumn) → Named named → Named (by_name_from named cs)
unfolding by_name_from
by_name_from-Named named [] h = h
by_name_from-Named named (c ∷ cs) h =
    by_name_from-Named (put_named c named) cs (put_named-Named c named h)

pub by_name-Named : (cs : List AssetColumn) → Named (by_name cs)
unfolding by_name
by_name-Named cs = by_name_from-Named [] cs tt

pub column_of-append :
    (k : String) (cs : List AssetColumn) (c : AssetColumn)
    → column_of c.name cs ≡ none
    → column_of k (cs ++ c ∷ []) ≡ (if c.name == k then some c else column_of k cs)
unfolding find_row
column_of-append k [] c h = refl
column_of-append k (d ∷ ds) c h =
    ground (arith, eq_iff d.name c.name, eq_iff d.name k, eq_iff c.name k, column_of-append k ds c)

pub append-Named :
    (cs : List AssetColumn) (c : AssetColumn)
    → column_of c.name cs ≡ none
    → Named cs
    → Named (cs ++ c ∷ [])
unfolding find_row
append-Named [] c h n = (refl, tt)
append-Named (d ∷ ds) c h n =
    let other : column_of c.name ds ≡ none = ground (arith) in
    (
      column_of-append d.name ds c other
          ∙ ground (arith, eq_iff d.name c.name, eq_iff c.name d.name),
      append-Named ds c other n.1,
    )

pub column_of-put_row :
    (k : String) (c old : AssetColumn) (cs : List AssetColumn)
    → column_of c.name cs ≡ some old
    → column_of k (put_row (λ d. d.name) c cs) ≡ (if c.name == k then some c else column_of k cs)
unfolding find_row put_row
column_of-put_row k c old [] h = absurd (ground arith)
column_of-put_row k c old (d ∷ ds) h =
    ground
      (arith, eq_iff d.name c.name, eq_iff d.name k, eq_iff c.name k, column_of-put_row k c old ds)

column_of-put_row_missing :
    (k : String) (c : AssetColumn) (cs : List AssetColumn)
    → column_of k cs ≡ none
    → c.name ≢ k
    → column_of k (put_row (λ d. d.name) c cs) ≡ none
unfolding find_row put_row
column_of-put_row_missing k c [] h ne = refl
column_of-put_row_missing k c (d ∷ ds) h ne = ground (
  arith,
  eq_iff d.name c.name,
  eq_iff d.name k,
  eq_iff c.name k,
  column_of-put_row_missing k c ds,
)

pub put_row-Named :
    (c : AssetColumn) (cs : List AssetColumn) → Named cs → Named (put_row (λ d. d.name) c cs)
unfolding find_row put_row
put_row-Named c [] n = tt
put_row-Named c (d ∷ ds) n = elim (Bool-cases (d.name == c.name)) [
  | inl e ↦ rw e (ground (arith, eq_iff d.name c.name), n.1)
  | inr e ↦ rw e (
    column_of-put_row_missing d.name c ds n.0 (ground (arith, eq_iff d.name c.name)),
    put_row-Named c ds n.1,
  )
]

pub column_of-remove_column :
    (k name : String) (cs : List AssetColumn)
    → Named cs
    → column_of k (remove_column name cs) ≡ (if name == k then none else column_of k cs)
unfolding find_row remove_column
column_of-remove_column k name [] n = ground arith
column_of-remove_column k name (d ∷ ds) n =
    ground
      (arith, eq_iff d.name name, eq_iff d.name k, eq_iff name k, column_of-remove_column k name ds)

pub remove_column-Named :
    (name : String) (cs : List AssetColumn) → Named cs → Named (remove_column name cs)
unfolding find_row remove_column
remove_column-Named name [] n = tt
remove_column-Named name (d ∷ ds) n = elim (Bool-cases (d.name == name)) [
  | inl e ↦ rw e n.1
  | inr e ↦
      rw e
        (column_of-remove_column d.name name ds n.1 ∙ ground arith, remove_column-Named name ds n.1)
]

-- Columns that compare equal are equal.
pub same_column-eq : (c d : AssetColumn) → same_column c d ≡ true → c ≡ d
unfolding same_column
same_column-eq c d h = ground (
  arith,
  eq_iff c.name d.name,
  eq_iff c.data_type d.data_type,
  same_bool-eq c.is_nullable d.is_nullable,
  same_text-eq c.default_value d.default_value,
  same_text-eq c.technical_description d.technical_description,
)
