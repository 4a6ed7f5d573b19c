-- ===== src/Ingestion/Discovery/Loops.antt =====
-- The two loops of `_sync_columns` in app/services/ingestion_service.py leave exactly the columns
-- that were discovered.
use mathlib.Core.List.{append-nil, append_assoc}
use datagenie.Prelude.{
  Option, List, String, find_row, some, ◌≡◌, ◌≢◌, if◌then◌else◌, ◌∷◌, ◌==◌, sym, Bool-cases, inl,
  ap, inr, eq_iff, ◌∙◌, arith, eq_refl, [], refl, ◌++◌, false, map, subst,
}
use datagenie.Ingestion.Discovery.{
  sync_incoming, sync_all_incoming, ColumnSync, column_of, same_column, sync_missing,
  sync_all_missing, put_named, by_name_from, by_name, sync_columns, DiscoveredColumn,
  discovered_column_snapshot,
}
use datagenie.Catalog.Models.{AssetColumn}
use datagenie.Ingestion.Discovery.Columns.{
  Named, append-Named, column_of-append, column_of-put_row, put_row-Named, same_column-eq,
  column_of-remove_column, remove_column-Named, by_name-Named,
}
use mathlib.Core.Option.{none}
use datagenie.Prelude.Json.{end}

abbrev found_or : Option AssetColumn → Option AssetColumn → Option AssetColumn
found_or (some c) o = some c
found_or none o = o

sync_incoming-column_of :
    (k : String) (old : Option AssetColumn) (c : AssetColumn) (s : ColumnSync)
    → old ≡ column_of c.name s.columns
    → column_of k (sync_incoming old c s).columns
      ≡ (if c.name == k then some c else column_of k s.columns)
unfolding sync_incoming
sync_incoming-column_of k none c s h = column_of-append k s.columns c (sym h)
sync_incoming-column_of k (some old) c s h = elim (Bool-cases (same_column old c)) [
  | inr e ↦ rw e (column_of-put_row k c old s.columns (sym h))
  | inl e ↦
      let same : old ≡ c = same_column-eq old c e in
      rw e (elim (Bool-cases (c.name == k)) [
        | inr f ↦ rw f
        | inl f ↦
            rw f
              (ap (λ n. column_of n s.columns) (sym ((eq_iff c.name k).0 f)) ∙ sym h ∙ ap some same)
      ])
]

sync_incoming-Named :
    (old : Option AssetColumn) (c : AssetColumn) (s : ColumnSync)
    → old ≡ column_of c.name s.columns
    → Named s.columns
    → Named (sync_incoming old c s).columns
unfolding sync_incoming
sync_incoming-Named none c s h n = append-Named s.columns c (sym h) n
sync_incoming-Named (some old) c s h n = elim (Bool-cases (same_column old c)) [
  | inl e ↦ rw e n
  | inr e ↦ rw e (put_row-Named c s.columns n)
]

-- The dictionary of the columns and the columns agree on the names that are still to come.
abbrev Agree : List AssetColumn → List AssetColumn → List AssetColumn → Type 0
Agree existing cs columns =
    (k : String) → column_of k cs ≢ none → column_of k existing ≡ column_of k columns

sync_all_incoming_lem :
    (existing cs : List AssetColumn) (s : ColumnSync)
    → Agree existing cs s.columns
    → Named cs
    → Named s.columns
    → ((k : String)
        → column_of k (sync_all_incoming existing cs s).columns
          ≡ found_or (column_of k cs) (column_of k s.columns))
      × Named (sync_all_incoming existing cs s).columns
unfolding sync_all_incoming find_row
sync_all_incoming_lem existing [] s agree n m = (λ k. refl, m)
sync_all_incoming_lem existing (c ∷ cs) s agree n m =
    let old : Option AssetColumn = column_of c.name existing in
    let s' : ColumnSync = sync_incoming old c s in
    let h : old ≡ column_of c.name s.columns = agree c.name (λ e. ground (arith, eq_refl c.name)) in
    let (later, kept) =
      sync_all_incoming_lem existing cs s' (agree_later c cs existing s agree n h) n.1
        (sync_incoming-Named old c s h m) in
    (λ k. later k ∙ joined k c cs old s n h, kept)
  where
    agree_later :
        (c : AssetColumn) (cs existing : List AssetColumn) (s : ColumnSync)
        → Agree existing (c ∷ cs) s.columns
        → Named (c ∷ cs)
        → column_of c.name existing ≡ column_of c.name s.columns
        → Agree existing cs (sync_incoming (column_of c.name existing) c s).columns
    agree_later c cs existing s agree n h k more = elim (Bool-cases (c.name == k)) [
      | inl e ↦ absurd (more (ap (λ x. column_of x cs) (sym ((eq_iff c.name k).0 e)) ∙ n.0))
      | inr e ↦
          agree k (rw e more)
          ∙ sym (sync_incoming-column_of k (column_of c.name existing) c s h ∙ rw e)
    ]

    joined :
        (k : String) (c : AssetColumn) (cs : List AssetColumn) (old : Option AssetColumn)
        (s : ColumnSync)
        → Named (c ∷ cs)
        → old ≡ column_of c.name s.columns
        → found_or (column_of k cs) (column_of k (sync_incoming old c s).columns)
          ≡ found_or (if c.name == k then some c else column_of k cs) (column_of k s.columns)
    joined k c cs old s n h = elim (Bool-cases (c.name == k)) [
      | inl e ↦
          let gone : column_of k cs ≡ none =
            ap (λ x. column_of x cs) (sym ((eq_iff c.name k).0 e)) ∙ n.0 in
          rw (gone, e) (sync_incoming-column_of k old c s h ∙ rw e)
      | inr e ↦ rw e (ap (found_or (column_of k cs)) (sync_incoming-column_of k old c s h ∙ rw e))
    ]

abbrev found_or_none : Option AssetColumn → Option AssetColumn → Option AssetColumn
found_or_none (some _) o = o
found_or_none none o = none

sync_missing-column_of :
    (k : String) (found : Option AssetColumn) (c : AssetColumn) (s : ColumnSync)
    → Named s.columns
    → (column_of k (sync_missing found c s).columns ≡ (
        if c.name == k then found_or_none found (column_of k s.columns) else column_of k s.columns))
      × Named (sync_missing found c s).columns
unfolding sync_missing
sync_missing-column_of k (some d) c s n = (ground arith, n)
sync_missing-column_of k none c s n =
    (column_of-remove_column k c.name s.columns n, remove_column-Named c.name s.columns n)

sync_all_missing-Named :
    (incoming cs : List AssetColumn) (s : ColumnSync)
    → Named s.columns
    → Named (sync_all_missing incoming cs s).columns
unfolding sync_all_missing
sync_all_missing-Named incoming [] s n = n
sync_all_missing-Named incoming (c ∷ cs) s n =
    let found : Option AssetColumn = column_of c.name incoming in
    sync_all_missing-Named incoming cs (sync_missing found c s)
      (sync_missing-column_of c.name found c s n).1

-- A column stays if its name was discovered, and goes if it was not.
sync_all_missing_lem :
    (incoming cs : List AssetColumn) (s : ColumnSync) (k : String)
    → Named s.columns
    → column_of k (sync_all_missing incoming cs s).columns ≡ elim (column_of k cs) [
      | none ↦ column_of k s.columns
      | some _ ↦ found_or_none (column_of k incoming) (column_of k s.columns)
    ]
unfolding sync_all_missing find_row
sync_all_missing_lem incoming [] s k n = refl
sync_all_missing_lem incoming (c ∷ cs) s k n =
    let found : Option AssetColumn = column_of c.name incoming in
    let (one, m) = sync_missing-column_of k found c s n in
    sync_all_missing_lem incoming cs (sync_missing found c s) k m
    ∙ elim (Bool-cases (c.name == k)) [
      | inr e ↦ rw e (ground (arith, one))
      | inl e ↦
          let same : column_of c.name incoming ≡ column_of k incoming =
            ap (λ x. column_of x incoming) ((eq_iff c.name k).0 e) in
          rw e (ground (arith, one, same))
    ]

new_name :
    (d c : AssetColumn) (ds cs : List AssetColumn)
    → column_of d.name (ds ++ c ∷ cs) ≡ none
    → (d.name == c.name) ≡ false
unfolding find_row
new_name d c [] cs h = ground (arith, eq_iff d.name c.name, eq_iff c.name d.name)
new_name d c (e ∷ ds) cs h = new_name d c ds cs (ground arith)

put_named-new :
    (named : List AssetColumn) (c : AssetColumn) (cs : List AssetColumn)
    → Named (named ++ c ∷ cs)
    → put_named c named ≡ named ++ c ∷ []
unfolding put_named
put_named-new [] c cs n = refl
put_named-new (d ∷ ds) c cs n =
    let other : (d.name == c.name) ≡ false = new_name d c ds cs n.0 in
    rw other (ap (λ x. d ∷ x) (put_named-new ds c cs n.1))

by_name_from-append :
    (named cs : List AssetColumn) → Named (named ++ cs) → by_name_from named cs ≡ named ++ cs
unfolding by_name_from
by_name_from-append named [] n = sym (append-nil named)
by_name_from-append named (c ∷ cs) n =
    let parts : named ++ c ∷ cs ≡ (named ++ c ∷ []) ++ cs = sym (append_assoc named (c ∷ []) cs) in
    ap (λ x. by_name_from x cs) (put_named-new named c cs n)
    ∙ by_name_from-append (named ++ c ∷ []) cs (subst Named parts n)
    ∙ sym parts

-- Columns of distinct names are their own dictionary.
by_name_lem : (cs : List AssetColumn) → Named cs → by_name cs ≡ cs
unfolding by_name
by_name_lem cs n = by_name_from-append [] cs n

-- The columns of an asset whose names are distinct are after a synchronisation, name by name, those
-- that were discovered, the last one where a name was discovered twice; the names stay distinct.
pub sync_columns_lem :
    (columns : List AssetColumn) (discovered : List DiscoveredColumn)
    → Named columns
    → ((k : String)
        → column_of k (sync_columns columns discovered).columns
          ≡ column_of k (by_name (map discovered_column_snapshot discovered)))
      × Named (sync_columns columns discovered).columns
unfolding sync_columns
sync_columns_lem columns discovered n =
    let incoming : List AssetColumn = by_name (map discovered_column_snapshot discovered) in
    let own : by_name columns ≡ columns = by_name_lem columns n in
    let s : ColumnSync =
      sync_all_incoming (by_name columns) incoming (record { columns = columns; changes = end }) in
    let (first, m) =
      sync_all_incoming_lem (by_name columns) incoming (record { columns = columns; changes = end })
        (λ k _. ap (column_of k) own) (by_name-Named (map discovered_column_snapshot discovered))
        n in
    (
      λ k.
          sync_all_missing_lem incoming (by_name columns) s k m
          ∙ ground (arith, first k, ap (column_of k) own),
      sync_all_missing-Named incoming (by_name columns) s m,
    )
