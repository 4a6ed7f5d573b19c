-- ===== src/Catalog/SearchIndex.antt =====
-- The writing half of apps/catalog-api/app/services/search_index_service.py: the document of an
-- asset, which is written in the transaction of the change. Lower case is that of ASCII.
use datagenie.Prelude.{
  String, List, Option, [], some, ◌∷◌, ◌++◌, none, none, map, find_row, put_row, if◌then◌else◌, eqb,
  ℕ, keep, length,
}
use datagenie.Prelude.Json.{
  Value, Items, object, nil, field, cons, text, bool, text_or_null, int, array, end, negative,
  fraction, texts, keys, null,
}
use datagenie.Catalog.Models.{AssetType, Asset, Instant, SearchDocument}
use datagenie.Catalog.Session.{scoped, Db, in_scope, Error, flush}
use datagenie.Prelude.Text.{Codes, codes, lower}
use datagenie.Prelude.Exec.{Result, Exec, pure, raised, ok, ◌>>◌, ◌>>=◌, gets}
use datagenie.Policy.Rules.{lifecycle_value}

-- What a call raises, as the text of the worker shows it: the type's name and the message.
pub record Failure : Type 0 where
  pub type_name : String
  pub message : String

abbrev pub characters : String → List String
characters String.[] = []
characters (String.◌∷◌ c s) = String.◌∷◌ c String.[] ∷ characters s

-- `asset.tags or []`, iterated: the elements of a list, the characters of a text and the keys of
-- a dictionary; another true value is not iterable.
abbrev pub iterated : Value → Option Items
iterated null = some nil
iterated (bool b) = if b then none else some nil
iterated (int n) = if eqb n 0 then some nil else none
iterated (negative n) = none
iterated (fraction s) = none
iterated (text s) = some (texts (characters s))
iterated (array vs) = some vs
iterated (object fs) = some (texts (keys fs))

-- `" ".join(...)`: an element that is no text is refused.
abbrev pub text_items : Items → Option (List Codes)
text_items nil = some []
text_items (cons (text s) vs) = elim (text_items vs) [ none ↦ none | some ss ↦ some (codes s ∷ ss) ]
text_items (cons _ vs) = none

unfoldable pub join_words : List Codes → Codes
join_words [] = []
join_words (w ∷ []) = w
join_words (w ∷ x ∷ ws) = w ++ (32 ∷ join_words (x ∷ ws))

abbrev pub or_empty : Option String → Codes
or_empty none = []
or_empty (some s) = codes s

abbrev pub asset_type_value : AssetType → String
asset_type_value AssetType.database = "database"
asset_type_value AssetType.schema = "schema"
asset_type_value AssetType.table = "table"
asset_type_value AssetType.view = "view"

abbrev pub quality_bucket : Option Instant → String
quality_bucket none = "unexplained"
quality_bucket (some t) = "explainable"

unfoldable pub facet_payload : Asset → Items → Value
facet_payload asset tags = object (
    field "asset_type" (text (asset_type_value asset.asset_type)) (
      field "lifecycle_status" (text (lifecycle_value asset.lifecycle_status)) (
        field "owner" (text_or_null asset.owner) (
          field "classification" (text_or_null asset.classification) (
            field "domain_id" (text_or_null asset.domain_id) (
              field "tags" (array tags) (
                field "quality_bucket" (text (quality_bucket asset.quality_explainable_at))
                  end)))))))

unfoldable pub document_text : Asset → List Codes → Codes
unfolding join_words
document_text asset tags = lower (
    join_words (
      codes asset.name
      ∷ codes asset.qualified_name
      ∷ or_empty asset.description
      ∷ or_empty asset.technical_description
      ∷ or_empty asset.owner
      ∷ or_empty asset.classification
      ∷ join_words tags
      ∷ join_words (map (λ c. codes c.name) asset.columns)
      ∷ []))

-- Python words the message by the value; here it is one for all.
abbrev pub not_iterable : Failure
not_iterable = record { type_name = "TypeError"; message = "object is not iterable" }

-- The text and the facets of a document, or what computing them raises.
unfoldable pub index_entry : Asset → Result Failure (Codes × Value)
unfolding document_text facet_payload
index_entry asset = elim (iterated asset.tags) [
  | none ↦ raised not_iterable
  | some vs ↦ elim (text_items vs) [
    | none ↦ raised not_iterable
    | some ss ↦ ok (document_text asset ss, facet_payload asset vs)
  ]
]

unfoldable pub get_document : String → Db → Option SearchDocument
unfolding scoped
get_document k db =
    scoped (λ d. d.tenant_id) (in_scope db) (find_row (λ d. d.asset_id) k db.work.documents)

-- A document that is new is added at the end; one that is there is written over.
abbrev pub put_document :
    Option SearchDocument → SearchDocument → List SearchDocument → List SearchDocument
put_document none d ds = ds ++ d ∷ []
put_document (some _) d ds = put_row (λ e. e.asset_id) d ds

abbrev pub document_of : Instant → String → Asset → Codes × Value → SearchDocument
document_of now tenant asset entry = record {
  tenant_id = tenant;
  asset_id = asset.id;
  document = entry.0;
  facets = entry.1;
  indexed_at = now;
}

abbrev pub tenant_of : String → Option SearchDocument → String
tenant_of session_tenant none = session_tenant
tenant_of session_tenant (some d) = d.tenant_id

abbrev pub store_entry :
    Instant → Asset → Result Failure (Codes × Value) → Exec Db Failure (Unit {0})
store_entry now asset (raised e) db = (raised e, db)
store_entry now asset (ok entry) db =
    let old = get_document asset.id db in
    (
      ok tt,
      record db {
        work = record db.work {
          documents =
              put_document old (document_of now (tenant_of db.tenant old) asset entry)
                db.work.documents;
        };
      },
    )

unfoldable pub index_asset : Instant → Asset → Exec Db Failure (Unit {0})
unfolding index_entry get_document
index_asset now asset = store_entry now asset (index_entry asset)

unfoldable pub index_assets : Instant → List Asset → Exec Db Failure (Unit {0})
unfolding index_asset
index_assets now [] = pure tt
index_assets now (a ∷ as') = index_asset now a >> index_assets now as'

-- A call of the session inside, whose failure has the driver's text.
abbrev pub or_failure : {A : Type 0} → Failure → Result Error A × Db → Result Failure A × Db
or_failure failure (ok a, db) = (ok a, db)
or_failure failure (raised e, db) = (raised failure, db)

unfoldable pub reindex_assets : Failure → Instant → Exec Db Failure ℕ
unfolding index_assets flush
reindex_assets broken now = do
  assets ← gets (λ db. keep (λ a. in_scope db a.tenant_id) db.work.assets)
  index_assets now assets
  λ db. or_failure broken (flush db)
  pure (length assets)
