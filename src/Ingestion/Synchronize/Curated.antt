-- ===== src/Ingestion/Synchronize/Curated.antt =====
-- What synchronize_discovery of app/services/ingestion_service.py may do to the assets that are
-- there: it "never changes steward-curated fields".
use datagenie.Prelude.{
  String, List, Option, Bool, ◌∷◌, find_row, ◌≡◌, ◌∙◌, ◌++◌, keep, ℕ, some, ap, find_row-append,
  Bool-cases, false, true, inl, [], [], put_row, arith, inr, ◌==◌, Option-cases, refl, eq_iff,
  find_row-put_at, sym, find_row-put_ne, ◌&&◌, ◌≢◌, subst,
}
use datagenie.Catalog.Models.{Asset, AssetType, Instant, LifecycleStatus}
use datagenie.Prelude.Json.{Value}
use datagenie.Ingestion.Synchronize.{existing_for, replace_asset}
use datagenie.Ingestion.Technical.{same_asset_type}

-- What a steward decides of an asset, with its identity.
pub record Curation : Type 0 where
  pub id : String
  pub tenant_id : String
  pub source_id : String
  pub description : Option String
  pub tags : Value
  pub owner : Option String
  pub classification : Option String
  pub domain_id : Option String
  pub quality_score : Option ℕ
  pub quality_explainable_at : Option Instant
  pub lifecycle_status : LifecycleStatus
  pub curated_at : Option Instant

abbrev pub curation_of : Asset → Curation
curation_of a = record {
  id = a.id;
  tenant_id = a.tenant_id;
  source_id = a.source_id;
  description = a.description;
  tags = a.tags;
  owner = a.owner;
  classification = a.classification;
  domain_id = a.domain_id;
  quality_score = a.quality_score;
  quality_explainable_at = a.quality_explainable_at;
  lifecycle_status = a.lifecycle_status;
  curated_at = a.curated_at;
}

abbrev pub asset_of : String → List Asset → Option Asset
asset_of k assets = find_row (λ a. a.id) k assets

-- Every asset of the first table is in the second with its curation, and one that is not
-- chosen as it was.
abbrev pub Kept : (Asset → Bool) → List Asset → List Asset → Type 0
Kept chosen xs ys =
    (k : String) (a : Asset)
    → asset_of k xs ≡ some a
    → (b : Asset) × (asset_of k ys ≡ some b)
      × (curation_of b ≡ curation_of a)
      × (chosen a ≡ false → b ≡ a)

-- Each of the rows is read under its key, and is chosen.
abbrev pub Held : (Asset → Bool) → List Asset → List Asset → Type 0
Held chosen xs [] = Unit
Held chosen xs (e ∷ es) = (asset_of e.id xs ≡ some e) × (chosen e ≡ true) × Held chosen xs es

-- Each of the rows is read under its key, the primary key of the table.
abbrev pub Keyed : List Asset → List Asset → Type 0
Keyed xs [] = Unit
Keyed xs (e ∷ es) = (asset_of e.id xs ≡ some e) × Keyed xs es

module _ (chosen : Asset → Bool) where
  pub Kept-refl : (xs : List Asset) → Kept chosen xs xs
  Kept-refl xs k a h = (a, h, refl, λ _. refl)

  pub Kept-trans :
      (xs ys zs : List Asset) → Kept chosen xs ys → Kept chosen ys zs → Kept chosen xs zs
  Kept-trans xs ys zs f g k a h =
      let (b, found, same, left) = f k a h in
      let (c, found', same', left') = g k b found in
      (c, found', same' ∙ same, λ n. left' (ap chosen (left n) ∙ n) ∙ left n)

  pub Kept-append : (xs ys : List Asset) → Kept chosen xs (xs ++ ys)
  Kept-append xs ys k a h = (a, find_row-append (λ b. b.id) k xs ys a h, refl, λ _. refl)

  pub Kept-put :
      (e e' : Asset) (xs : List Asset)
      → asset_of e.id xs ≡ some e
      → chosen e ≡ true
      → curation_of e' ≡ curation_of e
      → Kept chosen xs (put_row (λ a. a.id) e' xs)
  Kept-put e e' xs found mine same k a h = elim (Bool-cases (k == e.id)) [
    | inl m ↦
        let at : k ≡ e.id = (eq_iff k e.id).0 m in
        let here : a ≡ e = ground (arith, ap (λ i. asset_of i xs) at) in
        (
          e',
          find_row-put_at (λ b. b.id) k e' a xs (ap (λ c. c.id) same ∙ sym at) h,
          same ∙ ap curation_of (sym here),
          λ n. absurd (ground (arith, ap chosen here)),
        )
    | inr m ↦
        let other : k ≢ e'.id = λ i. ground (arith, eq_iff k e.id, ap (λ c. c.id) same) in
        (a, find_row-put_ne (λ b. b.id) k e' xs other ∙ h, refl, λ _. refl)
  ]

  pub Held-append : (xs ys es : List Asset) → Held chosen xs es → Held chosen (xs ++ ys) es
  Held-append xs ys [] h = tt
  Held-append xs ys (e ∷ es) h =
      (find_row-append (λ b. b.id) e.id xs ys e h.0, h.1, Held-append xs ys es h.2)

  pub Held-put :
      (e e' : Asset) (xs es : List Asset)
      → asset_of e.id xs ≡ some e
      → e'.id ≡ e.id
      → chosen e' ≡ true
      → Held chosen xs es
      → Held chosen (put_row (λ a. a.id) e' xs) (replace_asset e' es)
  Held-put e e' xs [] found same mine h = tt
  Held-put e e' xs (o ∷ es) found same mine h =
      let rest = Held-put e e' xs es found same mine h.2 in
      elim (Bool-cases (o.id == e'.id)) [
        | inl m ↦ rw m (
          find_row-put_at (λ b. b.id) e'.id e' e xs refl (ap (λ i. asset_of i xs) same ∙ found),
          mine,
          rest,
        )
        | inr m ↦ rw m (
          find_row-put_ne (λ b. b.id) o.id e' xs (ground (arith, eq_iff o.id e'.id)) ∙ h.0,
          h.1,
          rest,
        )
      ]

  pub Held-existing_for :
      (t : AssetType) (q : String) (xs es : List Asset) (a : Asset)
      → Held chosen xs es
      → existing_for t q es ≡ some a
      → (asset_of a.id xs ≡ some a) × (chosen a ≡ true)
  unfolding existing_for
  Held-existing_for t q xs [] a h e = absurd (ground arith)
  Held-existing_for t q xs (o ∷ es) a h e = elim (Option-cases (existing_for t q es)) [
    | inr (b, f) ↦ Held-existing_for t q xs es a h.2 (ground arith)
    | inl f ↦ elim (Bool-cases (same_asset_type o.asset_type t && o.qualified_name == q)) [
      | inl g ↦
          let here : o ≡ a = ground arith in
          subst (λ x. (asset_of x.id xs ≡ some x) × (chosen x ≡ true)) here (h.0, h.1)
      | inr g ↦ absurd (ground arith)
    ]
  ]

  pub Held-keep : (xs es : List Asset) → Keyed xs es → Held chosen xs (keep chosen es)
  Held-keep xs [] h = tt
  Held-keep xs (e ∷ es) h = elim (Bool-cases (chosen e)) [
    | inl m ↦ rw m (h.0, m, Held-keep xs es h.1)
    | inr m ↦ rw m (Held-keep xs es h.1)
  ]
