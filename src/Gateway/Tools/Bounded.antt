-- ===== src/Gateway/Tools/Bounded.antt =====
-- What the results of the reading tools never hold.
use datagenie.Prelude.{
  String, ℕ, List, ◌==◌, ◌≡◌, some, false, none, ◌≤◌, arith, Bool, eq_iff, Option, ◌-◌, contains,
  ltb, refl, Bool-cases, true, inl, sym, ◌∙◌, inr,
}
use datagenie.Gateway.Tools.Calls.{bounded_asset, bounded_lineage, drop_unless}
use datagenie.Prelude.Json.{
  Value, Fields, Items, get_field, put_field, array, field, cons, end, nil,
}
use datagenie.Gateway.Tools.Types.{Settings}
use datagenie.Gateway.Tools.Values.{size_of, list_of, drop_field, take_items}

get_field-put_self :
    (k : String) (v : Value) (fs : Fields) → get_field k (put_field k v fs) ≡ some v
get_field-put_self k v end = ground (arith, eq_iff k k)
get_field-put_self k v (field j w fs) =
    ground (arith, eq_iff k k, eq_iff j k, get_field-put_self k v fs)

get_field-put_ne :
    (k j : String) (v : Value) (fs : Fields)
    → (j == k) ≡ false
    → get_field k (put_field j v fs) ≡ get_field k fs
get_field-put_ne k j v end h = ground arith
get_field-put_ne k j v (field i w fs) h =
    ground (arith, eq_iff i j, eq_iff i k, eq_iff j k, get_field-put_ne k j v fs h)

get_field-drop_field : (k : String) (fs : Fields) → get_field k (drop_field k fs) ≡ none
get_field-drop_field k end = refl
get_field-drop_field k (field j w fs) = ground (arith, get_field-drop_field k fs)

get_field-drop_none :
    (k j : String) (fs : Fields) → get_field k fs ≡ none → get_field k (drop_field j fs) ≡ none
get_field-drop_none k j end h = refl
get_field-drop_none k j (field i w fs) h = ground (arith, get_field-drop_none k j fs)

size_of-take_items : (n : ℕ) (vs : Items) → size_of (take_items n vs) ≤ n
size_of-take_items n nil = omega arith
size_of-take_items n (cons v vs) = ground (arith, size_of-take_items (n - 1) vs)

pub bounded_asset-technical_metadata :
    (includes : List String) (asset : Fields)
    → get_field "technical_metadata" (bounded_asset includes asset) ≡ none
unfolding bounded_asset
bounded_asset-technical_metadata includes asset =
    unless (contains "quality" includes) "quality_explainable_at" _ (
      unless (contains "quality" includes) "quality_score" _ (
        unless (contains "columns" includes) "columns" _
          (get_field-drop_field "technical_metadata" asset)))
  where
    unless :
        (b : Bool) (j : String) (fs : Fields)
        → get_field "technical_metadata" fs ≡ none
        → get_field "technical_metadata" (drop_unless b j fs) ≡ none
    unless true j fs h = h
    unless false j fs h = get_field-drop_none "technical_metadata" j fs h

pub bounded_lineage-nodes :
    (settings : Settings) (downstream : Fields) (nodes edges ns : Items)
    → list_of (get_field "nodes" downstream) ≡ some nodes
    → get_field "nodes" (bounded_lineage settings downstream nodes edges) ≡ some (array ns)
    → size_of ns ≤ settings.mcp_max_lineage_nodes
unfolding bounded_lineage
bounded_lineage-nodes settings downstream nodes edges ns found h =
    elim (Bool-cases (ltb settings.mcp_max_lineage_nodes (size_of nodes))) [
      | inl e ↦ cut (
          sym (
            get_field-put_ne "nodes" "edges" _
              (put_field "nodes" (array (take_items settings.mcp_max_lineage_nodes nodes))
                downstream)
              refl
            ∙ get_field-put_self "nodes" _ downstream)
          ∙ (rw e at h))
      | inr e ↦ whole (get_field "nodes" downstream) found (rw e at h) e
    ]
  where
    cut :
        some (array (take_items settings.mcp_max_lineage_nodes nodes)) ≡ some (array ns)
        → size_of ns ≤ settings.mcp_max_lineage_nodes
    cut q = grind (arith, size_of-take_items settings.mcp_max_lineage_nodes nodes)

    whole :
        (o : Option Value)
        → list_of o ≡ some nodes
        → o ≡ some (array ns)
        → ltb settings.mcp_max_lineage_nodes (size_of nodes) ≡ false
        → size_of ns ≤ settings.mcp_max_lineage_nodes
    whole o f q e = ground arith
