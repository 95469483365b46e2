-- ===== src/Tree/Nodes.antt =====
-- `write_node_id`, `structure_to_list` and `create_node_mapping` of pageindex/utils.py, on trees
-- whose dictionaries have their children under "nodes". What else a dictionary holds is `data`.
use fast_page.Prelude.{ℕ, suc, ◌&&◌, not, Option, none, some, List, [], ◌∷◌, ◌++◌, if◌then◌else◌}
use fast_page.Chars.{Text, text_eq, is_empty}
use fast_page.Markdown.Build.{decimal, zfill}

mutual
  pub data Doc (A : Type 0) : Type 0 where
    doc : A → (node_id : Text) → Docs A → Doc A

  pub data Docs (A : Type 0) : Type 0 where
    nil : Docs A
    cons : Doc A → Docs A → Docs A

-- `str(node_id).zfill(4)`
abbrev pub id_text : ℕ → Text
id_text n = zfill 4 (decimal n)

module _ {A : Type 0} where
  unfoldable mutual
    -- The tree with its ids, and the next number
    pub write_node_id : Doc A → ℕ → Doc A × ℕ
    write_node_id (doc data' old docs) n =
        let (written, next) = write_node_ids docs (suc n) in (doc data' (id_text n) written, next)

    pub write_node_ids : Docs A → ℕ → Docs A × ℕ
    write_node_ids nil n = (nil, n)
    write_node_ids (cons d ds) n =
        let (d', m) = write_node_id d n in let (ds', k) = write_node_ids ds m in (cons d' ds', k)

  unfoldable mutual
    pub structure_to_list : Doc A → List (Doc A)
    structure_to_list (doc data' id docs) = doc data' id docs ∷ structures_to_list docs

    pub structures_to_list : Docs A → List (Doc A)
    structures_to_list nil = []
    structures_to_list (cons d ds) = structure_to_list d ++ structures_to_list ds

  abbrev pub node_id : Doc A → Text
  node_id (doc data' id docs) = id

  -- `mapping.get(id)`, where the mapping takes the nodes in order and a later one overwrites an
  -- earlier one; a node without an id is passed over.
  unfoldable pub find_node : Text → List (Doc A) → Option (Doc A)
  find_node id [] = none
  find_node id (d ∷ ds) = elim (find_node id ds) [
    | some e ↦ some e
    | none ↦ if text_eq (node_id d) id && not (is_empty (node_id d)) then some d else none
  ]

  unfoldable pub node_mapping : Docs A → Text → Option (Doc A)
  unfolding structures_to_list find_node
  node_mapping tree id = find_node id (structures_to_list tree)
