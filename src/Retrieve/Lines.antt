-- ===== src/Retrieve/Lines.antt =====
-- The traversal of a Markdown tree as a walk along its nodes in order.
use fast_page.Prelude.{
  ◌≡◌, refl, sym, ap, ◌∙◌, Bool, false, Option, none, some, List, [], ◌∷◌, ◌++◌, if◌then◌else◌,
}
use fast_page.Prelude.Int.{ℤ}
use fast_page.Chars.{Text}
use fast_page.Toc.Items.{eq_ℤ}
use fast_page.Tree.Nodes.{Doc, doc, Docs, nil, cons}
use fast_page.Retrieve.Documents.{Fields, Found, visit_node, traverse_one, traverse}

-- The nodes of a tree, each before its children
unfoldable mutual
  pub node_fields : Doc Fields → List Fields
  node_fields (doc f id docs) = f ∷ tree_fields docs

  pub tree_fields : Docs Fields → List Fields
  tree_fields nil = []
  tree_fields (cons d ds) = node_fields d ++ tree_fields ds

module _ (low high : ℤ) where
  unfoldable pub visit_all : List Fields → Found → Found
  visit_all [] found = found
  visit_all (f ∷ fs) found = visit_all fs (visit_node low high f found)

  visit_all-append :
      (fs gs : List Fields) (found : Found)
      → visit_all (fs ++ gs) found ≡ visit_all gs (visit_all fs found)
  unfolding visit_all
  visit_all-append [] gs found = refl
  visit_all-append (f ∷ fs) gs found = visit_all-append fs gs (visit_node low high f found)

  mutual
    unfolding traverse traverse_one node_fields tree_fields visit_all

    traverse_one-visit_all :
        (d : Doc Fields) (found : Found)
        → traverse_one low high d found ≡ visit_all (node_fields d) found
    traverse_one-visit_all (doc f id docs) found =
        traverse-visit_all_parts docs (visit_node low high f found)

    traverse-visit_all_parts :
        (ds : Docs Fields) (found : Found)
        → traverse low high ds found ≡ visit_all (tree_fields ds) found
    traverse-visit_all_parts nil found = refl
    traverse-visit_all_parts (cons d ds) found =
        traverse-visit_all_parts ds (traverse_one low high d found)
        ∙ (ap (visit_all (tree_fields ds)) (traverse_one-visit_all d found)
            ∙ sym (visit_all-append (node_fields d) (tree_fields ds) found))

  pub traverse-visit_all :
      (ds : Docs Fields) (found : Found)
      → traverse low high ds found ≡ visit_all (tree_fields ds) found
  traverse-visit_all ds found = traverse-visit_all_parts ds found

-- The line of a node is this one.
abbrev pub is_line : ℤ → Option ℤ → Bool
is_line ln none = false
is_line ln (some m) = eq_ℤ m ln

-- The text of the first node with this line
unfoldable pub first_text : ℤ → List Fields → Option Text
first_text ln [] = none
first_text ln (f ∷ fs) =
    let rest = first_text ln fs in if is_line ln f.line_num then some f.text else rest
