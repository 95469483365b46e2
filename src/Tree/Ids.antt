-- ===== src/Tree/Ids.antt =====
-- The ids that `write_node_id` writes are consecutive, and the mapping finds every node by its own.
use fast_page.Prelude.{
  ℕ, zero, suc, ◌+◌, ◌-◌, ◌<◌, ◌≡◌, inl, inr, refl, sym, ap, subst, ◌∙◌, true, false, none, some,
  List, [], ◌∷◌, ◌++◌, map, arith, length, length-append, Bool-cases, Has,
}
use fast_page.Chars.{Text, text_eq, is_empty}
use fast_page.Markdown.Build.{decimal, zfill, zeros}
use fast_page.Tree.Nodes.{
  Doc, doc, Docs, nil, cons, id_text, write_node_id, write_node_ids, structure_to_list,
  structures_to_list, node_id, find_node, node_mapping,
}
use fast_page.Tree.Numbers.{read_digits, read-id_text}

-- The ids of `k` nodes from the number `n` on
abbrev pub ids_from : ℕ → ℕ → List Text
ids_from n zero = []
ids_from n (suc k) = id_text n ∷ ids_from (suc n) k

ids_from-sum : (n a b : ℕ) → ids_from n (a + b) ≡ ids_from n a ++ ids_from (n + a) b
ids_from-sum n zero b = ground arith
ids_from-sum n (suc a) b =
    let left : suc a + b ≡ suc (a + b) = omega arith in
    let right : suc n + a ≡ n + suc a = omega arith in
    rw (left, ← right) (ap (λ ts. id_text n ∷ ts) (ids_from-sum (suc n) a b))

map-append : {A B : Type 0} (f : A → B) (xs ys : List A) → map f (xs ++ ys) ≡ map f xs ++ map f ys
map-append f [] ys = refl
map-append f (x ∷ xs) ys = ap (λ zs. f x ∷ zs) (map-append f xs ys)

length-map : {A B : Type 0} (f : A → B) (xs : List A) → length (map f xs) ≡ length xs
length-map f [] = refl
length-map f (x ∷ xs) = ap suc (length-map f xs)

module _ {A : Type 0} where
  abbrev pub data_of : Doc A → A
  data_of (doc data' id docs) = data'

  mutual
    unfolding write_node_id structure_to_list

    ids-write_node_id :
        (d : Doc A) (n : ℕ)
        → (map node_id (structure_to_list (write_node_id d n).0)
            ≡ ids_from n (length (structure_to_list d)))
          × (map data_of (structure_to_list (write_node_id d n).0)
              ≡ map data_of (structure_to_list d))
          × ((write_node_id d n).1 ≡ n + length (structure_to_list d))
    ids-write_node_id (doc data' id docs) n =
        let (ids, datas, next) = ids-write_node_ids docs (suc n) in
        (ap (λ ts. id_text n ∷ ts) ids, ap (λ xs. data' ∷ xs) datas, omega (arith, next))

    ids-write_node_ids :
        (ds : Docs A) (n : ℕ)
        → (map node_id (structures_to_list (write_node_ids ds n).0)
            ≡ ids_from n (length (structures_to_list ds)))
          × (map data_of (structures_to_list (write_node_ids ds n).0)
              ≡ map data_of (structures_to_list ds))
          × ((write_node_ids ds n).1 ≡ n + length (structures_to_list ds))
    ids-write_node_ids nil n = (refl, refl, omega arith)
    ids-write_node_ids (cons d ds) n =
        let (ids, datas, next) = ids-write_node_id d n in
        let (ids', datas', next') = ids-write_node_ids ds (write_node_id d n).1 in
        let size = length-append (structure_to_list d) (structures_to_list ds) in
        (
          map-append node_id (structure_to_list (write_node_id d n).0)
                (structures_to_list (write_node_ids ds (write_node_id d n).1).0)
              ∙ ap
                  (λ ts.
                    ts
                    ++ map node_id (structures_to_list (write_node_ids ds (write_node_id d n).1).0))
                  ids
              ∙ ap (λ ts. ids_from n (length (structure_to_list d)) ++ ts)
                  (ids' ∙ ap (λ m. ids_from m (length (structures_to_list ds))) next)
              ∙ sym (ids_from-sum n (length (structure_to_list d)) (length (structures_to_list ds)))
              ∙ ap (ids_from n) (sym size),
          map-append data_of (structure_to_list (write_node_id d n).0)
                (structures_to_list (write_node_ids ds (write_node_id d n).1).0)
              ∙ ap
                  (λ xs.
                    xs
                    ++ map data_of (structures_to_list (write_node_ids ds (write_node_id d n).1).0))
                  datas
              ∙ ap (λ xs. map data_of (structure_to_list d) ++ xs) datas'
              ∙ sym (map-append data_of (structure_to_list d) (structures_to_list ds)),
          omega (arith, next, next', size),
        )

text_eq-eq : (s t : Text) → text_eq s t ≡ true → s ≡ t
unfolding text_eq
text_eq-eq [] [] h = refl
text_eq-eq [] (d ∷ t) h = ground arith
text_eq-eq (c ∷ s) [] h = ground arith
text_eq-eq (c ∷ s) (d ∷ t) h = ground (arith, text_eq-eq s t)

text_eq_refl : (t : Text) → text_eq t t ≡ true
unfolding text_eq
text_eq_refl [] = refl
text_eq_refl (c ∷ t) = ground (arith, text_eq_refl t)

id_text-injective : (m n : ℕ) → id_text m ≡ id_text n → m ≡ n
id_text-injective m n h = sym (read-id_text m) ∙ ap (read_digits 0) h ∙ read-id_text n

length-zeros : (k : ℕ) (t : Text) → length (zeros k t) ≡ k + length t
length-zeros zero t = omega arith
length-zeros (suc k) t = omega (arith, length-zeros k t)

nonempty : (t : Text) → 0 < length t → is_empty t ≡ false
nonempty [] h = absurd (omega arith)
nonempty (c ∷ t) h = refl

id_text-nonempty : (n : ℕ) → is_empty (id_text n) ≡ false
unfolding zfill
id_text-nonempty n =
    nonempty (id_text n) (omega (arith, length-zeros (4 - length (decimal n)) (decimal n)))

differ : (m k : ℕ) → k < m → text_eq (id_text m) (id_text k) ≡ false
differ m k lt = elim (Bool-cases (text_eq (id_text m) (id_text k))) [
  | inl same ↦
      absurd (omega (arith, id_text-injective m k (text_eq-eq (id_text m) (id_text k) same), lt))
  | inr other ↦ other
]

cons-parts : {x y : Text} {xs ys : List Text} → x ∷ xs ≡ y ∷ ys → (x ≡ y) × (xs ≡ ys)
cons-parts h = (cc, cc)

module _ {A : Type 0} where
  find_node-none :
      (ds : List (Doc A)) (k n : ℕ)
      → map node_id ds ≡ ids_from n (length ds)
      → k < n
      → find_node (id_text k) ds ≡ none
  unfolding find_node
  find_node-none [] k n h lt = refl
  find_node-none (d ∷ ds) k n h lt =
      let (head, tail) = cons-parts h in
      let other : text_eq (node_id d) (id_text k) ≡ false = rw head (differ n k lt) in
      rw (find_node-none ds k (suc n) tail (omega (arith, lt)), other) refl

  same_size :
      (ds es : Docs A)
      → map data_of (structures_to_list ds) ≡ map data_of (structures_to_list es)
      → length (structures_to_list es) ≡ length (structures_to_list ds)
  same_size ds es h =
      sym (length-map data_of (structures_to_list es))
      ∙ ap length (sym h)
      ∙ length-map data_of (structures_to_list ds)

  find_node-own :
      (ds : List (Doc A)) (n : ℕ) (e : Doc A)
      → map node_id ds ≡ ids_from n (length ds)
      → Has e ds
      → find_node (node_id e) ds ≡ some e
  unfolding find_node
  find_node-own [] n e h there = absurd there
  find_node-own (d ∷ ds) n e h (inl same) =
      let (head, tail) = cons-parts h in
      let absent : find_node (node_id d) ds ≡ none =
        rw head (find_node-none ds n (suc n) tail (omega arith)) in
      let full : is_empty (node_id d) ≡ false = rw head (id_text-nonempty n) in
      subst (λ x. find_node (node_id x) (d ∷ ds) ≡ some x) same
        (rw (absent, text_eq_refl (node_id d), full) refl)
  find_node-own (d ∷ ds) n e h (inr later) =
      let (head, tail) = cons-parts h in rw (find_node-own ds (suc n) e tail later) refl

  -- Numbering a tree from 0 gives its nodes, in the order of `structure_to_list`, the ids of 0, 1, 2
  -- and so on, keeps what else they hold, and lets the mapping find every node by its own id.
  pub write_node_ids_lem :
      (tree : Docs A)
      → let written = (write_node_ids tree 0).0 in
        (map node_id (structures_to_list written) ≡ ids_from 0 (length (structures_to_list tree)))
        × (map data_of (structures_to_list written) ≡ map data_of (structures_to_list tree))
        × ((e : Doc A)
            → Has e (structures_to_list written)
            → node_mapping written (node_id e) ≡ some e)
  unfolding node_mapping
  write_node_ids_lem tree =
      let written = (write_node_ids tree 0).0 in
      let (ids, datas, next) = ids-write_node_ids tree 0 in
      (
        ids,
        datas,
        λ e there.
            find_node-own (structures_to_list written) 0 e
              (ids ∙ ap (ids_from 0) (same_size written tree datas)) there,
      )
