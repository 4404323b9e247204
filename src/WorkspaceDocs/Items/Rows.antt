-- ===== src/WorkspaceDocs/Items/Rows.antt =====
-- The map of mergeDocItems has one row for each path at most, and so has the sorted list.
use browzer_cli.Prelude.{
  Bool, Option, none, some, List, [], ◌∷◌, ◌≡◌, refl, sym, ap, ◌∙◌, arith, select, Bool-cases, inl,
  inr,
}
use browzer_cli.Prelude.Text.{Text, text_eq}
use browzer_cli.Prelude.Text.Laws.{text_eq_iff}
use browzer_cli.Prelude.Assoc.{lookup, insert, lookup-insert}
use browzer_cli.Prelude.Sort.{sort, sort-select_none, sort-select_one}
use browzer_cli.Cache.Docs.{DocFile}
use browzer_cli.WorkspaceDocs.Items.{
  DocPickerItem, IndexedDocument, local_item, index_item, new_item, found_or_new, add_local,
  add_server, path_less, values,
}

-- No path has two rows, and the item of a row has its path.
abbrev pub IsMap : List (Text × DocPickerItem) → Type 0
IsMap [] = Unit
IsMap ((k, it) ∷ m) = (it.relative_path ≡ k) × (lookup k m ≡ none) × IsMap m

insert-IsMap :
    (k : Text) (it : DocPickerItem) (m : List (Text × DocPickerItem))
    → it.relative_path ≡ k
    → IsMap m
    → IsMap (insert k it m)
unfolding insert lookup
insert-IsMap k it [] e h = (e, refl, tt)
insert-IsMap k it ((j, it') ∷ m) e (e', n, h) = elim (Bool-cases (text_eq j k)) [
  | inl s ↦ rw s (e ∙ sym ((text_eq_iff j k).0 s), n, h)
  | inr s ↦ rw s (
    e',
    lookup-insert k j it m ∙ ground (arith, text_eq_iff j k, text_eq_iff k j, n),
    insert-IsMap k it m e h,
  )
]

pub add_local-IsMap :
    (fs : List DocFile) (m : List (Text × DocPickerItem)) → IsMap m → IsMap (add_local fs m)
unfolding add_local
add_local-IsMap [] m h = h
add_local-IsMap (f ∷ fs) m h =
    add_local-IsMap fs (insert f.relative_path (local_item f) m)
      (insert-IsMap f.relative_path (local_item f) m (unfold local_item in refl) h)

found-path :
    (k : Text) (m : List (Text × DocPickerItem))
    → IsMap m
    → (found_or_new k (lookup k m)).relative_path ≡ k
unfolding lookup
found-path k [] h = unfold new_item in refl
found-path k ((j, it) ∷ m) (e, n, h) = elim (Bool-cases (text_eq j k)) [
  | inl s ↦ rw s (e ∙ (text_eq_iff j k).0 s)
  | inr s ↦ rw s (found-path k m h)
]

pub add_server-IsMap :
    (ds : List IndexedDocument) (m : List (Text × DocPickerItem))
    → IsMap m
    → IsMap (add_server ds m)
unfolding add_server
add_server-IsMap [] m h = h
add_server-IsMap (d ∷ ds) m h =
    let it : DocPickerItem =
      index_item d (found_or_new d.relative_path (lookup d.relative_path m)) in
    add_server-IsMap ds (insert d.relative_path it m)
      (insert-IsMap d.relative_path it m (unfold index_item in found-path d.relative_path m h) h)

abbrev pub has_path : Text → DocPickerItem → Bool
unfolding text_eq
has_path p it = text_eq it.relative_path p

-- The item that there is, as a list.
abbrev pub at_most_one : Option DocPickerItem → List DocPickerItem
at_most_one none = []
at_most_one (some it) = it ∷ []

pub values-select :
    (p : Text) (m : List (Text × DocPickerItem))
    → IsMap m
    → select (has_path p) (values m) ≡ at_most_one (lookup p m)
unfolding lookup
values-select p [] h = refl
values-select p ((j, it) ∷ m) (e, n, h) =
    let same : has_path p it ≡ text_eq j p = unfold has_path in ap (λ k. text_eq k p) e in
    elim (Bool-cases (text_eq j p)) [
      | inl s ↦
          rw (same ∙ s, s)
            (ap (λ xs. it ∷ xs)
              (values-select p m h
                ∙ ap at_most_one (ap (λ q. lookup q m) (sym ((text_eq_iff j p).0 s)) ∙ n)))
      | inr s ↦ rw (same ∙ s, s) (values-select p m h)
    ]

pub sort-at_most_one :
    (p : DocPickerItem → Bool) (o : Option DocPickerItem) (xs : List DocPickerItem)
    → select p xs ≡ at_most_one o
    → select p (sort path_less xs) ≡ at_most_one o
sort-at_most_one p none xs h = sort-select_none path_less p xs h
sort-at_most_one p (some it) xs h = sort-select_one path_less p it xs h
