-- ===== src/WorkspaceDocs/Spec/Safety.antt =====
-- What the three flags can and cannot do to the documents of a workspace.
use browzer_cli.Prelude.{
  Bool, true, false, not, ◌&&◌, ◌||◌, Option, none, some, List, [], ◌∷◌, ◌≡◌, refl, sym, ap, ◌∙◌,
  subst, select, map, any, All, arith, Bool-cases, inl, inr,
}
use browzer_cli.Prelude.Text.{Text, codes, text_eq}
use browzer_cli.Prelude.Text.Laws.{text_eq_refl}
use browzer_cli.Prelude.Assoc.{insert, lookup-insert}
use browzer_cli.Cache.Docs.{DocsCache}
use browzer_cli.WorkspaceDocs.Items.{DocPickerItem, has_local, compute_doc_delta}
use browzer_cli.WorkspaceDocs.Items.Delta.{deletes, inserts, compute_doc_delta_lists}
use browzer_cli.WorkspaceDocs.Spec.{
  Matched, is_matched, SpecResolver, match_items, sentinel_test, new_sentinel_resolver,
  select_indexed, select_matched, select_added, deselect_removed, apply_add, apply_remove,
  apply_specs_to_items,
}

select-none :
    (p : DocPickerItem → Bool) (f : DocPickerItem → DocPickerItem) (items : List DocPickerItem)
    → ((it : DocPickerItem) → p (f it) ≡ false)
    → select p (map f items) ≡ []
select-none p f [] h = refl
select-none p f (it ∷ items) h = rw (h it) (select-none p f items h)

select-map :
    (p q : DocPickerItem → Bool) (f : DocPickerItem → DocPickerItem) (items : List DocPickerItem)
    → ((it : DocPickerItem) → p (f it) ≡ q it)
    → select p (map f items) ≡ map f (select q items)
select-map p q f [] h = refl
select-map p q f (it ∷ items) h = ground (arith, h it, select-map p q f items h)

map-map :
    (f g : DocPickerItem → DocPickerItem) (items : List DocPickerItem)
    → map g (map f items) ≡ map (λ it. g (f it)) items
map-map f g [] = refl
map-map f g (it ∷ items) = ap (λ xs. g (f it) ∷ xs) (map-map f g items)

-- The map of the paths of the items that pass a test.
is_matched-match_items :
    (p : DocPickerItem → Bool) (items : List DocPickerItem) (m : Matched) (path : Text)
    → is_matched (match_items p items m) path
      ≡ (any (λ it. p it && text_eq it.relative_path path) items || is_matched m path)
unfolding match_items
is_matched-match_items p [] m path = refl
is_matched-match_items p (it ∷ items) m path = ground (
  arith,
  is_matched-match_items p items m path,
  is_matched-match_items p items (insert it.relative_path true m) path,
  lookup-insert it.relative_path path true m,
)

-- The plan for the items that the flags leave.
abbrev pub plan_to_delete :
    List DocPickerItem
    → Option SpecResolver
    → Option SpecResolver
    → Option SpecResolver
    → DocsCache
    → List DocPickerItem
plan_to_delete items add remove replace c =
    (compute_doc_delta (apply_specs_to_items items add remove replace).1 c).to_delete

abbrev pub plan_to_insert :
    List DocPickerItem
    → Option SpecResolver
    → Option SpecResolver
    → Option SpecResolver
    → DocsCache
    → List DocPickerItem
plan_to_insert items add remove replace c =
    (compute_doc_delta (apply_specs_to_items items add remove replace).1 c).to_insert

to_delete-select :
    (items : List DocPickerItem) (c : DocsCache)
    → (compute_doc_delta items c).to_delete ≡ select deletes items
to_delete-select items c = ap (λ plan. plan.to_delete) (compute_doc_delta_lists items c).0

to_insert-select :
    (items : List DocPickerItem) (c : DocsCache)
    → (compute_doc_delta items c).to_insert ≡ select inserts items
to_insert-select items c = ap (λ plan. plan.to_insert) (compute_doc_delta_lists items c).0

add_deletes_nothing :
    (items : List DocPickerItem) (spec : SpecResolver) (c : DocsCache)
    → plan_to_delete items (some spec) none none c ≡ []
unfolding apply_specs_to_items apply_add apply_remove
add_deletes_nothing items spec c =
    let matched = (spec.resolve (map select_indexed items)).0 in
    to_delete-select (map (select_added matched) (map select_indexed items)) c
    ∙ ap (select deletes) (map-map select_indexed (select_added matched) items)
    ∙ select-none deletes (λ it. select_added matched (select_indexed it)) items
        (λ it. ground arith)

remove_inserts_nothing :
    (items : List DocPickerItem) (spec : SpecResolver) (c : DocsCache)
    → plan_to_insert items none (some spec) none c ≡ []
unfolding apply_specs_to_items apply_add apply_remove has_local
remove_inserts_nothing items spec c =
    let matched = (spec.resolve (map select_indexed items)).0 in
    to_insert-select (map (deselect_removed matched) (map select_indexed items)) c
    ∙ ap (select inserts) (map-map select_indexed (deselect_removed matched) items)
    ∙ select-none inserts (λ it. deselect_removed matched (select_indexed it)) items
        (λ it. ground arith)

-- The item fails the test, or its path is matched.
abbrev IsCovered : (DocPickerItem → Bool) → Matched → DocPickerItem → Type 0
IsCovered p m it = (not (p it) || is_matched m it.relative_path) ≡ true

covered :
    (p : DocPickerItem → Bool) (m : Matched) (items : List DocPickerItem)
    → ((path : Text)
        → any (λ it. p it && text_eq it.relative_path path) items ≡ true
        → is_matched m path ≡ true)
    → All (IsCovered p m) items
covered p m [] h = tt
covered p m (it ∷ items) h = (
  elim (Bool-cases (p it)) [
    | inl e ↦ rw (e, h it.relative_path (rw (e, text_eq_refl it.relative_path) refl)) refl
    | inr e ↦ rw e refl
  ],
  covered p m items (λ path k. h path (ground arith)),
)

local_kept :
    (m : Matched) (items : List DocPickerItem)
    → All (IsCovered has_local m) items
    → All (λ it. has_local it ≡ false) (select deletes (map (select_matched m) items))
unfolding has_local
local_kept m [] h = tt
local_kept m (it ∷ items) (e, h) =
    let rest : All (λ it. has_local it ≡ false) (select deletes (map (select_matched m) items)) =
      local_kept m items h in
    elim (Bool-cases (deletes (select_matched m it))) [
      | inl d ↦ rw d (ground arith, rest)
      | inr d ↦ rw d rest
    ]

sentinel_test-all : (it : DocPickerItem) → sentinel_test (codes "all") it ≡ has_local it
unfolding sentinel_test text_eq
sentinel_test-all it = refl

replace-All_keeps_local :
    (raw : Text) (items : List DocPickerItem) (c : DocsCache)
    → All
        (λ it. has_local it ≡ false)
        (plan_to_delete items none none (some (new_sentinel_resolver raw (codes "all"))) c)
unfolding apply_specs_to_items new_sentinel_resolver
replace-All_keeps_local raw items c =
    let m : Matched = match_items (sentinel_test (codes "all")) items [] in
    subst (All (λ it. has_local it ≡ false))
      (sym (to_delete-select (map (select_matched m) items) c))
      (local_kept m items (
        covered has_local m items (λ path e.
          is_matched-match_items (sentinel_test (codes "all")) items [] path ∙ ground (arith, e))))

-- With --add alone nothing is deleted, and with --remove alone nothing is inserted, whatever their
-- specs select. With --replace all no document is deleted that has a local file.
pub selection_safe :
    (items : List DocPickerItem) (spec : SpecResolver) (raw : Text) (c : DocsCache)
    → (plan_to_delete items (some spec) none none c ≡ [])
      × (plan_to_insert items none (some spec) none c ≡ [])
      × All
          (λ it. has_local it ≡ false)
          (plan_to_delete items none none (some (new_sentinel_resolver raw (codes "all"))) c)
selection_safe items spec raw c = (
  add_deletes_nothing items spec c,
  remove_inserts_nothing items spec c,
  replace-All_keeps_local raw items c,
)
