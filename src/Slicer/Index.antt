-- ===== src/Slicer/Index.antt =====
-- The views that indexing a slicer gives, and what they iterate and count (slicer.py).
use httk_store.Prelude.{
  ℕ, String, Bool, Option, none, some, List, [], ◌∷◌, not, if◌then◌else◌, contains, Result, ok, err,
  ◌>>=◌,
}
use httk_store.Slicer.{
  Node, Search, Refused, resolve, compile, bad_key, empty_projection, no_identifier, duplicate_name,
}
use httk_store.Slicer.Masks.{Mask, Column}

-- `Slicer.__iter__` and `Slicer.__len__`
unfoldable pub iter_slicer : {V : Type 0} (s : Search V) → List s.Rec
iter_slicer s = let (variable, searcher) = s.variable s.make in s.records variable searcher

unfoldable pub len_slicer : {V : Type 0} (s : Search V) → ℕ
len_slicer s = s.count (s.variable s.make).1

-- The searcher of a view with an op tree: a fresh one, with the compiled expression added.
unfoldable pub filtered : {V : Type 0} (s : Search V) → Node V → Option (s.Field × s.Searcher)
filtered s ast =
    let (variable, searcher) = s.variable s.make in
    elim (compile s ast variable) [ none ↦ none | some e ↦ some (variable, s.add e searcher) ]

-- `SlicerSelection.__iter__`, and `__len__` of a selection and of a projection.
unfoldable pub iter_selection : {V : Type 0} (s : Search V) → Node V → Option (List s.Rec)
unfolding filtered
iter_selection s ast = elim (filtered s ast) [
  | none ↦ none
  | some (variable, searcher) ↦ some (s.records variable searcher)
]

unfoldable pub len_selection : {V : Type 0} (s : Search V) → Node V → Option ℕ
unfolding filtered
len_selection s ast = elim (filtered s ast) [
  | none ↦ none
  | some (variable, searcher) ↦ some (s.count searcher)
]

-- `SlicerColumn.__iter__`
unfoldable pub column_searcher :
    {V : Type 0} (s : Search V) → Option (Node V) → Option (s.Field × s.Searcher)
unfolding filtered
column_searcher s none = some (s.variable s.make)
column_searcher s (some ast) = filtered s ast

unfoldable pub iter_column : {V : Type 0} (s : Search V) → Column V → Option (List V)
unfolding column_searcher
iter_column s c = elim (column_searcher s c.ast) [
  | none ↦ none
  | some (variable, searcher) ↦ elim (resolve s variable c.path) [
    | none ↦ none
    | some f ↦ some (s.values f searcher)
  ]
]

-- `_validate_names`; `none` is a name that is no string.
unfoldable pub check_names :
    (String → Bool) → List String → List (Option String) → Result Refused (List String)
check_names isidentifier seen [] = ok []
check_names isidentifier seen (none ∷ names) = err no_identifier
check_names isidentifier seen (some name ∷ names) =
    let rest = check_names isidentifier (name ∷ seen) names in
    if not (isidentifier name)
    then err no_identifier
    else if contains name seen
    then err duplicate_name
    else do checked ← rest; ok (name ∷ checked)

unfoldable pub validate_names :
    (String → Bool) → List (Option String) → Result Refused (List String)
unfolding check_names
validate_names isidentifier [] = err empty_projection
validate_names isidentifier (n ∷ names) = check_names isidentifier [] (n ∷ names)

-- What stands between the brackets of a slicer, and of a selection.
pub data Key (V : Type 0) : Type 0 where
  field_name : String → Key V
  mask_key : Mask V → Key V
  name_list : List (Option String) → Key V
  other_key : Key V

pub data View (V : Type 0) : Type 0 where
  column : Column V → View V
  selection : (slicer : ℕ) (ast : Node V) → View V
  projection : (slicer : ℕ) (ast : Node V) (names : List String) → View V

-- `Slicer.__getitem__`
unfoldable pub slicer_getitem : {V : Type 0} → ℕ → Key V → Result Refused (View V)
slicer_getitem slicer (field_name name) =
    ok (column (record { slicer = slicer; path = name ∷ []; ast = none }))
slicer_getitem slicer (mask_key mask) = ok (selection slicer mask.ast)
slicer_getitem slicer (name_list names) = err bad_key
slicer_getitem slicer other_key = err bad_key

-- `SlicerSelection.__getitem__`
unfoldable pub selection_getitem :
    {V : Type 0} → (String → Bool) → ℕ → Node V → Key V → Result Refused (View V)
unfolding validate_names
selection_getitem isidentifier slicer ast (field_name name) =
    ok (column (record { slicer = slicer; path = name ∷ []; ast = some ast }))
selection_getitem isidentifier slicer ast (mask_key mask) = err bad_key
selection_getitem isidentifier slicer ast (name_list names) = do
  checked ← validate_names isidentifier names
  ok (projection slicer ast checked)
selection_getitem isidentifier slicer ast other_key = err bad_key

-- The outputs of `SlicerProjection.__iter__`, and the method.
unfoldable pub outputs :
    {V : Type 0} (s : Search V) → s.Field → List String → Option (List (String × s.Field))
outputs s variable [] = some []
outputs s variable (name ∷ names) =
    let rest = outputs s variable names in
    elim (resolve s variable (name ∷ [])) [
      | none ↦ none
      | some f ↦ elim rest [ none ↦ none | some fs ↦ some ((name, f) ∷ fs) ]
    ]

unfoldable pub iter_projection :
    {V : Type 0} (s : Search V) → Node V → List String → Option (List (List V))
unfolding filtered
iter_projection s ast names = elim (filtered s ast) [
  | none ↦ none
  | some (variable, searcher) ↦ elim (outputs s variable names) [
    | none ↦ none
    | some fs ↦ some (s.rows fs searcher)
  ]
]
