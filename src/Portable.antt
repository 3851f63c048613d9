-- ===== src/Portable.antt =====
-- src/httk/store/query/portable.py: the query fields and operations that a property definition
-- guarantees.
pub mod Fields
mod Tests
use httk_store.Prelude.{
  String, Bool, true, false, Option, none, some, List, [], ◌∷◌, ◌++◌, ◌==◌, ◌&&◌, ◌||◌, not,
  if◌then◌else◌, contains, map, Result, ok, err, ◌>>=◌,
}
use httk_store.Prelude.Dict.{Dict}

-- What is read of a PropertyDefinition: its `query-support` requirement, with `none` for a missing
-- one and `some none` for one that is no text; its type; and the item type of its `items`, with
-- `none` where `items` is no mapping and `some none` where the type is no text.
pub record PropertyDefinition : Type 0 where
  pub requirement : Option (Option String)
  pub optimade_type : String
  pub items : Option (Option String)

-- PortableQueryCapabilities
pub record Capabilities : Type 0 where
  pub query_support : Option String
  pub operations : List String

-- `supports`
unfoldable pub supports : Capabilities → String → Bool
supports c operation = contains operation c.operations

abbrev pub scalar_types : List String
scalar_types = "boolean" ∷ "string" ∷ "integer" ∷ "float" ∷ "timestamp" ∷ []

abbrev pub structured_types : List String
structured_types = "list" ∷ "dictionary" ∷ "object" ∷ []

-- The ValueErrors of `_names`.
pub data NameError : Type 0 where
  not_text duplicate unknown_name : NameError

-- `_names`; `none` is a name that is no text, and `names` the ones seen before.
unfoldable pub names_from :
    List String → List String → List (Option String) → Result NameError (List String)
names_from known names [] = ok names
names_from known names (none ∷ rest) = err not_text
names_from known names (some name ∷ rest) =
    let later = names_from known (name ∷ names) rest in
    if contains name names
    then err duplicate
    else if not (contains name known)
    then err unknown_name
    else later

-- `str.casefold` is Python's.
module _ (casefold : String → String) where
  -- `_query_support`
  unfoldable pub query_support : Option (Option String) → Option String
  query_support none = none
  query_support (some none) = none
  query_support (some (some support)) = some (casefold support)

  -- `_is_flat_list`
  unfoldable pub is_flat_list : Option (Option String) → Bool
  is_flat_list none = false
  is_flat_list (some none) = true
  is_flat_list (some (some item_type)) = not (contains (casefold item_type) structured_types)

  -- `_is_portable_type`
  unfoldable pub is_portable_type : PropertyDefinition → Bool
  unfolding is_flat_list
  is_portable_type d =
      contains (casefold d.optimade_type) scalar_types
      || (casefold d.optimade_type == "list" && is_flat_list d.items)

  -- The operations of a definition of mandatory support, by its kind.
  unfoldable pub kind_operations : String → List String
  kind_operations kind =
      if kind == "list"
      then "set" ∷ []
      else "equality"
        ∷ ((if kind == "boolean" then [] else "ordering" ∷ [])
            ++ (if kind == "string" then "stringmatching" ∷ [] else []))

  -- The operations by the declared level.
  unfoldable pub level_operations : Option String → PropertyDefinition → List String
  unfolding kind_operations is_portable_type
  level_operations none d = []
  level_operations (some support) d =
      if support == "equality only"
      then "equality" ∷ []
      else if support == "all mandatory" && is_portable_type d
      then kind_operations (casefold d.optimade_type)
      else []

  -- `portable_query_capabilities`
  unfoldable pub portable_query_capabilities : PropertyDefinition → Capabilities
  unfolding level_operations query_support
  portable_query_capabilities d =
      let support = query_support d.requirement in
      record { query_support = support; operations = level_operations support d }

  abbrev pub has_operations : PropertyDefinition → Bool
  has_operations d = elim ((portable_query_capabilities d).operations) [ [] ↦ false | _ ∷ _ ↦ true ]

  -- The derived group of `portable_query_fields`.
  unfoldable pub derived : List String → Dict PropertyDefinition → List String
  derived excluded [] = []
  derived excluded ((name, d) ∷ rest) =
      let later = derived excluded rest in
      if not (contains name excluded) && has_operations d then name ∷ later else later

  -- The included group, one name after another.
  unfoldable pub extended : List String → List String → List String → List String → List String
  extended included excluded selected [] = selected
  extended included excluded selected (name ∷ names) =
      extended included excluded
        (if contains name included && (not (contains name excluded) && not (contains name selected))
          then selected ++ name ∷ []
          else selected)
        names

  abbrev pub property_names : Dict PropertyDefinition → List String
  property_names properties = map (λ p. p.0) properties

  -- `portable_query_fields`
  unfoldable pub portable_query_fields :
      Dict PropertyDefinition
      → List (Option String)
      → List (Option String)
      → Result NameError (List String)
  unfolding names_from
  portable_query_fields properties include exclude = do
    included ← names_from (property_names properties) [] include
    excluded ← names_from (property_names properties) [] exclude
    ok (extended included excluded (derived excluded properties) (property_names properties))
