-- ===== src/Portable/Fields.antt =====
-- Which fields and operations the portable profile selects (portable.py).
use httk_store.Prelude.{
  String, ◌≡◌, Bool, true, false, Option, none, some, List, [], ◌∷◌, ◌==◌, ◌&&◌, ◌||◌, not,
  contains, eq_iff, arith, ◌⊎◌,
}
use httk_store.Prelude.Dict.{Dict, lookup}
use httk_store.Portable.{
  PropertyDefinition, query_support, is_portable_type, level_operations,
  portable_query_capabilities, supports, has_operations,
}

-- No key stands twice.
abbrev pub HasDistinctKeys : Dict PropertyDefinition → Type 0
HasDistinctKeys [] = Unit
HasDistinctKeys ((k, v) ∷ d) = (lookup k d ≡ none) × HasDistinctKeys d

abbrev is_some : {A : Type 0} → Option A → Bool
is_some none = false
is_some (some a) = true

-- The names that `_names` accepts are those that it is given, besides the ones seen before.
abbrev pub given : String → List (Option String) → Bool
given a [] = false
given a (none ∷ names) = given a names
given a (some n ∷ names) = n == a || given a names

module _ (casefold : String → String) where
  abbrev pub is_derived : String → List String → Dict PropertyDefinition → Bool
  is_derived a excluded ps = elim (lookup a ps) [
    | none ↦ false
    | some d ↦ not (contains a excluded) && has_operations casefold d
  ]

  level_declared :
      (support : Option String) (d : PropertyDefinition) (operation : String)
      → contains operation (level_operations casefold support d) ≡ true
      → ((support ≡ some "equality only") × (operation ≡ "equality"))
        ⊎ ((support ≡ some "all mandatory") × (is_portable_type casefold d ≡ true))
  unfolding level_operations
  level_declared none d operation h = cc
  level_declared (some level) d operation h = ground (
    arith,
    h,
    eq_iff level "equality only",
    eq_iff level "all mandatory",
    eq_iff "equality" operation,
  )

  -- An operation is supported only where the definition declares it: equality alone at the level
  -- "equality only", and otherwise only at the level "all mandatory" for a portable type.
  supports_declared :
      (d : PropertyDefinition) (operation : String)
      → supports (portable_query_capabilities casefold d) operation ≡ true
      → ((query_support casefold d.requirement ≡ some "equality only") × (operation ≡ "equality"))
        ⊎ ((query_support casefold d.requirement ≡ some "all mandatory")
            × (is_portable_type casefold d ≡ true))
  unfolding supports portable_query_capabilities
  supports_declared d operation h =
      level_declared (query_support casefold d.requirement) d operation h
