-- ===== src/Portable/Tests.antt =====
-- A run of the portable query profile (portable.py) on two properties.
use httk_store.Prelude.{String, ◌≡◌, refl, true, Option, none, some, List, [], ◌∷◌}
use httk_store.Prelude.Dict.{Dict}
use httk_store.Portable.{
  PropertyDefinition, query_support, portable_query_capabilities, supports, level_operations,
}

abbrev same : String → String
same s = s

abbrev title : PropertyDefinition
title = record { requirement = some (some "all mandatory"); optimade_type = "string"; items = none }

abbrev data_file : PropertyDefinition
data_file = record { requirement = none; optimade_type = "dictionary"; items = none }

abbrev entry : Dict PropertyDefinition
entry = ("title", title) ∷ ("data", data_file) ∷ []

abbrev include : List (Option String)
include = some "data" ∷ []

matches_text : supports (portable_query_capabilities same title) "stringmatching" ≡ true
unfolding supports portable_query_capabilities level_operations query_support
matches_text = refl
