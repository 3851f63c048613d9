-- ===== src/Federation/Searcher/Planning.antt =====
-- Outputs, paging, plans and counts of FederatedSearcher (federated_store.py).
use httk_store.Prelude.{
  ℕ, ◌+◌, String, Bool, true, false, Option, none, some, List, [], ◌∷◌, ◌++◌, not, map,
  if◌then◌else◌, eqb, contains, Result, ok, err, ◌>>=◌, ◌==◌,
}
use httk_store.Prelude.Dict.{lookup}
use httk_store.Federation.{
  Exn, SourceError, source_failed, at, Child, Output, record_output, field_output, origin_output,
  output_name, Plan, child_field, bind_child,
}
use httk_store.Federation.Count.{count_plan}
use httk_store.Federation.Results.{Bound, absent, number, negative, other_bound, ResultSet}
use httk_store.Federation.Searcher.{
  QueryError, foreign_output, empty_name, no_outputs, not_integer, negative_offset,
  duplicate_output, Variable, Searcher, OutputValue, root, field_of, origin_of, other_value, Heap,
  raised_by,
}
use httk_store.Federation.Searcher.Build.{require_variable}

abbrev tried : Output → Result SourceError (Unit {0}) → Result QueryError Output
tried output (ok u) = ok output
tried output (err e) = err (QueryError.source e)

abbrev pub has_outputs : Bool → List Output → Bool
has_outputs require_outputs [] = not require_outputs
has_outputs require_outputs (o ∷ os) = true

module _ {V : Type 0} where
  -- One disposable child searcher of `_build_output`.
  unfoldable pub try_output :
      Child V → Option V → Bool → List String → String → V → Result Exn (Unit {0})
  try_output c as_of only_latest path name target = do
    (variable, searcher) ← bind_child c as_of only_latest target
    value ← child_field c variable path
    declared ← c.output value name searcher
    ok tt

  abbrev output_source :
      Searcher V → List String → String → String → V → Result SourceError (Unit {0})
  output_source s path name source target = elim (lookup source s.store) [
    | none ↦ err (source_failed source "output")
    | some c ↦ at source "output" (try_output c s.as_of s.only_latest path name target)
  ]

  -- The loop of `_build_output` over the targets.
  unfoldable pub try_outputs :
      Searcher V → List String → String → List (String × V) → Result SourceError (Unit {0})
  try_outputs s path name [] = ok tt
  try_outputs s path name ((source, target) ∷ targets) = do
    tried ← output_source s path name source target
    try_outputs s path name targets

  abbrev output_of : Searcher V → Variable V → OutputValue → String → Result QueryError Output
  output_of s variable (origin_of owner) name =
      if eqb owner s.me then ok (origin_output name) else err foreign_output
  output_of s variable (root owner) name =
      if eqb owner s.me
      then tried (record_output name) (try_outputs s [] name variable.targets)
      else err foreign_output
  output_of s variable (field_of owner path) name =
      if eqb owner s.me
      then tried (field_output name path) (try_outputs s path name variable.targets)
      else err foreign_output
  output_of s variable other_value name = err foreign_output

  -- `_build_output`; the declared outputs are the searcher's where `retain` holds.
  unfoldable pub build_output : Searcher V → OutputValue → String → Bool → Result QueryError Output
  unfolding try_outputs
  build_output s value name retain = do
    variable ← require_variable s
    if name == ""
        then err empty_name
        else if contains name (map output_name (if retain then s.outputs else []))
        then err (duplicate_output name)
        else output_of s variable value name

  abbrev pub with_outputs : Searcher V → List Output → Searcher V
  with_outputs s outputs = record s { outputs = outputs }

  abbrev pub paged : Searcher V → Option ℕ → ℕ → Searcher V
  paged s limit offset = record s { limit = limit; offset = offset }

  -- `_output`
  unfoldable pub declare_output : Searcher V → OutputValue → String → Result QueryError (Searcher V)
  unfolding build_output
  declare_output s value name = do
    output ← build_output s value name true
    ok (with_outputs s (s.outputs ++ output ∷ []))

  -- `set_limit`
  unfoldable pub set_limit : Searcher V → Bound → Result QueryError (Searcher V)
  set_limit s (number n) = ok (paged s (some n) s.offset)
  set_limit s (negative below) = ok (paged s none s.offset)
  set_limit s absent = err not_integer
  set_limit s other_bound = err not_integer

  -- `add_offset`
  unfoldable pub add_offset : Searcher V → Bound → Result QueryError (Searcher V)
  add_offset s (number n) = ok (paged s s.limit (s.offset + n))
  add_offset s (negative below) = err negative_offset
  add_offset s absent = err not_integer
  add_offset s other_bound = err not_integer

  unfoldable pub build_outputs :
      Searcher V → List (String × OutputValue) → Result QueryError (List Output)
  build_outputs s [] = ok []
  build_outputs s ((name, value) ∷ outputs) = do
    output ← build_output s value name false
    others ← build_outputs s outputs
    ok (output ∷ others)

  abbrev pub planned : Searcher V → List (String × OutputValue) → Result QueryError (List Output)
  planned s [] = ok s.outputs
  planned s (o ∷ os) = build_outputs s (o ∷ os)

  -- The plan of a bound searcher with the given outputs.
  abbrev pub frozen : Searcher V → Variable V → List Output → Plan V
  frozen s variable outputs = record {
    sources = variable.targets;
    expressions = s.expressions;
    outputs = outputs;
    offset = s.offset;
    limit = s.limit;
    as_of = s.as_of;
    only_latest = s.only_latest;
    count_cache = s.count_cache;
  }

  -- `_plan`
  unfoldable pub make_plan :
      Searcher V → List (String × OutputValue) → Bool → Result QueryError (Plan V)
  unfolding build_outputs
  make_plan s outputs require_outputs = do
    variable ← require_variable s
    chosen ← planned s outputs
    if has_outputs require_outputs chosen then ok (frozen s variable chosen) else err no_outputs

  -- `results`
  unfoldable pub results :
      Searcher V → List (String × OutputValue) → Result QueryError (ResultSet V)
  unfolding make_plan
  results s outputs = do
    plan ← make_plan s outputs true
    ok (record { store = s.store; plan = plan })

  abbrev pub counted_plan :
      Searcher V → Result QueryError (Plan V) → Heap → Result QueryError ℕ × Heap
  counted_plan s (err e) heap = (err e, heap)
  counted_plan s (ok plan) heap =
      let r = count_plan s.store plan heap.caches in (raised_by r.0, record heap { caches = r.1 })

  -- `count`
  unfoldable pub count : Searcher V → Heap → Result QueryError ℕ × Heap
  unfolding make_plan
  count s heap = counted_plan s (make_plan s [] false) heap
