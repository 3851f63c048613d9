-- ===== src/Federation/Results.antt =====
-- FederatedResultSet and FederatedResultColumn (federated_store.py).
pub mod Slices
pub mod Counts
pub mod Terminals
use mathlib.Core.Option
use httk_store.Prelude.{
  ℕ, zero, suc, ◌+◌, ◌-◌, String, Bool, true, false, Option, none, some, List, [], ◌∷◌, not, map,
  min, if◌then◌else◌, eqb, length, Result, ok, err, ◌>>=◌, ◌==◌,
}
use httk_store.Prelude.Dict.{Dict}
use httk_store.Federation.{
  Exn, SourceError, Child, Output, record_output, field_output, origin_output, output_name, Plan,
}
use httk_store.Federation.Execute.{Item, Row, Run, execute_plan}
use httk_store.Federation.Count.{Caches, count_plan}

pub record ResultSet (V : Type 0) : Type 1 where
  pub store : Dict (Child V)
  pub plan : Plan V

-- A part of a slice; what is not an integer, a Boolean among it, is `other_bound`.
pub data Bound : Type 0 where
  absent : Bound
  number : (n : ℕ) → Bound
  negative : (below : ℕ) → Bound
  other_bound : Bound

pub data Index : Type 0 where
  slice : (start stop step : Bound) → Index
  other_index : Index

-- The errors of a result set's operations, besides those of the sources.
pub data ResultError : Type 0 where
  slices_only unit_step bounds : ResultError
  no_result multiple_results : ResultError
  one_output : ResultError
  unknown_output unknown_column : (name : String) → ResultError
  object_column link_column : (name : String) → ResultError
  source : SourceError → ResultError

abbrev pub is_unit_step : Bound → Bool
is_unit_step absent = true
is_unit_step (number n) = eqb n 1
is_unit_step (negative below) = false
is_unit_step other_bound = false

abbrev pub start_bound : Bound → Result ResultError ℕ
start_bound absent = ok 0
start_bound (number n) = ok n
start_bound (negative below) = err bounds
start_bound other_bound = err bounds

abbrev pub stop_bound : Bound → Result ResultError (Option ℕ)
stop_bound absent = ok none
stop_bound (number n) = ok (some n)
stop_bound (negative below) = err bounds
stop_bound other_bound = err bounds

-- `remaining`, from the plan's limit and the slice's bounds.
abbrev pub remaining : Option ℕ → ℕ → Option ℕ → Option ℕ
remaining none start none = none
remaining none start (some stop) = some (stop - start)
remaining (some limit) start none = some (limit - start)
remaining (some limit) start (some stop) = some (min (limit - start) (stop - start))

abbrev pub sliced : {V : Type 0} → Plan V → ℕ → Option ℕ → Plan V
sliced plan start stop = record plan {
  offset = plan.offset + start;
  limit = remaining plan.limit start stop;
}

-- What `next` gives first, and then the rest of the run.
abbrev pub next_row : {V : Type 0} → Run V → Result ResultError (Option (Row V × Run V))
next_row run = elim run.rows [
  | row ∷ rows ↦ ok (some (row, record { rows = rows; fault = run.fault }))
  | [] ↦ elim run.fault [ none ↦ ok none | some e ↦ err (source e) ]
]

-- `self.names.index(name)`
unfoldable pub index_of : String → List String → Option ℕ
index_of name [] = none
index_of name (n ∷ ns) = if n == name then some 0 else Option.map suc (index_of name ns)

unfoldable pub nth {ℓ} : {A : Type ℓ} → ℕ → List A → Option A
nth k [] = none
nth zero (x ∷ xs) = some x
nth (suc k) (x ∷ xs) = nth k xs

-- `_is_link_output`, on the path of a field output.
abbrev pub is_link_path : List String → Bool
is_link_path [] = false
is_link_path (name ∷ path) = name == "links"

-- The kind of output that `column` finds.
abbrev pub column_output : String → Option Output → Result ResultError (Unit {0})
column_output name none = err (unknown_column name)
column_output name (some (record_output n)) = err (object_column name)
column_output name (some (origin_output n)) = ok tt
column_output name (some (field_output n path)) =
    if is_link_path path then err (link_column name) else ok tt

abbrev pub found : ResultError → Option ℕ → Result ResultError ℕ
found e none = err e
found e (some k) = ok k

abbrev pub fst_row : {V : Type 0} → Row V × Run V → Row V
fst_row (row, rest) = row

abbrev pub bounded : Option ℕ → ℕ → ℕ
bounded none available = available
bounded (some limit) available = min available limit

abbrev pub limited_len :
    ℕ → Option ℕ → Result SourceError ℕ × Caches → Result SourceError ℕ × Caches
limited_len offset limit (ok total, caches) = (ok (bounded limit (total - offset)), caches)
limited_len offset limit (err e, caches) = (err e, caches)

-- A limit of 0 gives 0 before any source is asked.
abbrev pub len_within :
    ℕ → Option ℕ → Caches → Result SourceError ℕ × Caches → Result SourceError ℕ × Caches
len_within offset none caches total = limited_len offset none total
len_within offset (some zero) caches total = (ok 0, caches)
len_within offset (some (suc n)) caches total = limited_len offset (some (suc n)) total

-- The name that `scalars` is given, or the one output's.
abbrev pub scalar_name : List String → Option String → Result ResultError String
scalar_name declared (some name) = ok name
scalar_name [] none = err one_output
scalar_name (name ∷ []) none = ok name
scalar_name (name ∷ other ∷ others) none = err one_output

module _ {V : Type 0} where
  abbrev pub names : ResultSet V → List String
  names rs = map output_name rs.plan.outputs

  -- `__iter__`
  abbrev pub iterate : ResultSet V → Run V
  iterate rs = execute_plan rs.store rs.plan none

  -- `__len__`
  unfoldable pub len : ResultSet V → Caches → Result SourceError ℕ × Caches
  len rs caches =
      len_within rs.plan.offset rs.plan.limit caches (count_plan rs.store rs.plan caches)

  -- `__getitem__`
  unfoldable pub getitem : ResultSet V → Index → Result ResultError (ResultSet V)
  getitem rs other_index = err slices_only
  getitem rs (slice start stop step) = if not (is_unit_step step) then err unit_step else do
    first ← start_bound start
    end ← stop_bound stop
    ok (record { store = rs.store; plan = sliced rs.plan first end })

  -- `first`
  unfoldable pub first : ResultSet V → Result ResultError (Option (Row V))
  first rs = do
    next ← next_row (execute_plan rs.store rs.plan (some 1))
    ok (Option.map fst_row next)

  -- `one`, after its first row.
  abbrev pub only : Row V → Option (Row V × Run V) → Result ResultError (Row V)
  only row none = ok row
  only row (some more) = err multiple_results

  abbrev pub one_after : Option (Row V × Run V) → Result ResultError (Row V)
  one_after none = err no_result
  one_after (some (row, rest)) = do next ← next_row rest; only row next

  -- `one`
  unfoldable pub one : ResultSet V → Result ResultError (Row V)
  one rs = do next ← next_row (execute_plan rs.store rs.plan (some 2)); one_after next

  -- `scalars`: the index of the values that its iterator takes from the rows.
  unfoldable pub scalars : ResultSet V → Option String → Result ResultError ℕ
  unfolding index_of
  scalars rs name = do
    chosen ← scalar_name (names rs) name
    found (unknown_output chosen) (index_of chosen (names rs))

  -- `column`: the index of the FederatedResultColumn that it gives.
  unfoldable pub column : ResultSet V → String → Result ResultError ℕ
  unfolding index_of nth
  column rs name = do
    index ← found (unknown_column name) (index_of name (names rs))
    accepted ← column_output name (nth index rs.plan.outputs)
    ok index

  -- `(row[self._index] for row in self._result)`
  abbrev pub column_values : ResultSet V → ℕ → List (Option (Item V))
  column_values rs index = map (λ row. nth index row.values) (iterate rs).rows
