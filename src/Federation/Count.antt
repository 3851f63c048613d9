-- ===== src/Federation/Count.antt =====
-- `_count_plan` (federated_store.py), with the cache that plans share.
use httk_store.Prelude.{
  ℕ, ◌+◌, String, Option, none, some, List, [], ◌∷◌, if◌then◌else◌, eqb, Result, ok, err, ◌>>=◌,
}
use httk_store.Prelude.Dict.{Dict, lookup}
use httk_store.Federation.{
  Exn, SourceError, source_failed, source_count_unavailable, source_error, at, Child, Plan, add_all,
  bind_child,
}

-- The count of one source, from `_count_plan`.
abbrev pub counted : String → Result Exn ℕ → Result SourceError ℕ
counted source (ok n) = ok n
counted source (err Exn.count_unavailable) = err (source_count_unavailable source "count")
counted source (err Exn.unsupported) = err (source_error source "count" Exn.unsupported)
counted source (err Exn.attribute_error) = err (source_error source "count" Exn.attribute_error)
counted source (err Exn.other_error) = err (source_error source "count" Exn.other_error)

module _ {V : Type 0} where
  unfoldable pub child_count : Child V → Plan V → String → V → Result SourceError ℕ
  child_count c plan source target = do
    (variable, s) ←
        at source "count searcher construction" (bind_child c plan.as_of plan.only_latest target)
    s₁ ← at source "count expression replay" (add_all c plan.expressions variable s)
    counted source (c.count s₁)

  unfoldable pub source_count : Dict (Child V) → Plan V → String → V → Result SourceError ℕ
  unfolding child_count
  source_count store plan source target = elim (lookup source store) [
    | none ↦ err (source_failed source "count searcher construction")
    | some c ↦ child_count c plan source target
  ]

  -- The loop of `_count_plan`.
  unfoldable pub count_sources :
      Dict (Child V) → Plan V → List (String × V) → ℕ → Result SourceError ℕ
  unfolding source_count
  count_sources store plan [] total = ok total
  count_sources store plan ((source, target) ∷ sources) total = do
    n ← source_count store plan source target
    count_sources store plan sources (total + n)

-- The caches of the plans, by their addresses: `_FederatedCountCache.total`.
abbrev pub Caches : Type 0
Caches = ℕ → Option ℕ

abbrev pub store_total : ℕ → ℕ → Caches → Caches
store_total address total caches k = if eqb address k then some total else caches k

-- `_count_plan`: the cache is filled once every source has given its count.
unfoldable pub fill_cache : ℕ → Result SourceError ℕ → Caches → Result SourceError ℕ × Caches
fill_cache address (ok total) caches = (ok total, store_total address total caches)
fill_cache address (err e) caches = (err e, caches)

unfoldable pub count_plan :
    {V : Type 0} → Dict (Child V) → Plan V → Caches → Result SourceError ℕ × Caches
unfolding fill_cache
count_plan store plan caches = elim (caches plan.count_cache) [
  | some total ↦ (ok total, caches)
  | none ↦ fill_cache plan.count_cache (count_sources store plan plan.sources 0) caches
]
