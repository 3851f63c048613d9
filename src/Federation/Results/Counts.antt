-- ===== src/Federation/Results/Counts.antt =====
-- `_count_plan` and `FederatedResultSet.__len__` (federated_store.py).
use httk_store.Prelude.{
  ℕ, zero, suc, ◌+◌, ◌-◌, ◌≡◌, refl, ap, sym, ◌∙◌, Option, none, some, List, [], ◌∷◌, arith, length,
  length-append, drop, true, false, String, Result, ok, err, eqb, if_true, if_false, ◌>>=◌, ◌⊎◌,
  inl, inr,
}
use httk_store.Prelude.Dict.{Dict}
use httk_store.Federation.{SourceError, Child, Plan}
use httk_store.Federation.Execute.{result_row, effective_limit}
use httk_store.Federation.Count.{Caches, fill_cache, count_sources, source_count, count_plan}
use httk_store.Federation.Window.{cut, length-map, length-take, length-drop}
use httk_store.Federation.Paging.{rows_of}
use httk_store.Federation.Union.{AllDeliver, union, execute_plan_lem}
use httk_store.Federation.Results.{ResultSet, limited_len, len_within, bounded, len, iterate}

-- Each source counts as many matches as it has.
abbrev pub AllCount :
    {V : Type 0} → Dict (Child V) → Plan V → List (String × V) → List (List (List V)) → Type 0
AllCount store plan [] [] = Unit
AllCount store plan [] (r ∷ rs) = ⊥
AllCount store plan ((source, target) ∷ sources) [] = ⊥
AllCount store plan ((source, target) ∷ sources) (r ∷ rs) =
    (source_count store plan source target ≡ ok (length r)) × AllCount store plan sources rs

-- What a count leaves in the caches.
abbrev pub CachesAfter : ℕ → Caches → Result SourceError ℕ × Caches → Type 0
CachesAfter address caches (ok total, caches') =
    (caches' address ≡ some total) × ((k : ℕ) → eqb address k ≡ false → caches' k ≡ caches k)
CachesAfter address caches (err e, caches') = caches' ≡ caches

eqb_self : (n : ℕ) → eqb n n ≡ true
eqb_self n = ground arith

module _ {V : Type 0} (store : Dict (Child V)) (plan : Plan V) where
  count_sources_lem :
      (sources : List (String × V)) (rs : List (List (List V))) (total : ℕ)
      → AllCount store plan sources rs
      → count_sources store plan sources total ≡ ok (total + length (union plan.outputs sources rs))
  unfolding count_sources
  count_sources_lem [] [] total h = ap ok (omega arith)
  count_sources_lem [] (r ∷ rs) total h = absurd h
  count_sources_lem ((source, target) ∷ sources) [] total h = absurd h
  count_sources_lem ((source, target) ∷ sources) (r ∷ rs) total (c, cs) =
      ap (λ n. do k ← n; count_sources store plan sources (total + k)) c
      ∙ count_sources_lem sources rs (total + length r) cs
      ∙ ap ok (
          omega (
            arith,
            length-append (rows_of plan.outputs source r) (union plan.outputs sources rs),
            length-map (result_row source plan.outputs) r,
          ))

  fill_cache-after :
      (caches : Caches) (total : Result SourceError ℕ)
      → CachesAfter plan.count_cache caches (fill_cache plan.count_cache total caches)
  unfolding fill_cache
  fill_cache-after caches (ok total) =
      (if_true _ _ (eqb_self plan.count_cache), λ k apart. if_false _ _ apart)
  fill_cache-after caches (err e) = refl

  -- A count that fails leaves every cache as it was; one that succeeds leaves its total in the plan's cache,
  -- and the others as they were.
  pub count_plan_after :
      (caches : Caches) → CachesAfter plan.count_cache caches (count_plan store plan caches)
  unfolding count_plan
  count_plan_after caches = go (caches plan.count_cache) refl
    where
      go :
          (cached : Option ℕ)
          → caches plan.count_cache ≡ cached
          → CachesAfter plan.count_cache caches (elim cached [
            | some total ↦ (ok total, caches)
            | none ↦ fill_cache plan.count_cache (count_sources store plan plan.sources 0) caches
          ])
      go (some total) h = (h, λ k apart. refl)
      go none h = fill_cache-after caches (count_sources store plan plan.sources 0)

  count_plan_lem :
      (caches : Caches) (rs : List (List (List V)))
      → AllCount store plan plan.sources rs
      → (caches plan.count_cache ≡ none)
        ⊎ (caches plan.count_cache ≡ some (length (union plan.outputs plan.sources rs)))
      → (count_plan store plan caches).0 ≡ ok (length (union plan.outputs plan.sources rs))
  unfolding count_plan fill_cache
  count_plan_lem caches rs h coherent = go (caches plan.count_cache) coherent
    where
      n : ℕ
      n = length (union plan.outputs plan.sources rs)

      go :
          (cached : Option ℕ)
          → (cached ≡ none) ⊎ (cached ≡ some n)
          → (elim cached as (λ x. Result SourceError ℕ × Caches) [
            | some total ↦ (ok total, caches)
            | none ↦ fill_cache plan.count_cache (count_sources store plan plan.sources 0) caches
          ]).0
            ≡ ok n
      go (some total) (inl h) = cc
      go (some total) (inr h) = cc
      go none (inr h) = cc
      go none (inl empty) =
          ap (λ t. (fill_cache plan.count_cache t caches).0) (count_sources_lem plan.sources rs 0 h)
          ∙ ap ok (omega arith)

length-cut {ℓ} :
    {A : Type ℓ} (limit : Option ℕ) (offset : ℕ) (xs : List A)
    → bounded limit (length xs - offset) ≡ length (cut limit (drop offset xs))
length-cut none offset xs = sym (length-drop offset xs)
length-cut (some n) offset xs = omega (arith, length-take n (drop offset xs), length-drop offset xs)

len_of :
    (limit : Option ℕ) (offset n : ℕ) (caches : Caches) (total : Result SourceError ℕ × Caches)
    → total.0 ≡ ok n
    → (len_within offset limit caches total).0 ≡ ok (bounded limit (n - offset))
len_of none offset n caches (ok t, c) h =
    ap (λ (t : Result SourceError ℕ). (limited_len offset none (t, c)).0) h
len_of (some zero) offset n caches (ok t, c) h = ap ok (omega arith)
len_of (some (suc l)) offset n caches (ok t, c) h =
    ap (λ (t : Result SourceError ℕ). (limited_len offset (some (suc l)) (t, c)).0) h
len_of none offset n caches (err e, c) h = cc
len_of (some zero) offset n caches (err e, c) h = cc
len_of (some (suc l)) offset n caches (err e, c) h = cc

-- `len` of a result set: where the sources answer with the cut of their matches at any limit, each counts as
-- many matches as it has, and the cache is empty or holds their number, it is the number of rows that
-- iterating the result set gives.
pub len-iterate :
    {V : Type 0} (result : ResultSet V) (caches : Caches) (rs : List (List (List V)))
    → AllDeliver result.store result.plan result.plan.sources rs
    → AllCount result.store result.plan result.plan.sources rs
    → (caches result.plan.count_cache ≡ none)
      ⊎ (caches result.plan.count_cache
          ≡ some (length (union result.plan.outputs result.plan.sources rs)))
    → (len result caches).0 ≡ ok (length (iterate result).rows)
unfolding len effective_limit
len-iterate result caches rs d c coherent =
    let u = union result.plan.outputs result.plan.sources rs in
    len_of result.plan.limit result.plan.offset (length u) caches
      (count_plan result.store result.plan caches)
      (count_plan_lem result.store result.plan caches rs c coherent)
    ∙ ap ok (length-cut result.plan.limit result.plan.offset u)
    ∙ ap (λ r. ok (length r.rows)) (sym (execute_plan_lem result.store result.plan none rs d))
