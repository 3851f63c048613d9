-- ===== src/Federation/Searcher/Cache.antt =====
-- The count caches of federated plans (federated_store.py) against asking every source again.
use httk_store.Prelude.{
  ℕ, ◌+◌, ◌<◌, ◌≡◌, refl, sym, ◌∙◌, subst, String, Option, none, some, List, [], ◌∷◌, inl, inr,
  Result, ok, err, ◌>>=◌, eqb, arith, Bool-cases, if_true, if_false,
}
use httk_store.Prelude.Dict.{Dict}
use httk_store.Federation.{SourceError, Child, Output, Plan}
use httk_store.Federation.Count.{
  Caches, child_count, source_count, count_sources, fill_cache, count_plan,
}
use httk_store.Federation.Searcher.Steps.{Sys, AmongPlans}
use httk_store.Federation.Searcher.{Variable}
use httk_store.Federation.Searcher.Planning.{frozen}

-- A bind keeps its value where its continuations agree.
>>=-cong {ℓ κ} :
    {E : Type 0} {A : Type ℓ} {B : Type κ} (m : Result E A) (f g : A → Result E B)
    → ((a : A) → f a ≡ g a)
    → (m >>= f) ≡ (m >>= g)
>>=-cong (ok a) f g h = h a
>>=-cong (err e) f g h = refl

-- A cached total is the one that its address stands for.
abbrev pub Agree : (ℕ → Result SourceError ℕ) → Caches → Type 0
Agree ghost caches = (k t : ℕ) → caches k ≡ some t → ghost k ≡ ok t

fill_cache-result :
    (address : ℕ) (caches : Caches) (m : Result SourceError ℕ) → (fill_cache address m caches).0 ≡ m
unfolding fill_cache
fill_cache-result address caches (ok n) = refl
fill_cache-result address caches (err e) = refl

module _ {V : Type 0} (store : Dict (Child V)) where
  -- The total of a plan, asked of its sources.
  abbrev pub total : Plan V → Result SourceError ℕ
  total plan = count_sources store plan plan.sources 0

  -- Outputs, paging and cache are not asked for.
  count_sources-unpaged :
      (plan : Plan V) (outputs : List Output) (offset : ℕ) (limit : Option ℕ) (address : ℕ)
      (sources : List (String × V)) (n : ℕ)
      → count_sources store
          (record plan { outputs = outputs; offset = offset; limit = limit; count_cache = address })
          sources
          n
        ≡ count_sources store plan sources n
  unfolding count_sources source_count child_count
  count_sources-unpaged plan outputs offset limit address [] n = refl
  count_sources-unpaged plan outputs offset limit address ((source, target) ∷ sources) n =
      >>=-cong (source_count store plan source target) _ _
        (λ k. count_sources-unpaged plan outputs offset limit address sources (n + k))

  pub total-unpaged :
      (plan : Plan V) (outputs : List Output) (offset : ℕ) (limit : Option ℕ) (address : ℕ)
      → total
          (record plan { outputs = outputs; offset = offset; limit = limit; count_cache = address })
        ≡ total plan
  total-unpaged plan outputs offset limit address =
      count_sources-unpaged plan outputs offset limit address plan.sources 0

  module _ (ghost : ℕ → Result SourceError ℕ) (plan : Plan V)
      (is_total : total plan ≡ ghost plan.count_cache) where
    fill_cache-Agree :
        (caches : Caches) (m : Result SourceError ℕ)
        → ghost plan.count_cache ≡ m
        → Agree ghost caches
        → Agree ghost (fill_cache plan.count_cache m caches).1
    unfolding fill_cache
    fill_cache-Agree caches (err e) h agree k t cached = agree k t cached
    fill_cache-Agree caches (ok n) h agree k t cached = elim (Bool-cases (eqb plan.count_cache k)) [
      | inl same ↦
          let e : plan.count_cache ≡ k = ground (arith, same) in
          let filled : some n ≡ some t = sym (if_true _ _ same) ∙ cached in
          subst (λ a. ghost a ≡ ok t) e (h ∙ cc filled)
      | inr apart ↦ agree k t (sym (if_false _ _ apart) ∙ cached)
    ]

    pub count_plan_keeps :
        (caches : Caches)
        → Agree ghost caches
        → ((count_plan store plan caches).0 ≡ total plan)
          × Agree ghost (count_plan store plan caches).1
    unfolding count_plan
    count_plan_keeps caches agree = go (caches plan.count_cache) refl
      where
        go :
            (cached : Option ℕ)
            → caches plan.count_cache ≡ cached
            → let r = elim cached as (λ x. Result SourceError ℕ × Caches) [
              | some total ↦ (ok total, caches)
              | none ↦ fill_cache plan.count_cache (count_sources store plan plan.sources 0) caches
            ] in
              (r.0 ≡ total plan) × Agree ghost r.1
        go (some t) h = (sym (is_total ∙ agree plan.count_cache t h), agree)
        go none h = (
          fill_cache-result plan.count_cache caches (total plan),
          fill_cache-Agree caches (total plan) (sym is_total) agree,
        )

-- What is known of a plan: its address stands for its total.
pub record IsKnown {V : Type 0} (store : Dict (Child V)) (ghost : ℕ → Result SourceError ℕ)
    (next : ℕ) (plan : Plan V) : Type 1 where
  pub is_total : total store plan ≡ ghost plan.count_cache
  pub allocated : plan.count_cache < next

-- Each address stands for one total: that of the plans with it, and of the searcher where it has it.
pub record IsCoherent {V : Type 0} (s : Sys V) : Type 1 where
  pub ghost : ℕ → Result SourceError ℕ
  pub known : (p : Plan V) → AmongPlans p s.plans → IsKnown s.searcher.store ghost s.heap.next p
  pub agree : Agree ghost s.heap.caches
  pub allocated : s.searcher.count_cache < s.heap.next
  pub unbound : s.searcher.variable ≡ none → (s.plans ≡ []) × ((k : ℕ) → s.heap.caches k ≡ none)
  pub bound :
      (v : Variable V)
      → s.searcher.variable ≡ some v
      → total s.searcher.store (frozen s.searcher v []) ≡ ghost s.searcher.count_cache
