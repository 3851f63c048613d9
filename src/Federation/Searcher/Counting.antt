-- ===== src/Federation/Searcher/Counting.antt =====
-- The counts that a federated searcher and its result sets give (federated_store.py).
use httk_store.Prelude.{
  ◌≡◌, refl, ap, sym, ◌∙◌, subst, true, false, some, List, [], ◌∷◌, ok, >>=-step, if_true,
}
use httk_store.Federation.{Output, Plan}
use httk_store.Federation.Count.{count_plan}
use httk_store.Federation.Results.{sliced, len}
use httk_store.Federation.Searcher.{Searcher, Variable, raised_by}
use httk_store.Federation.Searcher.Planning.{has_outputs, make_plan, frozen, counted_plan, count}
use httk_store.Federation.Searcher.Steps.{
  Sys, AmongPlans, result_of, Step, binds, adds, declares, limits, offsets, plans_results, slices,
  counts, measures, Reach, here, next, IsNew, asked,
}
use httk_store.Federation.Searcher.Cache.{Agree, IsKnown, IsCoherent, total-unpaged}
use httk_store.Federation.Searcher.Calls.{
  require_variable-some, bind_variable-change, declare_output-change, set_limit-change,
  add_offset-change, make_plan-change, add-Added,
}
use httk_store.Federation.Searcher.Coherence.{
  len-caches, known_count, frozen-IsKnown, sliced-IsKnown, binds-IsCoherent, unpaged-IsCoherent,
  planned-IsCoherent, cached-IsCoherent, among-bound, adds-IsCoherent, counts-IsCoherent,
}

has_outputs-any : (outputs : List Output) → has_outputs false outputs ≡ true
has_outputs-any [] = refl
has_outputs-any (o ∷ outputs) = refl

module _ {V : Type 0} where
  start-IsCoherent : (s : Sys V) → IsNew s → IsCoherent s
  start-IsCoherent s n = record {
    ghost = λ k. ok 0;
    known = λ p among. absurd (subst (AmongPlans p) n.no_plans among);
    agree = λ k t cached. absurd (cc (n.empty k, cached));
    allocated = n.allocated;
    unbound = λ h. (n.no_plans, n.empty);
    bound = λ v is_v. absurd (cc (n.unbound, is_v));
  }

  len-Agree :
      (s : Sys V) (plan : Plan V) (x : IsCoherent s)
      → AmongPlans plan s.plans
      → Agree x.ghost (len (result_of s plan) s.heap.caches).1
  unfolding len
  len-Agree s plan x among =
      len-caches (Agree x.ghost) plan.offset plan.limit s.heap.caches
        (count_plan s.searcher.store plan s.heap.caches) x.agree
        (known_count s x plan (x.known plan among)).1

  make_plan-bound :
      (s : Searcher V) (v : Variable V)
      → s.variable ≡ some v
      → make_plan s [] false ≡ ok (frozen s v s.outputs)
  unfolding make_plan
  make_plan-bound s v is_v =
      >>=-step _ _ (require_variable-some s v is_v) (if_true _ _ (has_outputs-any s.outputs))

  Step-IsCoherent : (s t : Sys V) → IsCoherent s → Step s t → IsCoherent t
  Step-IsCoherent s _ x (binds target searcher h) =
      let (free, v, e) = bind_variable-change s.searcher target searcher h in
      subst (λ r. IsCoherent (record s { searcher = r })) (sym e) (binds-IsCoherent s x v free)
  Step-IsCoherent s _ x (adds e) = adds-IsCoherent s x e _ _ (add-Added s.searcher e s.heap)
  Step-IsCoherent s _ x (declares value name searcher h) =
      let (outputs, e) = declare_output-change s.searcher value name searcher h in
      subst (λ r. IsCoherent (record s { searcher = r })) (sym e)
        (unpaged-IsCoherent s x outputs s.searcher.limit s.searcher.offset)
  Step-IsCoherent s _ x (limits limit searcher h) =
      let (l, e) = set_limit-change s.searcher limit searcher h in
      subst (λ r. IsCoherent (record s { searcher = r })) (sym e)
        (unpaged-IsCoherent s x s.searcher.outputs l s.searcher.offset)
  Step-IsCoherent s _ x (offsets offset searcher h) =
      let (o, e) = add_offset-change s.searcher offset searcher h in
      subst (λ r. IsCoherent (record s { searcher = r })) (sym e)
        (unpaged-IsCoherent s x s.searcher.outputs s.searcher.limit o)
  Step-IsCoherent s _ x (plans_results outputs require_outputs plan h) =
      let (v, chosen, is_v, e) = make_plan-change s.searcher outputs require_outputs plan h in
      planned-IsCoherent s x plan
        (subst (IsKnown s.searcher.store x.ghost s.heap.next) (sym e)
          (frozen-IsKnown s x v chosen is_v))
        (λ free. cc (free, is_v))
  Step-IsCoherent s _ x (slices plan start stop among) =
      planned-IsCoherent s x (sliced plan start stop) (sliced-IsKnown s x plan start stop among)
        (among-bound s x plan among)
  Step-IsCoherent s _ x counts = counts-IsCoherent s x
  Step-IsCoherent s _ x (measures plan among) =
      cached-IsCoherent s x (len (result_of s plan) s.heap.caches).1 (len-Agree s plan x among)
        (among-bound s x plan among)

  -- From a new searcher, through any calls of it and of its result sets, their failures included, each
  -- address of a count cache stands for one total.
  pub reached-IsCoherent : (s t : Sys V) → IsNew s → Reach s t → IsCoherent t
  reached-IsCoherent s _ n here = start-IsCoherent s n
  reached-IsCoherent s _ n (next r step) = Step-IsCoherent _ _ (reached-IsCoherent s _ n r) step

  -- After any calls of a new searcher and of the result sets that it gave, counting a plan that it gave
  -- gives what asking all of the plan's sources gives, whether the total is cached or not.
  pub count_plan-asked :
      (s t : Sys V) (plan : Plan V)
      → IsNew s
      → Reach s t
      → AmongPlans plan t.plans
      → (count_plan t.searcher.store plan t.heap.caches).0 ≡ asked t plan
  count_plan-asked s t plan n r among =
      let x = reached-IsCoherent s t n r in (known_count t x plan (x.known plan among)).0

  -- Where the child stores give the same answers to the same calls, as if their rows did not change: after
  -- any calls of a new searcher and of the result sets that it gave, `count` of the searcher, once it
  -- has a variable, gives what asking all the sources with its present conditions gives, also where
  -- it returns a total that was counted before. (A child whose rows change after that total was
  -- counted is not asked again.)
  pub count-asked :
      (s t : Sys V) (v : Variable V)
      → IsNew s
      → Reach s t
      → t.searcher.variable ≡ some v
      → (count t.searcher t.heap).0 ≡ raised_by (asked t (frozen t.searcher v []))
  unfolding count
  count-asked s t v n r is_v =
      let x = reached-IsCoherent s t n r in
      let plan = frozen t.searcher v t.searcher.outputs in
      ap (λ m. (counted_plan t.searcher m t.heap).0) (make_plan-bound t.searcher v is_v)
      ∙ ap raised_by (
          (known_count t x plan (frozen-IsKnown t x v t.searcher.outputs is_v)).0
          ∙ total-unpaged t.searcher.store (frozen t.searcher v []) t.searcher.outputs
              t.searcher.offset t.searcher.limit t.searcher.count_cache)
