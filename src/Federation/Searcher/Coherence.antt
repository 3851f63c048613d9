-- ===== src/Federation/Searcher/Coherence.antt =====
-- The calls of a federated searcher and of its result sets (federated_store.py), and the caches.
use httk_store.Prelude.{
  ℕ, zero, suc, ◌<◌, ◌≡◌, refl, ap, sym, ◌∙◌, subst, true, false, Option, none, some, List, [], ◌∷◌,
  inl, inr, Result, ok, err, eqb, arith, Bool-cases, if_true, if_false, if◌then◌else◌,
}
use httk_store.Federation.{SourceError, Ast, Output, Plan}
use httk_store.Federation.Count.{Caches, count_plan}
use httk_store.Federation.Results.{sliced, len_within}
use httk_store.Federation.Searcher.{
  QueryError, Prototype, Searcher, Variable, Expression, Heap, fresh,
}
use httk_store.Federation.Searcher.Build.{bound_to, conditioned}
use httk_store.Federation.Searcher.Planning.{make_plan, frozen, counted_plan, count}
use httk_store.Federation.Searcher.Steps.{Sys, AmongPlans}
use httk_store.Federation.Searcher.Cache.{
  Agree, IsKnown, IsCoherent, total, total-unpaged, count_plan_keeps,
}
use httk_store.Federation.Searcher.Calls.{make_plan-change, Added, kept_out, failed, retained}

pub len-caches :
    (P : Caches → Type 0) (offset : ℕ) (limit : Option ℕ) (caches : Caches)
    (counted : Result SourceError ℕ × Caches)
    → P caches
    → P counted.1
    → P (len_within offset limit caches counted).1
len-caches P offset none caches (ok n, c) h k = k
len-caches P offset none caches (err e, c) h k = k
len-caches P offset (some zero) caches counted h k = h
len-caches P offset (some (suc n)) caches (ok m, c) h k = k
len-caches P offset (some (suc n)) caches (err e, c) h k = k

module _ {V : Type 0} (s : Sys V) (x : IsCoherent s) where
  -- A plan of the system keeps the caches in agreement.
  pub known_count :
      (plan : Plan V)
      → IsKnown s.searcher.store x.ghost s.heap.next plan
      → ((count_plan s.searcher.store plan s.heap.caches).0 ≡ total s.searcher.store plan)
        × Agree x.ghost (count_plan s.searcher.store plan s.heap.caches).1
  known_count plan k =
      count_plan_keeps s.searcher.store x.ghost plan k.is_total s.heap.caches x.agree

  pub frozen-IsKnown :
      (v : Variable V) (outputs : List Output)
      → s.searcher.variable ≡ some v
      → IsKnown s.searcher.store x.ghost s.heap.next (frozen s.searcher v outputs)
  frozen-IsKnown v outputs is_v = record {
    is_total =
        total-unpaged s.searcher.store (frozen s.searcher v []) outputs s.searcher.offset
          s.searcher.limit s.searcher.count_cache
        ∙ x.bound v is_v;
    allocated = x.allocated;
  }

  pub sliced-IsKnown :
      (plan : Plan V) (start : ℕ) (stop : Option ℕ)
      → AmongPlans plan s.plans
      → IsKnown s.searcher.store x.ghost s.heap.next (sliced plan start stop)
  sliced-IsKnown plan start stop among = record {
    is_total =
        total-unpaged s.searcher.store plan plan.outputs (sliced plan start stop).offset
          (sliced plan start stop).limit plan.count_cache
        ∙ (x.known plan among).is_total;
    allocated = (x.known plan among).allocated;
  }

  pub binds-IsCoherent :
      (v : Variable V)
      → s.searcher.variable ≡ none
      → IsCoherent (record s { searcher = bound_to s.searcher v })
  binds-IsCoherent v free =
      let (no_plans, empty) = x.unbound free in
      let it = total s.searcher.store (frozen s.searcher v []) in
      record {
        ghost = λ k. it;
        known = λ p among. absurd (subst (AmongPlans p) no_plans among);
        agree = λ k t cached. absurd (cc (empty k, cached));
        allocated = x.allocated;
        unbound = λ h. absurd (cc h);
        bound = λ w is_w.
            let e : v ≡ w = cc is_w in
            ap (λ u. total s.searcher.store (frozen s.searcher u [])) (sym e);
      }

  -- A change of outputs and paging.
  pub unpaged-IsCoherent :
      (outputs : List Output) (limit : Option ℕ) (offset : ℕ)
      → IsCoherent (record s {
        searcher = record s.searcher { outputs = outputs; limit = limit; offset = offset };
      })
  unpaged-IsCoherent outputs limit offset = record {
    ghost = x.ghost;
    known = x.known;
    agree = x.agree;
    allocated = x.allocated;
    unbound = x.unbound;
    bound = λ v is_v.
        total-unpaged s.searcher.store (frozen s.searcher v []) [] offset limit
          s.searcher.count_cache
        ∙ x.bound v is_v;
  }

  rebound-IsCoherent :
      (v : Variable V) (children : List (Prototype V))
      → s.searcher.variable ≡ some v
      → IsCoherent (record s {
        searcher = bound_to s.searcher (record { targets = v.targets; children = children });
      })
  rebound-IsCoherent v children is_v = record {
    ghost = x.ghost;
    known = x.known;
    agree = x.agree;
    allocated = x.allocated;
    unbound = λ h. absurd (cc h);
    bound = λ w is_w.
        let e : record { targets = v.targets; children = children } ≡ w = cc is_w in
        ap (λ (u : Variable V). total s.searcher.store (frozen s.searcher u [])) (sym e)
        ∙ x.bound v is_v;
  }

  -- A condition that is kept takes a new address.
  conditioned-IsCoherent :
      (v : Variable V) (ast : Ast V) (children : List (Prototype V))
      → s.searcher.variable ≡ some v
      → IsCoherent (record s {
        searcher = conditioned s.searcher v.targets ast children s.heap.next;
        heap = fresh s.heap;
      })
  conditioned-IsCoherent v ast children is_v = record {
    ghost = ghost;
    known = λ p among. record {
      is_total =
          (x.known p among).is_total
          ∙ sym (if_false _ _ (other p.count_cache (x.known p among).allocated));
      allocated = let l = (x.known p among).allocated in omega (arith, l);
    };
    agree = agree;
    allocated = omega arith;
    unbound = λ h. absurd (cc h);
    bound = λ w is_w.
        let e : record { targets = v.targets; children = children } ≡ w = cc is_w in
        ap (λ (u : Variable V). total s.searcher.store (frozen changed u [])) (sym e)
        ∙ sym (if_true _ _ self);
  }
    where
      changed : Searcher V
      changed = conditioned s.searcher v.targets ast children s.heap.next

      ghost : ℕ → Result SourceError ℕ
      ghost k =
          if eqb s.heap.next k
          then total s.searcher.store
              (frozen changed (record { targets = v.targets; children = children }) [])
          else x.ghost k

      other : (k : ℕ) → k < s.heap.next → eqb s.heap.next k ≡ false
      other k l = ground (arith, l)

      self : eqb s.heap.next s.heap.next ≡ true
      self = ground arith

      agree : Agree ghost (fresh s.heap).caches
      agree k t cached = elim (Bool-cases (eqb s.heap.next k)) [
        | inl new ↦ let e : none ≡ some t = sym (if_true _ _ new) ∙ cached in absurd (cc e)
        | inr old ↦ if_false _ _ old ∙ x.agree k t (sym (if_false _ _ old) ∙ cached)
      ]

  pub planned-IsCoherent :
      (plan : Plan V)
      → IsKnown s.searcher.store x.ghost s.heap.next plan
      → (s.searcher.variable ≡ none → ⊥)
      → IsCoherent (record s { plans = plan ∷ s.plans })
  planned-IsCoherent plan k is_bound = record {
    ghost = x.ghost;
    known = known;
    agree = x.agree;
    allocated = x.allocated;
    unbound = λ h. absurd (is_bound h);
    bound = x.bound;
  }
    where
      known :
          (p : Plan V)
          → AmongPlans p (plan ∷ s.plans)
          → IsKnown s.searcher.store x.ghost s.heap.next p
      known p (inl e) = subst (IsKnown s.searcher.store x.ghost s.heap.next) (sym e) k
      known p (inr among) = x.known p among

  pub cached-IsCoherent :
      (caches : Caches)
      → Agree x.ghost caches
      → (s.searcher.variable ≡ none → ⊥)
      → IsCoherent (record s { heap = record s.heap { caches = caches } })
  cached-IsCoherent caches agree is_bound = record {
    ghost = x.ghost;
    known = x.known;
    agree = agree;
    allocated = x.allocated;
    unbound = λ h. absurd (is_bound h);
    bound = x.bound;
  }

  pub among-bound : (plan : Plan V) → AmongPlans plan s.plans → s.searcher.variable ≡ none → ⊥
  among-bound plan among free = subst (AmongPlans plan) (x.unbound free).0 among

  pub adds-IsCoherent :
      (e : Expression V) (searcher : Searcher V) (heap : Heap)
      → Added s.searcher e s.heap searcher heap
      → IsCoherent (record s { searcher = searcher; heap = heap })
  adds-IsCoherent e _ _ kept_out = x
  adds-IsCoherent e _ _ (failed v children is_v) = rebound-IsCoherent v children is_v
  adds-IsCoherent e _ _ (retained v children is_v) = conditioned-IsCoherent v e.ast children is_v

  pub counts-IsCoherent : IsCoherent (record s { heap = (count s.searcher s.heap).1 })
  unfolding count
  counts-IsCoherent = go (make_plan s.searcher [] false) refl
    where
      go :
          (m : Result QueryError (Plan V))
          → make_plan s.searcher [] false ≡ m
          → IsCoherent (record s { heap = (counted_plan s.searcher m s.heap).1 })
      go (err e) h = x
      go (ok plan) h =
          let (v, chosen, is_v, e) = make_plan-change s.searcher [] false plan h in
          cached-IsCoherent (count_plan s.searcher.store plan s.heap.caches).1
            (known_count plan (
              subst (IsKnown s.searcher.store x.ghost s.heap.next) (sym e)
                (frozen-IsKnown v chosen is_v))).1
            (λ free. cc (free, is_v))
