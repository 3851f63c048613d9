-- ===== src/Federation/Searcher/Calls.antt =====
-- What the operations of FederatedSearcher (federated_store.py) change.
use httk_store.Prelude.{
  ℕ, ◌+◌, ◌≡◌, refl, ap, sym, ◌∙◌, subst, String, Bool, true, Option, none, some, List, [], ◌∷◌,
  ◌++◌, inl, inr, Result, ok, err, ◌>>=◌, >>=-eq-ok, eqb, not, Bool-cases, if_true, if_false,
  if◌then◌else◌,
}
use httk_store.Federation.{SourceError, Output, Plan}
use httk_store.Federation.Results.{Bound, absent, number, negative, other_bound}
use httk_store.Federation.Searcher.{
  QueryError, second_root, no_variable, foreign_expression, no_outputs, Prototype, Searcher,
  Variable, Target, Expression, OutputValue, Heap, fresh, raised_by,
}
use httk_store.Federation.Searcher.Build.{
  require_variable, bind_children, source_targets, bound_to, bind_variable, add_children,
  conditioned, added, add,
}
use httk_store.Federation.Searcher.Planning.{
  with_outputs, paged, declare_output, build_output, set_limit, add_offset, planned, has_outputs,
  make_plan, frozen,
}

module _ {V : Type 0} (s : Searcher V) where
  pub bind_variable-change :
      (target : Target V) (s' : Searcher V)
      → bind_variable s target ≡ ok s'
      → (s.variable ≡ none) × (v : Variable V) × (s' ≡ bound_to s v)
  unfolding bind_variable
  bind_variable-change target s' h = go s.variable refl h
    where
      go :
          (variable : Option (Variable V))
          → s.variable ≡ variable
          → (elim variable as (λ x. Result QueryError (Searcher V)) [
            | some v ↦ err second_root
            | none ↦ do
              targets ← source_targets s target
              children ← raised_by (bind_children s.as_of s.only_latest targets s.store)
              ok (bound_to s (record { targets = targets; children = children }))
          ])
            ≡ ok s'
          → (s.variable ≡ none) × (v : Variable V) × (s' ≡ bound_to s v)
      go (some v) e k = cc
      go none e k =
          let (targets, t, k') = >>=-eq-ok (source_targets s target) _ k in
          let (children, c, k'') =
            >>=-eq-ok (raised_by (bind_children s.as_of s.only_latest targets s.store)) _ k' in
          (e, record { targets = targets; children = children }, cc k'')

  pub declare_output-change :
      (value : OutputValue) (name : String) (s' : Searcher V)
      → declare_output s value name ≡ ok s'
      → (outputs : List Output) × (s' ≡ with_outputs s outputs)
  unfolding declare_output
  declare_output-change value name s' h =
      let (output, o, k) = >>=-eq-ok (build_output s value name true) _ h in
      (s.outputs ++ output ∷ [], cc k)

  pub set_limit-change :
      (limit : Bound) (s' : Searcher V)
      → set_limit s limit ≡ ok s'
      → (l : Option ℕ) × (s' ≡ paged s l s.offset)
  unfolding set_limit
  set_limit-change (number n) s' h = (some n, cc h)
  set_limit-change (negative below) s' h = (none, cc h)
  set_limit-change absent s' h = cc
  set_limit-change other_bound s' h = cc

  pub add_offset-change :
      (offset : Bound) (s' : Searcher V)
      → add_offset s offset ≡ ok s'
      → (o : ℕ) × (s' ≡ paged s s.limit o)
  unfolding add_offset
  add_offset-change (number n) s' h = (s.offset + n, cc h)
  add_offset-change (negative below) s' h = cc
  add_offset-change absent s' h = cc
  add_offset-change other_bound s' h = cc

  pub require_variable-some : (v : Variable V) → s.variable ≡ some v → require_variable s ≡ ok v
  require_variable-some v is_v = rw is_v refl

  require_variable-is : (v : Variable V) → require_variable s ≡ ok v → s.variable ≡ some v
  require_variable-is v h = go s.variable refl h
    where
      go :
          (variable : Option (Variable V))
          → s.variable ≡ variable
          → (elim variable as (λ x. Result QueryError (Variable V)) [
            | none ↦ err no_variable
            | some v ↦ ok v
          ])
            ≡ ok v
          → s.variable ≡ some v
      go none e k = cc
      go (some w) e k = e ∙ cc k

  pub make_plan-change :
      (outputs : List (String × OutputValue)) (require_outputs : Bool) (plan : Plan V)
      → make_plan s outputs require_outputs ≡ ok plan
      → (v : Variable V) × (chosen : List Output) × (s.variable ≡ some v)
        × (plan ≡ frozen s v chosen)
  unfolding make_plan
  make_plan-change outputs require_outputs plan h =
      let (v, is_v, k) = >>=-eq-ok (require_variable s) _ h in
      let (chosen, c, k') = >>=-eq-ok (planned s outputs) _ k in
      (
        v,
        chosen,
        require_variable-is v is_v,
        elim (Bool-cases (has_outputs require_outputs chosen)) [
          | inl t ↦ let e : ok plan ≡ ok (frozen s v chosen) = sym k' ∙ if_true _ _ t in cc e
          | inr f ↦ let e : ok plan ≡ err no_outputs = sym k' ∙ if_false _ _ f in cc
        ],
      )

  -- The three outcomes of `add`: nothing changes, the prototypes change, or the condition is kept.
  pub data Added (e : Expression V) (heap : Heap) : Searcher V → Heap → Type 1 where
    kept_out : Added e heap s heap
    failed :
        (v : Variable V) (children : List (Prototype V))
        → s.variable ≡ some v
        → Added e heap (bound_to s (record { targets = v.targets; children = children })) heap
    retained :
        (v : Variable V) (children : List (Prototype V))
        → s.variable ≡ some v
        → Added e heap (conditioned s v.targets e.ast children heap.next) (fresh heap)

  pub add-Added : (e : Expression V) (heap : Heap) → Added e heap (add s e heap).1 (add s e heap).2
  unfolding add
  add-Added e heap = go s.variable refl
    where
      changed :
          (v : Variable V) (r : Result SourceError (Unit {0}) × List (Prototype V))
          → s.variable ≡ some v
          → Added e heap (added s heap v.targets e.ast r).1 (added s heap v.targets e.ast r).2
      changed v (err x, children) is_v = failed v children is_v
      changed v (ok u, children) is_v = retained v children is_v

      go :
          (variable : Option (Variable V))
          → s.variable ≡ variable
          → let r = elim variable as (λ x. Result QueryError (Unit {0}) × Searcher V × Heap) [
            | none ↦ (err no_variable, s, heap)
            | some v ↦
                if not (eqb e.owner s.me)
                then (err foreign_expression, s, heap)
                else added s heap v.targets e.ast (add_children e.ast v.children)
          ] in
            Added e heap r.1 r.2
      go none is_v = kept_out
      go (some v) is_v = elim (Bool-cases (eqb e.owner s.me)) [
        | inl mine ↦
            subst (λ (r : Result QueryError (Unit {0}) × Searcher V × Heap). Added e heap r.1 r.2)
              (sym (if_false _ _ (ap not mine))) (changed v (add_children e.ast v.children) is_v)
        | inr foreign ↦
            subst (λ (r : Result QueryError (Unit {0}) × Searcher V × Heap). Added e heap r.1 r.2)
              (sym (if_true _ _ (ap not foreign))) kept_out
      ]
