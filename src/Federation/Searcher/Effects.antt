-- ===== src/Federation/Searcher/Effects.antt =====
-- `FederatedSearcher.add` (federated_store.py), where it succeeds and where it raises.
use httk_store.Prelude.{
  ℕ, ◌≡◌, refl, ap, sym, subst, String, true, false, Option, none, some, List, [], ◌∷◌, ◌++◌,
  Result, ok, err, eqb, not, Bool-cases, inl, inr, if_true, if_false, if◌then◌else◌, arith,
}
use httk_store.Federation.{SourceError}
use httk_store.Federation.Searcher.{
  QueryError, no_variable, foreign_expression, Prototype, Searcher, Variable, Expression, Heap,
}
use httk_store.Federation.Searcher.Build.{add_children, added, add}

-- What a call of `add` leaves.
abbrev pub AddEffect :
    {V : Type 0}
    → Expression V
    → Searcher V
    → Heap
    → Result QueryError (Unit {0}) × Searcher V × Heap
    → Type 0
AddEffect e s heap (err x, s', heap') =
    (s'.expressions ≡ s.expressions) × (s'.count_cache ≡ s.count_cache) × (heap' ≡ heap)
AddEffect e s heap (ok u, s', heap') =
    (s'.expressions ≡ s.expressions ++ e.ast ∷ [])
    × (s'.count_cache ≡ heap.next)
    × (heap'.caches heap.next ≡ none)
    × ((k : ℕ) → eqb heap.next k ≡ false → heap'.caches k ≡ heap.caches k)

module _ {V : Type 0} (e : Expression V) (s : Searcher V) (heap : Heap) where
  added_effect :
      (targets : List (String × V)) (r : Result SourceError (Unit {0}) × List (Prototype V))
      → AddEffect e s heap (added s heap targets e.ast r)
  added_effect targets (err x, children) = (refl, refl, refl)
  added_effect targets (ok u, children) =
      let self : eqb heap.next heap.next ≡ true = ground arith in
      (refl, refl, if_true _ _ self, λ k apart. if_false _ _ apart)

  -- `add` keeps the condition and starts an empty count cache, the caches of the plans as they were; where
  -- it raises, though a source may have failed after others took the condition, the searcher keeps its
  -- conditions and its cache, and no cache changes.
  pub add_effect : AddEffect e s heap (add s e heap)
  unfolding add
  add_effect = go s.variable
    where
      go :
          (variable : Option (Variable V))
          → AddEffect e s heap
              (elim variable as (λ x. Result QueryError (Unit {0}) × Searcher V × Heap) [
                | none ↦ (err no_variable, s, heap)
                | some v ↦
                    if not (eqb e.owner s.me)
                    then (err foreign_expression, s, heap)
                    else added s heap v.targets e.ast (add_children e.ast v.children)
              ])
      go none = (refl, refl, refl)
      go (some v) = elim (Bool-cases (eqb e.owner s.me)) [
        | inl mine ↦
            subst (AddEffect e s heap) (sym (if_false _ _ (ap not mine)))
              (added_effect v.targets (add_children e.ast v.children))
        | inr foreign ↦
            subst (AddEffect e s heap) (sym (if_true _ _ (ap not foreign))) (refl, refl, refl)
      ]
