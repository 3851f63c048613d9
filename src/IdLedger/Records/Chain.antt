-- ===== src/IdLedger/Records/Chain.antt =====
-- Ordered lists of ledger records: soundness, and the readings of a list that grows at its end.
use httk_store.Prelude.{
  String, ◌≡◌, refl, true, ◌||◌, none, some, List, [], ◌∷◌, ◌++◌, append_assoc, append-nil, arith,
  ◌==◌, eq_refl, if◌then◌else◌, contains, All,
}
use httk_store.Prelude.Dict.{Dict, lookup, insert, lookup-insert}
use httk_store.IdLedger.Records.{
  Binding, assigned, alias_of, Record, EntryIds, assigned_ids, live_from, newest, Resolves, IsLink,
}

-- Each record is in order after `before` and the ones above it.
abbrev pub IsChain : EntryIds → Dict String → String → List Record → List Record → Type 0
IsChain ids bases series before [] = Unit
IsChain ids bases series before (r ∷ rs) =
    IsLink ids bases series before r × IsChain ids bases series (before ++ r ∷ []) rs

-- Every alias among the second records points at an id that the first assign.
abbrev pub HasTargets : List Record → List Record → Type 0
HasTargets rs = All (λ (r : Record). Resolves rs r.binding)

-- The records of a well-formed ledger.
pub record IsSound (ids : EntryIds) (bases : Dict String) (series : String) (rs : List Record)
    : Type 0 where
  pub chain : IsChain ids bases series [] rs
  pub targets : HasTargets rs rs

pub contains-append :
    (a : String) (xs ys : List String) → contains a (xs ++ ys) ≡ (contains a xs || contains a ys)
contains-append a [] ys = refl
contains-append a (x ∷ xs) ys = ground (arith, contains-append a xs ys)

pub contains_self : (a : String) (xs : List String) → contains a (xs ++ a ∷ []) ≡ true
contains_self a xs = rw contains-append (rw eq_refl (ground arith))

pub contains_more :
    (a : String) (xs ys : List String) → contains a xs ≡ true → contains a (xs ++ ys) ≡ true
contains_more a xs ys h = rw contains-append (ground arith)

pub assigned_ids-append :
    (xs ys : List Record) → assigned_ids (xs ++ ys) ≡ assigned_ids xs ++ assigned_ids ys
unfolding assigned_ids
assigned_ids-append [] ys = refl
assigned_ids-append (x ∷ xs) ys = ground (arith, assigned_ids-append xs ys)

pub newest-append :
    (k : String) (xs : List Record) (r : Record)
    → newest k (xs ++ r ∷ []) ≡ (if r.key == k then some r else newest k xs)
unfolding newest
newest-append k [] r = ground arith
newest-append k (x ∷ xs) r = ground (arith, newest-append k xs r)

pub live_from-append :
    (d : Dict Record) (xs ys : List Record) → live_from d (xs ++ ys) ≡ live_from (live_from d xs) ys
unfolding live_from
live_from-append d [] ys = refl
live_from-append d (x ∷ xs) ys = live_from-append (insert x.key x d) xs ys

-- The dict of live bindings holds each key's newest record.
pub lookup-live_from :
    (k : String) (d : Dict Record) (rs : List Record)
    → lookup k (live_from d rs) ≡ elim (newest k rs) [ some n ↦ some n | none ↦ lookup k d ]
unfolding live_from newest
lookup-live_from k d [] = refl
lookup-live_from k d (r ∷ rs) =
    ground (arith, lookup-live_from k (insert r.key r d) rs, lookup-insert r.key k r d)

pub lookup-live_from_empty :
    (k : String) (rs : List Record) → lookup k (live_from [] rs) ≡ newest k rs
unfolding lookup
lookup-live_from_empty k rs = ground (arith, lookup-live_from k [] rs)

module _ (ids : EntryIds) (bases : Dict String) (series : String) where
  pub IsChain-append :
      (before xs ys : List Record)
      → IsChain ids bases series before xs
      → IsChain ids bases series (before ++ xs) ys
      → IsChain ids bases series before (xs ++ ys)
  IsChain-append before [] ys h k = subst_nil k
    where
      subst_nil : IsChain ids bases series (before ++ []) ys → IsChain ids bases series before ys
      subst_nil c = rw append-nil at c
  IsChain-append before (x ∷ xs) ys h k =
      (h.0, IsChain-append (before ++ x ∷ []) xs ys h.1 (rw append_assoc k))

Resolves-append : (rs ys : List Record) (b : Binding) → Resolves rs b → Resolves (rs ++ ys) b
Resolves-append rs ys (assigned f i) h = tt
Resolves-append rs ys (alias_of t) h =
    rw assigned_ids-append (contains_more t (assigned_ids rs) (assigned_ids ys) h)

targets_more : (rs ys xs : List Record) → HasTargets rs xs → HasTargets (rs ++ ys) xs
targets_more rs ys [] h = tt
targets_more rs ys (x ∷ xs) h = (Resolves-append rs ys x.binding h.0, targets_more rs ys xs h.1)

All-append {ℓ κ} :
    {A : Type ℓ} (P : A → Type κ) (old new : List A) → All P old → All P new → All P (old ++ new)
All-append P [] new before after = after
All-append P (r ∷ old) new (first, before) after = (first, All-append P old new before after)

-- A sound list stays sound when one more record is linked to its end.
pub IsSound-append :
    (ids : EntryIds) (bases : Dict String) (series : String) (rs : List Record) (r : Record)
    → IsSound ids bases series rs
    → IsLink ids bases series rs r
    → Resolves (rs ++ r ∷ []) r.binding
    → IsSound ids bases series (rs ++ r ∷ [])
IsSound-append ids bases series rs r s l t = record {
  chain = IsChain-append ids bases series [] rs (r ∷ []) s.chain (l, tt);
  targets =
      All-append (λ (x : Record). Resolves (rs ++ r ∷ []) x.binding) rs (r ∷ [])
        (targets_more rs (r ∷ []) rs s.targets) (t, tt);
}
