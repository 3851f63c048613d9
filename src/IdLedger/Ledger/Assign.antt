-- ===== src/IdLedger/Ledger/Assign.antt =====
-- `IdLedger.assign`: what it returns and what it leaves behind, on every branch.
use httk_store.Prelude.{
  ◌+◌, String, ◌≡◌, refl, ap, sym, ◌∙◌, Bool, true, false, Option, none, some, [], ◌==◌,
  if◌then◌else◌, Result, ok, err, arith, eq_iff, eq_refl, Option-cases, inl, inr, Bool-cases, subst,
}
use httk_store.Prelude.Dict
use httk_store.Prelude.Dict.{Dict, insert}
use httk_store.IdLedger.Errors.{Error}
use httk_store.IdLedger.Records.{
  Binding, assigned, alias_of, Record, live_id, EntryIds, EntryIdLaws, next_number, prior_id,
  IsLink,
}
use httk_store.IdLedger.Ledger.{
  Ledger, append, live_binding, lookup, mint, assign, assign_binding, require_open,
}
use httk_store.IdLedger.Ledger.Invariant.{
  IsValid, prior_of, lookup-live_binding, append-IsValid, lookup-append, contains_fresh,
}

abbrev minted : String → String → String → Option String → Record
minted key family id supersedes = record {
  key = key;
  binding = assigned family id;
  supersedes = supersedes;
}

-- The outcomes of a method that mints: an error that changes nothing, the binding at hand, or a
-- new record at the end, linked to the ones before it.
pub data Assigned (ids : EntryIds) (key family : String) (l : Ledger)
    (out : Result Error String × Ledger) : Type 0 where
  refused : (e : Error) → out ≡ (err e, l) → Assigned ids key family l out
  found :
      (id : String)
      → live_binding key l ≡ some (assigned family id)
      → out ≡ (ok id, l)
      → Assigned ids key family l out
  created :
      (id : String) (supersedes : Option String)
      → IsLink ids l.bases l.series l.records (minted key family id supersedes)
      → out ≡ (ok id, append (minted key family id supersedes) l)
      → Assigned ids key family l out

-- What a caller sees of `assign`, by its result.
abbrev pub AssignEffect : String → Ledger → Result Error String × Ledger → Type 0
AssignEffect key l (ok id, l') =
    (other : String) → lookup other l' ≡ (if key == other then some id else lookup other l)
AssignEffect key l (err e, l') = l' ≡ l

require_open-append : (r : Record) (l : Ledger) → require_open (append r l) ≡ require_open l
unfolding require_open append
require_open-append r l = refl

live_binding-append : (r : Record) (l : Ledger) → live_binding r.key (append r l) ≡ some r.binding
unfolding live_binding append
live_binding-append r l = rw Dict.lookup-insert_self

module _ (ids : EntryIds) (key family : String) where
  assign-require_open :
      (supersede : Bool) (l : Ledger) (id : String) (l' : Ledger)
      → assign ids key family supersede l ≡ (ok id, l')
      → require_open l ≡ none
  unfolding assign
  assign-require_open supersede l id l' h = elim (Option-cases (require_open l)) [
    | inl fine ↦ fine
    | inr (e, bad) ↦ absurd (cc (rw (bad, assign) at h))
  ]

  assign_again :
      (id : String) (l : Ledger)
      → require_open l ≡ none
      → live_binding key l ≡ some (assigned family id)
      → assign ids key family false l ≡ (ok id, l)
  unfolding assign assign_binding
  assign_again id l o b = rw (o, b, assign) (simp eq_refl)

module _ (ids : EntryIds) (laws : EntryIdLaws ids) (key family : String) (l : Ledger)
    (v : IsValid ids l) where
  mint-IsLink :
      (supersedes : Option String) (base id : String)
      → supersedes ≡ prior_id key l.records
      → Dict.lookup family l.bases ≡ some base
      → ids.format_entry_id base l.series (next_number ids family l.records + 1) ≡ some id
      → IsLink ids l.bases l.series l.records (minted key family id supersedes)
  unfolding next_number
  mint-IsLink sup base id hs hb hf =
      let n = next_number ids family l.records + 1 in
      let parsed = laws.parse-format base l.series n id hf in
      record {
        supersession = hs;
        declared = (laws.format-conforms base l.series n id hf, (base, n, hb, parsed));
        fresh =
            contains_fresh ids l.bases l.series family base id n v.unique_bases hb parsed 0 []
              l.records (omega arith) v.sound.chain;
      }

  mint-Assigned :
      (supersedes : Option String)
      → supersedes ≡ prior_id key l.records
      → Assigned ids key family l (mint ids key family supersedes l)
  unfolding mint
  mint-Assigned sup hs = elim (Option-cases (Dict.lookup family l.bases)) [
    | inl missing ↦ refused Error.no_base (rw (missing, mint))
    | inr (base, hb) ↦
        let number = next_number ids family l.records + 1 in
        elim (Option-cases (ids.format_entry_id base l.series number)) [
          | inl bad ↦ refused Error.value_error (rw (hb, bad, mint))
          | inr (id, hf) ↦ created id sup (mint-IsLink sup base id hs hb hf) (rw (hb, hf, mint))
        ]
  ]

  assign_binding-Assigned :
      (supersede : Bool) (b : Option Binding)
      → live_binding key l ≡ b
      → Assigned ids key family l (assign_binding ids key family supersede b l)
  unfolding assign_binding live_id
  assign_binding-Assigned true none e = refused Error.supersedes_new refl
  assign_binding-Assigned false none e = mint-Assigned none (prior_of ids key l v none e)
  assign_binding-Assigned true (some (assigned f id)) e = refused Error.supersedes_assignment refl
  assign_binding-Assigned false (some (assigned f id)) e = elim (Bool-cases (f == family)) [
    | inl same ↦ found id (e ∙ ap (λ g. some (assigned g id)) ((eq_iff f family).0 same)) (rw same)
    | inr other ↦ refused Error.other_family (rw other)
  ]
  assign_binding-Assigned true (some (alias_of t)) e =
      mint-Assigned (some t) (prior_of ids key l v (some (alias_of t)) e)
  assign_binding-Assigned false (some (alias_of t)) e = refused Error.aliased_key refl

  -- Every call of `assign` has one of the three outcomes.
  pub assign-Assigned :
      (supersede : Bool) → Assigned ids key family l (assign ids key family supersede l)
  unfolding assign
  assign-Assigned supersede = elim (Option-cases (require_open l)) [
    | inr (e, bad) ↦ refused e (rw (bad, assign))
    | inl fine ↦ rw (fine, assign) (assign_binding-Assigned supersede (live_binding key l) refl)
  ]

  -- A valid ledger stays valid under `assign`, whether it returns or raises.
  pub assign-IsValid : (supersede : Bool) → IsValid ids (assign ids key family supersede l).1
  assign-IsValid supersede = elim (assign-Assigned supersede) [
    | refused e h ↦ rw h v
    | found id b h ↦ rw h v
    | created id sup link h ↦ rw h (append-IsValid ids (minted key family id sup) l v link tt)
  ]

  -- After a successful `assign` the key resolves to the returned id, and every other key to what it
  -- resolved to before; an error changes nothing.
  pub assign_effect : (supersede : Bool) → AssignEffect key l (assign ids key family supersede l)
  unfolding live_id
  assign_effect supersede = elim (assign-Assigned supersede) [
    | refused e h ↦ rw h refl
    | found id b h ↦ rw h (λ other. ground (arith, lookup-live_binding key l, b, eq_iff key other))
    | created id sup link h ↦ rw h (lookup-append (minted key family id sup) l)
  ]

  -- What `assign` returns, a second call for the same key and family without supersede returns again,
  -- with nothing written.
  pub assign_idempotent :
      (supersede : Bool) (id : String) (l' : Ledger)
      → assign ids key family supersede l ≡ (ok id, l')
      → assign ids key family false l' ≡ (ok id, l')
  assign_idempotent supersede id l' h =
      let open_l = assign-require_open ids key family supersede l id l' h in
      elim (assign-Assigned supersede) [
        | refused e r ↦ absurd (cc (sym h ∙ r))
        | found i b r ↦
            subst (λ p. assign ids key family false p.1 ≡ (p.0, p.1)) (sym r ∙ h)
              (assign_again ids key family i l open_l b)
        | created i sup link r ↦
            subst (λ p. assign ids key family false p.1 ≡ (p.0, p.1)) (sym r ∙ h)
              (assign_again ids key family i (append (minted key family i sup) l)
                (require_open-append (minted key family i sup) l ∙ open_l)
                (live_binding-append (minted key family i sup) l))
      ]
