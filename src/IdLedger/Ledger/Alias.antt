-- ===== src/IdLedger/Ledger/Alias.antt =====
-- `IdLedger.alias`: what it returns and what it leaves behind, on every branch.
use httk_store.Prelude.{
  String, ◌≡◌, refl, ap, ◌∙◌, Bool, true, false, Option, none, some, ◌∷◌, [], ◌==◌, if◌then◌else◌,
  contains, Result, ok, err, arith, eq_iff, Option-cases, inl, inr, Bool-cases,
}
use httk_store.IdLedger.Errors.{Error}
use httk_store.IdLedger.Records.{
  Binding, assigned, alias_of, Record, live_id, EntryIds, assigned_ids, prior_id, IsLink,
}
use httk_store.IdLedger.Records.Chain.{assigned_ids-append, contains_more}
use httk_store.IdLedger.Ledger.{
  Ledger, append, live_binding, lookup, alias, alias_binding, append_alias, require_open,
}
use httk_store.IdLedger.Ledger.Invariant.{
  IsValid, prior_of, lookup-live_binding, append-IsValid, lookup-append,
}

abbrev aliased : String → String → Option String → Record
aliased key target supersedes = record {
  key = key;
  binding = alias_of target;
  supersedes = supersedes;
}

-- The outcomes of `alias`: an error that changes nothing, the alias at hand, or a new record at
-- the end, whose target is assigned.
pub data Aliased (ids : EntryIds) (key target : String) (l : Ledger)
    (out : Result Error (Unit {0}) × Ledger) : Type 0 where
  refused : (e : Error) → out ≡ (err e, l) → Aliased ids key target l out
  found :
      live_binding key l ≡ some (alias_of target) → out ≡ (ok tt, l) → Aliased ids key target l out
  created :
      (supersedes : Option String)
      → IsLink ids l.bases l.series l.records (aliased key target supersedes)
      → contains target (assigned_ids l.records) ≡ true
      → out ≡ (ok tt, append (aliased key target supersedes) l)
      → Aliased ids key target l out

-- What a caller sees of `alias`, by its result.
abbrev pub AliasEffect : String → String → Ledger → Result Error (Unit {0}) × Ledger → Type 0
AliasEffect key target l (ok _, l') =
    (other : String) → lookup other l' ≡ (if key == other then some target else lookup other l)
AliasEffect key target l (err e, l') = l' ≡ l

module _ (ids : EntryIds) (key target : String) (l : Ledger) (v : IsValid ids l) where
  append_alias-Aliased :
      (supersedes : Option String)
      → supersedes ≡ prior_id key l.records
      → Aliased ids key target l (append_alias key target supersedes l)
  unfolding append_alias
  append_alias-Aliased sup hs = elim (Bool-cases (contains target (assigned_ids l.records))) [
    | inr unknown ↦ refused Error.unknown_target (rw (unknown, append_alias))
    | inl known ↦
        created sup (record { supersession = hs; declared = tt; fresh = tt }) known
          (rw (known, append_alias))
  ]

  alias_binding-Aliased :
      (supersede : Bool) (b : Option Binding)
      → live_binding key l ≡ b
      → Aliased ids key target l (alias_binding key target supersede b l)
  unfolding alias_binding live_id
  alias_binding-Aliased true none e = refused Error.supersedes_new refl
  alias_binding-Aliased false none e = append_alias-Aliased none (prior_of ids key l v none e)
  alias_binding-Aliased true (some (assigned f id)) e = elim (Bool-cases (target == id)) [
    | inl itself ↦ refused Error.alias_to_itself (rw itself)
    | inr other ↦
        rw other (append_alias-Aliased (some id) (prior_of ids key l v (some (assigned f id)) e))
  ]
  alias_binding-Aliased false (some (assigned f id)) e = refused Error.assigned_key refl
  alias_binding-Aliased true (some (alias_of t)) e = refused Error.already_alias refl
  alias_binding-Aliased false (some (alias_of t)) e = elim (Bool-cases (t == target)) [
    | inl same ↦ found (e ∙ ap (λ g. some (alias_of g)) ((eq_iff t target).0 same)) (rw same)
    | inr other ↦ refused Error.other_target (rw other)
  ]

  -- Every call of `alias` has one of the three outcomes.
  pub alias-Aliased : (supersede : Bool) → Aliased ids key target l (alias key target supersede l)
  unfolding alias
  alias-Aliased supersede = elim (Option-cases (require_open l)) [
    | inr (e, bad) ↦ refused e (rw (bad, alias))
    | inl fine ↦ rw (fine, alias) (alias_binding-Aliased supersede (live_binding key l) refl)
  ]

  -- A valid ledger stays valid under `alias`, whether it returns or raises.
  pub alias-IsValid : (supersede : Bool) → IsValid ids (alias key target supersede l).1
  alias-IsValid supersede = elim (alias-Aliased supersede) [
    | refused e h ↦ rw h v
    | found b h ↦ rw h v
    | created sup link known h ↦
        let r = aliased key target sup in
        rw h (
          append-IsValid ids r l v link (
            rw (assigned_ids-append l.records (r ∷ []))
              (contains_more target (assigned_ids l.records) (assigned_ids (r ∷ [])) known)))
  ]

  -- After a successful `alias` the key resolves to the target, and every other key to what it
  -- resolved to before; an error changes nothing.
  pub alias_effect : (supersede : Bool) → AliasEffect key target l (alias key target supersede l)
  unfolding live_id
  alias_effect supersede = elim (alias-Aliased supersede) [
    | refused e h ↦ rw h refl
    | found b h ↦ rw h (λ other. ground (arith, lookup-live_binding key l, b, eq_iff key other))
    | created sup link known h ↦ rw h (lookup-append (aliased key target sup) l)
  ]
