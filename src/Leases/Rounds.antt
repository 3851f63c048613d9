-- ===== src/Leases/Rounds.antt =====
-- A round of the drain of `acquire_fsck` (leases.py), with no other call between its own.
use httk_store.Prelude.{
  ℕ, ◌≡◌, ◌↔◌, refl, ap, sym, ◌∙◌, true, false, List, [], ◌∷◌, ok, Bool-cases, inl, inr, if_true,
  if_false,
}
use httk_store.Leases.{
  WriterDoc, Collection, fresh_writers, sees_none, ids_of, fresh_ids, stale_writers, drained,
  poll_writers,
}

stale_writers-nil : (ds : List WriterDoc) → stale_writers [] ds ≡ ds
unfolding stale_writers
stale_writers-nil [] = refl
stale_writers-nil (d ∷ ds) = ap (λ rest. d ∷ rest) (stale_writers-nil ds)

drained-ok : (ds : List WriterDoc) → drained false ds ≡ ok true → ds ≡ []
unfolding drained
drained-ok [] h = refl
drained-ok (d ∷ ds) h = absurd (cc h)

-- Where no document is fresh, every document is stale.
quiet_round :
    (fresh ds : List WriterDoc)
    → (elim fresh [ [] ↦ true | d ∷ rest ↦ false ]) ≡ true
    → stale_writers (ids_of fresh) ds ≡ ds
unfolding ids_of
quiet_round [] ds h = stale_writers-nil ds
quiet_round (d ∷ rest) ds h = absurd (cc h)

-- Without force, and with no other call between the three of a round, `acquire_fsck` returns its lease
-- from that round exactly if no writer has a document, fresh or stale.
pub poll_writers_quiet :
    (cutoff_ms : ℕ) (c : Collection)
    → (poll_writers cutoff_ms false c c c ≡ ok true) ↔ (c.writers ≡ [])
unfolding poll_writers sees_none fresh_ids stale_writers drained fresh_writers ids_of
poll_writers_quiet cutoff_ms c = (to, from)
  where
    to : poll_writers cutoff_ms false c c c ≡ ok true → c.writers ≡ []
    to h = elim (Bool-cases (sees_none cutoff_ms c)) [
      | inr some_fresh ↦ absurd (cc (sym (if_false _ _ some_fresh) ∙ h))
      | inl none_fresh ↦ drained-ok c.writers (
          ap (drained false)
            (sym (quiet_round (fresh_writers cutoff_ms c.now c.writers) c.writers none_fresh))
          ∙ sym (if_true _ _ none_fresh)
          ∙ h)
    ]

    from : c.writers ≡ [] → poll_writers cutoff_ms false c c c ≡ ok true
    from h =
        ap
          (λ (ds : List WriterDoc).
            poll_writers cutoff_ms false (record c { writers = ds }) (record c { writers = ds })
              (record c { writers = ds }))
          h
        ∙ refl
