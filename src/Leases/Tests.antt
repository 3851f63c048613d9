-- ===== src/Leases/Tests.antt =====
-- A run of a writer and an fsck (leases.py).
use httk_store.Prelude.{
  ◌≡◌, ◌↔◌, refl, true, false, none, some, [], ◌∷◌, ok, err, arith, eqb, Bool-cases, inl, inr,
}
use httk_store.Leases.{
  Collection, register_writer, check_writer, acquire_writer, install_fsck, poll_writers, drained,
  fresh_writers, stale_writers, sees_none, fresh_ids, ids_of, id_in, is_fresh, without,
  release_writer, layout_generation, locked, checked_writer,
}
use httk_store.Leases.Exclusion.{interleaved-IsExclusive}
use httk_store.Leases.Steps.{
  idle, registered, writing, draining, Sys, move, registers, enters, installs, waits, time_passes,
  later, AreTimely, here, next, IsExclusive,
}
use httk_store.Leases.Rounds.{poll_writers_quiet}
use httk_store.Leases.Acquire.{AcquireEffect, acquire_writer_effect}

abbrev empty : Collection
empty = record { writers = []; fsck = none; layout = some (some 4); now = 100000 }

abbrev quiet : Sys
quiet = record { collection = empty; phase = λ p. idle }

abbrev one_registered : Sys
one_registered = move quiet 1 registered (register_writer 1 1 empty)

abbrev one_writes : Sys
one_writes = move one_registered 1 writing one_registered.collection

writer_enters : check_writer one_registered.collection ≡ ok 4
unfolding check_writer layout_generation register_writer
writer_enters = refl

abbrev with_fsck : Collection
with_fsck = record one_writes.collection { fsck = some (record { owner = 2; heartbeat = none }) }

fsck_installs : install_fsck 8000 false 2 one_writes.collection ≡ ok with_fsck
unfolding install_fsck register_writer
fsck_installs = refl

-- The writer's document is fresh, so fsck has to wait.
fsck_waits : sees_none 8000 with_fsck ≡ false
unfolding sees_none fresh_writers register_writer is_fresh
fsck_waits = refl

abbrev one_waits : Sys
one_waits = move (move one_writes 2 draining with_fsck) 2 draining with_fsck

abbrev a_second_on : Sys
a_second_on = record one_waits { collection = later 1000 with_fsck }

still_timely : AreTimely 8000 a_second_on
unfolding register_writer is_fresh
still_timely p h = elim (Bool-cases (eqb 1 p)) [
  | inl mine ↦ ground (arith, mine)
  | inr other ↦ ground (arith, h, other)
]

interleaved-IsExclusive_example : IsExclusive 8000 a_second_on
interleaved-IsExclusive_example =
    interleaved-IsExclusive 8000 quiet a_second_on (omega arith) (omega arith) (λ p. refl)
      (next
        (next
          (next (next (next here (registers 1 refl refl)) (enters 1 4 refl writer_enters))
            (installs 2 with_fsck refl fsck_installs))
          (waits 2 refl fsck_waits))
        (time_passes 1000 still_timely))

-- A writer that has missed its heartbeats, and one that then beats again.
abbrev late : Collection
late = record {
  writers = record { id = 1; owner = 1; heartbeat = 100 } ∷ [];
  fsck = some (record { owner = 2; heartbeat = some 100000 });
  layout = some (some 4);
  now = 100000;
}

abbrev beating : Collection
beating = record late { writers = record { id = 1; owner = 1; heartbeat = 100000 } ∷ [] }

-- Late at all three calls of a round, it stops a fsck without force.
late_stops : poll_writers 8000 false late late late ≡ err locked
unfolding poll_writers sees_none fresh_ids stale_writers drained fresh_writers is_fresh ids_of id_in
late_stops = refl

-- With its heartbeat between the two fresh queries neither shows it, and fsck gets its lease.
late_slips_through : poll_writers 8000 false late beating beating ≡ ok true
unfolding poll_writers sees_none fresh_ids stale_writers drained fresh_writers is_fresh ids_of id_in
late_slips_through = refl

abbrev vacated : Collection
vacated = record late { writers = [] }

poll_writers_quiet_example :
    (poll_writers 8000 false vacated vacated vacated ≡ ok true) ↔ (vacated.writers ≡ [])
poll_writers_quiet_example = poll_writers_quiet 8000 vacated

-- A writer that finds an fsck lease leaves nothing behind.
writer_refused : acquire_writer 3 3 with_fsck ≡ (err locked, with_fsck)
unfolding acquire_writer checked_writer check_writer register_writer release_writer without
writer_refused = refl

acquire_writer_effect_example : AcquireEffect 3 3 with_fsck (acquire_writer 3 3 with_fsck)
unfolding register_writer
acquire_writer_effect_example = acquire_writer_effect 3 3 with_fsck refl
