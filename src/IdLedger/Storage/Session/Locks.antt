-- ===== src/IdLedger/Storage/Session/Locks.antt =====
-- The lock file of an id ledger: how `create`, `open` and `close` take, hold and release it.
use httk_store.Prelude.{
  String, ◌≡◌, refl, ap, sym, Bool, true, false, Option, none, some, List, Result, ok, err, arith,
  >>=-eq-ok, ok-injective, or_raise, ◌∙◌, subst, if_false, if◌then◌else◌,
}
use httk_store.Prelude.Dict.{Dict}
use httk_store.IdLedger.Errors.{Error}
use httk_store.IdLedger.Records.{EntryIds}
use httk_store.IdLedger.Ledger.{Ledger, SigningKey}
use httk_store.IdLedger.Container.{Seals, Signed, File}
use httk_store.IdLedger.Bases.{validate_bases}
use httk_store.IdLedger.Storage.{World, write, write_signed, committed, read_and_validate}
use httk_store.IdLedger.Storage.Session.{
  create, create_checked, create_locked, open_ledger, open_locked, empty_ledger, finish_create,
  OpenArgs, load, check_series, effective_bases,
}

-- What `_write` leaves alone: the lock, and what the ledger is open for.
pub record Untouched (l l' : Ledger) (w w' : World) : Type 0 where
  pub lock : w'.lock ≡ w.lock
  pub closed : l'.closed ≡ l.closed
  pub read_only : l'.read_only ≡ l.read_only

write_signed-Untouched :
    (seals : Seals) (commits : Bool) (signed : Option Signed) (l : Ledger) (w : World)
    → let (r, l', w') = write_signed seals commits signed l w in Untouched l l' w w'
unfolding write_signed committed
write_signed-Untouched seals commits signed l w = record {
  lock = ground arith;
  closed = ground arith;
  read_only = ground arith;
}

pub write-Untouched :
    (seals : Seals) (commits : Bool) (l : Ledger) (w : World)
    → let (r, l', w') = write seals commits l w in Untouched l l' w w'
unfolding write write_signed committed
write-Untouched seals commits l w = record {
  lock = ground arith;
  closed = ground arith;
  read_only = ground arith;
}

-- A call that takes the lock if it returns a session, and leaves it as it was if it raises.
abbrev pub Acquires : World → Result Error Ledger × World → Type 0
Acquires w (ok l, w') =
    (w.lock ≡ false) × (w'.lock ≡ true) × (l.closed ≡ false) × (l.read_only ≡ false)
Acquires w (err e, w') = w'.lock ≡ w.lock

finish_create-Acquires :
    (l : Ledger) (w : World) (out : Result Error (Unit {0}) × Ledger × World)
    → w.lock ≡ false
    → l.closed ≡ false
    → l.read_only ≡ false
    → Untouched l out.1 (record w { lock = true }) out.2
    → Acquires w (finish_create out)
unfolding finish_create
finish_create-Acquires l w (ok _, l', w') free open_l writes u =
    (free, u.lock, u.closed ∙ open_l, u.read_only ∙ writes)
finish_create-Acquires l w (err e, l', w') free open_l writes u = sym free

create_locked-Acquires :
    (seals : Seals) (commits : Bool) (l : Ledger) (file : Option File) (w : World)
    → w.lock ≡ false
    → l.closed ≡ false
    → l.read_only ≡ false
    → Acquires w (create_locked seals commits l file (record w { lock = true }))
unfolding create_locked
create_locked-Acquires seals commits l (some f) w free open_l writes = sym free
create_locked-Acquires seals commits l none w free open_l writes =
    let held = record w { lock = true } in
    finish_create-Acquires l w (write seals commits l held) free open_l writes
      (write-Untouched seals commits l held)

-- A call is refused where the lock is held.
refused_or :
    (w : World) (b : Bool) (out : Result Error Ledger × World)
    → w.lock ≡ b
    → (w.lock ≡ false → Acquires w out)
    → Acquires w (if b then (err Error.lock_held, w) else out)
refused_or w true out e k = refl
refused_or w false out e k = k e

create_checked-Acquires :
    (seals : Seals) (commits : Bool) (l : Ledger) (w : World)
    → l.closed ≡ false
    → l.read_only ≡ false
    → Acquires w (create_checked seals commits l w)
unfolding create_checked
create_checked-Acquires seals commits l w open_l writes =
    refused_or w w.lock (create_locked seals commits l w.file (record w { lock = true })) refl
      (λ free. create_locked-Acquires seals commits l w.file w free open_l writes)

-- `create` takes the lock exactly if it returns a ledger, which is then open for writing; if it
-- raises, the lock is as it was.
pub create-Acquires :
    (ids : EntryIds) (seals : Seals) (commits : Bool) (uuid : String) (bases : Dict String)
    (series : String) (keys : List SigningKey) (w : World)
    → Acquires w (create ids seals commits uuid bases series keys w)
unfolding create empty_ledger
create-Acquires ids seals commits uuid bases series keys w = go (validate_bases ids bases series)
  where
    go :
        (r : Result Error (Dict String))
        → Acquires w (elim r as (λ _. Result Error Ledger × World) [
          | err e ↦ (err e, w)
          | ok checked ↦ create_checked seals commits (empty_ledger checked series uuid keys) w
        ])
    go (err e) = refl
    go (ok checked) =
        create_checked-Acquires seals commits (empty_ledger checked series uuid keys) w refl refl

-- A loaded ledger is open, in the mode that was asked for.
load_mode :
    (ids : EntryIds) (seals : Seals) (args : OpenArgs) (file : Option File) (l : Ledger)
    → load ids seals args file ≡ ok l
    → (l.closed ≡ false) × (l.read_only ≡ args.read_only)
unfolding load
load_mode ids seals args file l h =
    let (f, _, h₁) = >>=-eq-ok (or_raise file Error.missing_file) _ h in
    let (c, _, h₂) = >>=-eq-ok (read_and_validate ids seals args.verify args.trusted_keys f) _ h₁ in
    let (_, _, h₃) = >>=-eq-ok (check_series args.series c.series) _ h₂ in
    let (b, _, h₄) = >>=-eq-ok (effective_bases ids args.bases args.read_only c) _ h₃ in
    let same = ok-injective h₄ in
    (ap (λ (m : Ledger). m.closed) (sym same), ap (λ (m : Ledger). m.read_only) (sym same))

open_locked-Acquires :
    (r : Result Error Ledger) (w : World)
    → w.lock ≡ false
    → ((l : Ledger) → r ≡ ok l → (l.closed ≡ false) × (l.read_only ≡ false))
    → Acquires w (open_locked r w)
unfolding open_locked
open_locked-Acquires (ok l) w free mode =
    let (open_l, writes) = mode l refl in (free, refl, open_l, writes)
open_locked-Acquires (err e) w free mode = sym free

-- `open` for writing takes the lock exactly if it returns a ledger, which is then open for writing;
-- if it raises, the lock is as it was.
pub open-Acquires :
    (ids : EntryIds) (seals : Seals) (args : OpenArgs) (w : World)
    → args.read_only ≡ false
    → Acquires w (open_ledger ids seals args w)
unfolding open_ledger
open-Acquires ids seals args w h = subst (Acquires w) (sym (if_false _ _ h)) (
    refused_or w w.lock (open_locked (load ids seals args w.file) w) refl (λ free.
      open_locked-Acquires (load ids seals args w.file) w free (λ l good.
        let (open_l, mode) = load_mode ids seals args w.file l good in (open_l, mode ∙ h))))
