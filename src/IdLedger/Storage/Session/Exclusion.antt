-- ===== src/IdLedger/Storage/Session/Exclusion.antt =====
-- Processes that work on one id ledger (id_ledger.py), and the interleavings of their calls.
use httk_store.Prelude.{
  ℕ, String, ◌≡◌, refl, ap, sym, ◌∙◌, subst, Bool, true, false, Option, none, some, List, Result,
  ok, err, arith, if_false, if_true, if◌then◌else◌, eqb,
}
use httk_store.Prelude.Dict.{Dict}
use httk_store.IdLedger.Errors.{Error}
use httk_store.IdLedger.Records.{EntryIds}
use httk_store.IdLedger.Ledger.{Ledger, SigningKey, assign, alias, mint, append, append_alias}
use httk_store.IdLedger.Container.{Seals}
use httk_store.IdLedger.Storage.{World, write}
use httk_store.IdLedger.Storage.Session.{create, open_ledger, close, finish_close, OpenArgs}
use httk_store.IdLedger.Storage.Session.Locks.{
  Untouched, write-Untouched, create-Acquires, open-Acquires, Acquires,
}

-- What `close` of a writing session does to the lock.
abbrev pub Releases : World → Result Error (Unit {0}) × Ledger × World → Type 0
Releases w (ok _, l', w') = w'.lock ≡ false
Releases w (err e, l', w') = (w'.lock ≡ w.lock) × (l'.closed ≡ false) × (l'.read_only ≡ false)

finish_close-Releases :
    (l : Ledger) (w : World) (out : Result Error (Unit {0}) × Ledger × World)
    → l.closed ≡ false
    → l.read_only ≡ false
    → Untouched l out.1 w out.2
    → Releases w (finish_close out)
unfolding finish_close
finish_close-Releases l w (ok _, l', w') o r u = refl
finish_close-Releases l w (err e, l', w') o r u = (u.lock, u.closed ∙ o, u.read_only ∙ r)

-- Closing a session that is open for writing releases the lock, or fails and keeps session and lock.
pub close-Releases :
    (seals : Seals) (commits : Bool) (l : Ledger) (w : World)
    → l.closed ≡ false
    → l.read_only ≡ false
    → Releases w (close seals commits l w)
unfolding close
close-Releases seals commits l w o r =
    subst (Releases w) (sym (if_false _ _ o ∙ if_false _ _ r)) (go l.dirty)
  where
    go :
        (d : Bool)
        → Releases w
            (if d then finish_close (write seals commits l w) else finish_close (ok tt, l, w))
    go true =
        finish_close-Releases l w (write seals commits l w) o r (write-Untouched seals commits l w)
    go false =
        finish_close-Releases l w (ok tt, l, w) o r
          (record { lock = refl; closed = refl; read_only = refl })

-- The ledger's files, and the writing session of each process that has one.
pub record Sys : Type 0 where
  pub world : World
  pub session : ℕ → Option Ledger

abbrev pub update : (ℕ → Option Ledger) → ℕ → Option Ledger → ℕ → Option Ledger
update s p v q = if eqb p q then v else s q

-- The session that a process has after `create` or `open`.
abbrev pub opened : Sys → ℕ → Result Error Ledger × World → Sys
opened s p (ok l, w) = record { world = w; session = update s.session p (some l) }
opened s p (err e, w) = record { world = w; session = s.session }

-- The session that a process has after `close`.
abbrev pub closed : Sys → ℕ → Result Error (Unit {0}) × Ledger × World → Sys
closed s p (ok _, l, w) = record { world = w; session = update s.session p none }
closed s p (err e, l, w) = record { world = w; session = update s.session p (some l) }

-- One call by one process. A read-only session is any ledger with its mode; a closed one is any
-- ledger that was closed before, which its holder may close again at any later time.
pub data Step (ids : EntryIds) (seals : Seals) (s : Sys) : Sys → Type 0 where
  create_step :
      (p : ℕ) (commits : Bool) (uuid : String) (bases : Dict String) (series : String)
      (keys : List SigningKey)
      → s.session p ≡ none
      → Step ids seals s (opened s p (create ids seals commits uuid bases series keys s.world))
  open_step :
      (p : ℕ) (args : OpenArgs)
      → s.session p ≡ none
      → args.read_only ≡ false
      → Step ids seals s (opened s p (open_ledger ids seals args s.world))
  read_step :
      (args : OpenArgs)
      → args.read_only ≡ true
      → Step ids seals s
          (record { world = (open_ledger ids seals args s.world).1; session = s.session })
  assign_step :
      (p : ℕ) (l : Ledger) (key family : String) (supersede : Bool)
      → s.session p ≡ some l
      → Step ids seals s
          (record s { session = update s.session p (some (assign ids key family supersede l).1) })
  alias_step :
      (p : ℕ) (l : Ledger) (key target : String) (supersede : Bool)
      → s.session p ≡ some l
      → Step ids seals s
          (record s { session = update s.session p (some (alias key target supersede l).1) })
  close_step :
      (p : ℕ) (commits : Bool) (l : Ledger)
      → s.session p ≡ some l
      → Step ids seals s (closed s p (close seals commits l s.world))
  close_reader_step :
      (commits : Bool) (l : Ledger)
      → l.read_only ≡ true
      → Step ids seals s (record s { world = (close seals commits l s.world).2 })
  close_again_step :
      (commits : Bool) (l : Ledger)
      → l.closed ≡ true
      → Step ids seals s (record s { world = (close seals commits l s.world).2 })

pub data Reach (ids : EntryIds) (seals : Seals) (s : Sys) : Sys → Type 0 where
  here : Reach ids seals s s
  next : {t u : Sys} → Reach ids seals s t → Step ids seals t u → Reach ids seals s u

-- Each session holds the lock, and no two processes have one.
pub record IsExclusive (s : Sys) : Type 0 where
  pub holds :
      (p : ℕ) (l : Ledger)
      → s.session p ≡ some l
      → (s.world.lock ≡ true) × (l.closed ≡ false) × (l.read_only ≡ false)
  pub one : (p q : ℕ) (l m : Ledger) → s.session p ≡ some l → s.session q ≡ some m → p ≡ q

-- A read-only `open` writes nothing, with or without a lock held by another process.
pub read-world :
    (ids : EntryIds) (seals : Seals) (args : OpenArgs) (w : World)
    → args.read_only ≡ true
    → (open_ledger ids seals args w).1 ≡ w
unfolding open_ledger
read-world ids seals args w h = ap (λ (p : Result Error Ledger × World). p.1) (if_true _ _ h)

-- Closing a read-only session writes nothing and leaves the lock alone.
close-world :
    (seals : Seals) (commits : Bool) (l : Ledger) (w : World)
    → l.read_only ≡ true
    → (close seals commits l w).2 ≡ w
unfolding close
close-world seals commits l w h = ground arith

-- Closing a closed session writes nothing and leaves the lock alone.
close-again :
    (seals : Seals) (commits : Bool) (l : Ledger) (w : World)
    → l.closed ≡ true
    → (close seals commits l w).2 ≡ w
unfolding close
close-again seals commits l w h = ground arith

-- With the lock free, nobody has a session.
free_session :
    (s : Sys) (q : ℕ) (m : Ledger) → IsExclusive s → s.world.lock ≡ false → s.session q ≡ some m → ⊥
free_session s q m x free h = cc ((x.holds q m h).0, free)

opened-IsExclusive :
    (s : Sys) (p : ℕ) (out : Result Error Ledger × World)
    → IsExclusive s
    → Acquires s.world out
    → IsExclusive (opened s p out)
opened-IsExclusive s p (err e, w) x a = record {
  holds = λ q l h. let was = x.holds q l h in (a ∙ was.0, was.1, was.2);
  one = x.one;
}
opened-IsExclusive s p (ok l, w) x a = record {
  holds = λ q m h. ground (arith, a, h, λ (z : s.session q ≡ some m). free_session s q m x a.0 z);
  one = λ q r m n h k. ground (
    arith,
    h,
    k,
    λ (z : s.session q ≡ some m). free_session s q m x a.0 z,
    λ (z : s.session r ≡ some n). free_session s r n x a.0 z,
  );
}

-- A session that goes on in another state, with the lock still held.
kept-IsExclusive :
    (s : Sys) (p : ℕ) (l l' : Ledger) (w : World)
    → IsExclusive s
    → s.session p ≡ some l
    → w.lock ≡ s.world.lock
    → l'.closed ≡ false
    → l'.read_only ≡ false
    → IsExclusive (record { world = w; session = update s.session p (some l') })
kept-IsExclusive s p l l' w x h lock o r = record {
  holds = λ q m e.
      ground (arith, (x.holds p l h).0, lock, o, r, e, λ (z : s.session q ≡ some m). x.holds q m z);
  one = λ q u m n e k. ground (
    arith,
    e,
    k,
    λ (z : s.session q ≡ some m). x.one p q l m h z,
    λ (z : s.session u ≡ some n). x.one p u l n h z,
  );
}

closed-IsExclusive :
    (s : Sys) (p : ℕ) (l : Ledger) (out : Result Error (Unit {0}) × Ledger × World)
    → IsExclusive s
    → s.session p ≡ some l
    → Releases s.world out
    → IsExclusive (closed s p out)
closed-IsExclusive s p l (err e, l', w) x h r = kept-IsExclusive s p l l' w x h r.0 r.1 r.2
closed-IsExclusive s p l (ok _, l', w) x h r = record {
  holds = λ q m e. ground (arith, e, λ (z : s.session q ≡ some m). x.one p q l m h z);
  one = λ q u m n e k. ground (arith, e, λ (z : s.session q ≡ some m). x.one p q l m h z);
}

-- The mode of a session is not changed by its calls.
pub assign_mode :
    (ids : EntryIds) (key family : String) (supersede : Bool) (l : Ledger)
    → let l' = (assign ids key family supersede l).1 in
      (l'.closed ≡ l.closed) × (l'.read_only ≡ l.read_only)
unfolding assign mint append
assign_mode ids key family supersede l = ground arith

pub alias_mode :
    (key target : String) (supersede : Bool) (l : Ledger)
    → let l' = (alias key target supersede l).1 in
      (l'.closed ≡ l.closed) × (l'.read_only ≡ l.read_only)
unfolding alias append_alias append
alias_mode key target supersede l = ground arith

Step-IsExclusive :
    {ids : EntryIds} {seals : Seals} {s t : Sys}
    → Step ids seals s t
    → IsExclusive s
    → IsExclusive t
Step-IsExclusive {ids} {seals} {s} (create_step p commits uuid bases series keys h) x =
    opened-IsExclusive s p (create ids seals commits uuid bases series keys s.world) x
      (create-Acquires ids seals commits uuid bases series keys s.world)
Step-IsExclusive {ids} {seals} {s} (open_step p args h writes) x =
    opened-IsExclusive s p (open_ledger ids seals args s.world) x
      (open-Acquires ids seals args s.world writes)
Step-IsExclusive {ids} {seals} {s} (read_step args reads) x =
    subst (λ w. IsExclusive (record { world = w; session = s.session }))
      (sym (read-world ids seals args s.world reads)) x
Step-IsExclusive {ids} {s = s} (assign_step p l key family supersede h) x =
    let (_, o, r) = x.holds p l h in
    let (closed_eq, mode_eq) = assign_mode ids key family supersede l in
    kept-IsExclusive s p l (assign ids key family supersede l).1 s.world x h refl (closed_eq ∙ o)
      (mode_eq ∙ r)
Step-IsExclusive {s = s} (alias_step p l key target supersede h) x =
    let (_, o, r) = x.holds p l h in
    let (closed_eq, mode_eq) = alias_mode key target supersede l in
    kept-IsExclusive s p l (alias key target supersede l).1 s.world x h refl (closed_eq ∙ o)
      (mode_eq ∙ r)
Step-IsExclusive {seals = seals} {s = s} (close_step p commits l h) x =
    let (_, o, r) = x.holds p l h in
    closed-IsExclusive s p l (close seals commits l s.world) x h
      (close-Releases seals commits l s.world o r)
Step-IsExclusive {seals = seals} {s = s} (close_reader_step commits l reads) x =
    subst (λ w. IsExclusive (record { world = w; session = s.session }))
      (sym (close-world seals commits l s.world reads)) x
Step-IsExclusive {seals = seals} {s = s} (close_again_step commits l shut) x =
    subst (λ w. IsExclusive (record { world = w; session = s.session }))
      (sym (close-again seals commits l s.world shut)) x

Reach-IsExclusive :
    {ids : EntryIds} {seals : Seals} {s t : Sys}
    → IsExclusive s
    → Reach ids seals s t
    → IsExclusive t
Reach-IsExclusive x here = x
Reach-IsExclusive x (next r st) = Step-IsExclusive st (Reach-IsExclusive x r)

-- From any files and no writing sessions, no interleaving of `create`, of `open` in either mode, of
-- `assign` and `alias` on a writing session, and of `close` of a writing session, of a read-only one
-- or of one closed before, some of which may fail, gives two processes the ledger for writing at
-- once; whoever has it holds the lock, and has it open.
pub reached-IsExclusive :
    (ids : EntryIds) (seals : Seals) (s t : Sys)
    → ((p : ℕ) → s.session p ≡ none)
    → Reach ids seals s t
    → IsExclusive t
reached-IsExclusive ids seals s t nobody r =
    Reach-IsExclusive
      (record {
        holds = λ p l h. absurd (cc (nobody p, h));
        one = λ p q l m h k. absurd (cc (nobody p, h));
      })
      r
