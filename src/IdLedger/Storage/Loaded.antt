-- ===== src/IdLedger/Storage/Loaded.antt =====
-- `_read_and_validate` and `IdLedger.open` (id_ledger.py), on whatever stands at the path.
use httk_store.Prelude.{
  ℕ, String, ◌≡◌, refl, Bool, false, Option, none, some, List, [], ◌∷◌, ◌++◌, map, ok, or_raise,
  Post, Post-bind, Post-ok, Post-if, >>=-eq-ok, ok-injective, inl, inr, Option-cases, length, eqb,
  ◌+◌, ◌&&◌,
}
use httk_store.Prelude.Dict.{Dict, lookup}
use httk_store.IdLedger.Errors.{Error}
use httk_store.IdLedger.Records.{EntryIds, Record, Binding, assigned, alias_of, Declared, live_from}
use httk_store.IdLedger.Records.Chain.{IsChain, IsSound}
use httk_store.IdLedger.Validate.{validate_entries}
use httk_store.IdLedger.Validate.Exact.{validate_entries_exact}
use httk_store.IdLedger.Ledger.Invariant.{IsValid, HasUniqueBases}
use httk_store.IdLedger.Container.{Seals, File, RecordRow, SegmentRow, row_to_record}
use httk_store.IdLedger.Bases.{duplicate_base, extend_bases}
use httk_store.IdLedger.Bases.Laws.{duplicate_base→unique, extend_bases_lem, extend_bases_kept}
use httk_store.IdLedger.Segments.{
  guard, Check, stored_bases, validate_segments, walk_segments, start, is_numbered,
}
use httk_store.IdLedger.Storage.{
  Contents, as_database, has_tables, validate_meta, read_and_validate,
}
use httk_store.IdLedger.Storage.Session.{OpenArgs, load, check_series, effective_bases}

-- Records stay sound under a base map that keeps each family's base.
abbrev pub Keeps : Dict String → Dict String → Type 0
Keeps bases bases' = (f b : String) → lookup f bases ≡ some b → lookup f bases' ≡ some b

module _ (ids : EntryIds) (bases bases' : Dict String) (series : String)
    (keeps : Keeps bases bases') where
  Declared-mono : (b : Binding) → Declared ids bases series b → Declared ids bases' series b
  Declared-mono (alias_of t) d = tt
  Declared-mono (assigned f i) (c, (base, n, hb, hp)) = (c, (base, n, keeps f base hb, hp))

  IsChain-mono :
      (before rs : List Record)
      → IsChain ids bases series before rs
      → IsChain ids bases' series before rs
  IsChain-mono before [] c = tt
  IsChain-mono before (r ∷ rs) (link, c) = (
    record {
      supersession = link.supersession;
      declared = Declared-mono r.binding link.declared;
      fresh = link.fresh;
    },
    IsChain-mono (before ++ r ∷ []) rs c,
  )

  pub IsSound-mono : (rs : List Record) → IsSound ids bases series rs → IsSound ids bases' series rs
  IsSound-mono rs s = record { chain = IsChain-mono [] rs s.chain; targets = s.targets }

stored_bases→unique :
    (o : Option (Dict String)) (bases : Dict String)
    → stored_bases o ≡ ok bases
    → HasUniqueBases bases
unfolding stored_bases
stored_bases→unique none bases h = cc
stored_bases→unique (some d) bases h = elim (Option-cases (duplicate_base d)) [
  | inr (b, twice) ↦ absurd (cc (rw (twice, stored_bases) at h))
  | inl fine ↦
      let same : d ≡ bases = ok-injective (rw (fine, stored_bases) at h) in
      rw same at (duplicate_base→unique d fine)
]

validate_segments→unique :
    (seals : Seals) (c : Check) (segments : List SegmentRow) (rows : List RecordRow)
    (bases : Dict String)
    → validate_segments seals c segments rows ≡ ok bases
    → HasUniqueBases bases
unfolding validate_segments
validate_segments→unique seals c [] rows bases h = cc
validate_segments→unique seals c (s ∷ ss) rows bases h =
    let (w, _, h₁) = >>=-eq-ok (walk_segments seals c rows start (s ∷ ss)) _ h in
    let (_, _, h₂) =
      >>=-eq-ok
        (guard (is_numbered 1 rows && eqb (length rows + 1) w.expected_next) Error.partition) _
        h₁ in
    stored_bases→unique w.prev_bases bases h₂

-- What `_read_and_validate` returns is sound.
pub record IsSoundContents (ids : EntryIds) (c : Contents) : Type 0 where
  pub sound : IsSound ids c.bases c.series c.records
  pub newest_live : c.live ≡ live_from [] c.records
  pub unique_bases : HasUniqueBases c.bases

pub read_and_validate→sound :
    (ids : EntryIds) (seals : Seals) (verify : Bool) (trusted : List String) (file : File)
    → Post (IsSoundContents ids) (read_and_validate ids seals verify trusted file)
unfolding read_and_validate
read_and_validate→sound ids seals verify trusted file =
    Post-bind (IsSoundContents ids) (as_database file) _ λ db _.
      Post-bind (IsSoundContents ids) (guard (has_tables db.tables) Error.not_a_container) _ λ _ _.
        Post-bind (IsSoundContents ids) (validate_meta db.meta) _ λ m _.
          Post-bind (IsSoundContents ids)
            (validate_segments seals (check_of m) db.segments db.records) _
            λ bases segs.
              Post-bind (IsSoundContents ids)
                (validate_entries ids bases m.0 (map row_to_record db.records)) _
                λ p entries. Post-ok (IsSoundContents ids) _ (
                  sound_contents p (length db.segments) bases m (map row_to_record db.records)
                    ((validate_entries_exact ids bases m.0 (map row_to_record db.records) p).0
                      entries)
                    (validate_segments→unique seals (check_of m) db.segments db.records bases segs))
  where
    check_of : String × String → Check
    check_of m = record { series = m.0; ledger_uuid = m.1; verify = verify; trusted_keys = trusted }

    sound_contents :
        (p : List Record × Dict Record) (n : ℕ) (bases : Dict String) (m : String × String)
        (rs : List Record)
        → IsSound ids bases m.0 rs × (p ≡ (rs, live_from [] rs))
        → HasUniqueBases bases
        → IsSoundContents ids (record {
          bases = bases;
          series = m.0;
          ledger_uuid = m.1;
          records = p.0;
          live = p.1;
          segments = n;
        })
    sound_contents p n bases m rs (sound, same) unique =
        rw same (record { sound = sound; newest_live = refl; unique_bases = unique })

-- The base map of an opened ledger keeps the stored bases, one to a family.
abbrev IsReconciled : Contents → Dict String × Bool → Type 0
IsReconciled c p = Keeps c.bases p.0 × HasUniqueBases p.0

effective_bases→reconciled :
    (ids : EntryIds) (expected : Option (Dict String)) (read_only : Bool) (c : Contents)
    → HasUniqueBases c.bases
    → Post (IsReconciled c) (effective_bases ids expected read_only c)
unfolding effective_bases
effective_bases→reconciled ids none read_only c u =
    Post-ok (IsReconciled c) (c.bases, false) ((λ f b h. h), u)
effective_bases→reconciled ids (some e) read_only c u =
    Post-bind (IsReconciled c) (extend_bases ids c.bases e c.series) _ λ p h.
      Post-if (IsReconciled c) p.1 _ _
        (Post-if (IsReconciled c) read_only _ _ (λ a z. absurd (cc z)) (reconciled p h))
        (reconciled p h)
  where
    reconciled :
        (p : Dict String × Bool)
        → extend_bases ids c.bases e c.series ≡ ok p
        → Post {E = Error} (IsReconciled c) (ok p)
    reconciled p h = Post-ok (IsReconciled c) p (
      (λ f b. extend_bases_kept ids c.bases e c.series p.0 p.1 f b u h),
      (extend_bases_lem ids c.bases e c.series p.0 p.1 u h).1,
    )

-- Whatever file stands at the path: a ledger that `open` returns satisfies the invariant of the
-- operations.
pub load-IsValid :
    (ids : EntryIds) (seals : Seals) (args : OpenArgs) (file : Option File)
    → Post (IsValid ids) (load ids seals args file)
unfolding load
load-IsValid ids seals args file =
    Post-bind (IsValid ids) (or_raise file Error.missing_file) _ λ f _.
      Post-bind (IsValid ids) (read_and_validate ids seals args.verify args.trusted_keys f) _ λ c h.
        Post-bind (IsValid ids) (check_series args.series c.series) _ λ _ _.
          Post-bind (IsValid ids) (effective_bases ids args.bases args.read_only c) _ λ p k.
            Post-ok (IsValid ids) _ (
              valid c p (read_and_validate→sound ids seals args.verify args.trusted_keys f c h)
                (λ s.
                  effective_bases→reconciled ids args.bases args.read_only c s.unique_bases p k))
  where
    valid :
        (c : Contents) (p : Dict String × Bool) (s : IsSoundContents ids c)
        → (IsSoundContents ids c → IsReconciled c p)
        → IsValid ids (record {
          bases = p.0;
          series = c.series;
          ledger_uuid = c.ledger_uuid;
          keys = args.keys;
          records = c.records;
          live = c.live;
          persisted = length c.records;
          segments = c.segments;
          read_only = args.read_only;
          dirty = p.1;
          closed = false;
        })
    valid c p s r = record {
      sound = IsSound-mono ids c.bases p.0 c.series (r s).0 c.records s.sound;
      newest_live = s.newest_live;
      unique_bases = (r s).1;
    }
