-- ===== src/IdLedger/Errors.antt =====
-- The exceptions of id_ledger.py: one constructor for each kind of `IdLedgerError`, and
-- one for each foreign exception that passes through.
pub data Error : Type 0 where
  -- `_require_open`, `_require_target`, `_mint`
  closed read_only unknown_target no_base : Error
  -- `assign`
  supersedes_new supersedes_assignment other_family aliased_key : Error
  -- `alias`
  assigned_key alias_to_itself already_alias other_target : Error
  -- `_check_supersession` and `_validate_entries`
  no_prior_binding duplicate_binding wrong_supersession reused_id dangling_alias : Error
  -- `_validate_entry_id`
  malformed_id undeclared_family wrong_base : Error
  -- the container, its meta table and its segments
  unreadable not_a_container wrong_format wrong_version bad_series bad_uuid : Error
  no_segments malformed_segment segment_numbering segment_start past_the_end : Error
  bad_subject foreign_ledger wrong_subject_series subject_range bad_bases rebased : Error
  partition shared_base bad_signature_data invalid_signature untrusted_signer : Error
  -- `create` and `open`
  lock_held already_exists missing_file unexpected_series family_absent family_rebased : Error
  read_only_growth : Error
  -- ValueError of `_validate_bases` and of `format_entry_id`, SealError, sqlite3.Error,
  -- AssertionError
  value_error seal_error sqlite_error assertion : Error
