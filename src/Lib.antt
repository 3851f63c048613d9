-- ===== src/Lib.antt =====
-- httk-store keeps typed records in SQL and Mongo databases behind one search interface. This
-- library models eight of its parts: the id ledger, an append-only file that hands out entry ids
-- for source keys, sealed segment by segment; the slicer, which offers the search interface by
-- indexing; the query profile that a property definition guarantees; store-managed timestamps; the
-- leases by which Mongo writers and fsck keep out of each other's way; the evaluator of predicates
-- over Mongo's records; the continuation tokens of paged results; and the federation, which puts
-- several stores behind one searcher. The parts meet only in the stores, which are not modelled: a
-- store captures timestamps and takes leases as it saves, gives the slicer its searchers, and is a
-- source of a federation.
--
-- Prelude holds what the parts share: results that are a value or an error, lists and texts over
-- the native numbers, and association lists for Python's dicts.
--
-- IdLedger models src/httk/store/id_ledger.py:
--   Records     record dicts, `_live_id`, `_assigned_ids`, `_next_number`, the `_live` dict; in
--               Records/Chain what makes a list of records well formed
--   Validate    `_validate_entries`, `_check_supersession`, `_validate_entry_id`
--   Ledger      the class IdLedger, `assign`, `alias`, `lookup`, `_mint`, `_append`
--   Container   the sqlite tables, and what is used of httk.core's sealing and JSON
--   Bases       `_validate_bases`, `_extend_bases`, `_duplicate_base`
--   Segments    `_validate_segments`, `_parse_segment_subject`, `_segment_bases`, `_verify_segment`
--   Storage     `_read_and_validate`, `_validate_meta`, `_write`; in Storage/Session `create`, `open`,
--               `close`, and the lock file
--
-- Slicer models src/httk/store/query/slicer.py: the op tree (Node), `_resolve` and `_compile`; in
-- Slicer/Masks the masks with their operators and the columns; in Slicer/Index the views with their
-- `__iter__` and `__len__`, and `_validate_names`. An object is known by the identity of its
-- slicer. Slicer/Meaning has what the search protocol promises of its comparisons, and what an op
-- tree says of a record's values; Slicer/Views and Slicer/Names have the proofs.
--
-- Portable models src/httk/store/query/portable.py: `_names`, `_query_support`,
-- `portable_query_capabilities` and `portable_query_fields`. StoreTimestamp models
-- `capture_store_timestamp` and `advance_store_timestamp_mark` of
-- src/httk/store/store_timestamp.py, with clock readings as naturals; a clock that is called twice
-- gives a first and a later reading. A resolution of zero, where Python raises, is not an input.
--
-- Leases models src/httk/store/backend/mongo/leases.py: each call of the server is a function on
-- the metadata collection (Collection). A round of the drain makes three: the fresh query, the
-- second fresh query of `_stale_writer_documents` and its `find`; `poll_writers` takes the
-- collection as each of them finds it. Leases/Steps has the processes, whose calls interleave with
-- the passing of time and with deaths that leave documents behind; the steps let time pass only as
-- far as the living writers beat in time, and Leases/Tests has a round with one that is late.
-- A drain that waits is repeated by the interleaving, so no bound is put on it; the server's order
-- of a missing heartbeat before a time is used.
--
-- Federation models src/httk/store/federated_store.py: the query tree and the plans with their
-- replay; in Federation/Execute `_execute_plan`, in Federation/Count `_count_plan`, in
-- Federation/Results FederatedResultSet, in Federation/Searcher FederatedTarget, FederatedStore
-- and FederatedSearcher with its variables, fields and expressions. A child store is a record of
-- its calls (Child), each of which may raise; a call that raises gives no new state of the child's
-- searcher. A generator is the list of its rows and the error that ends it; `_count_plan`'s caches
-- stand in a heap, by address. Federation/Window has the arithmetic of offset and limit,
-- Federation/Paging and Federation/Union the rows of an iteration, Federation/Faults the sources
-- that answer anything, Federation/Searcher/Steps the calls of a searcher and its result sets. A
-- child's calls are functions, so a child whose rows change between two calls is not covered: a
-- cached total is compared with asking the same rows again.
--
-- Evaluator models src/httk/store/backend/mongo/evaluator.py: the tree of predicates, values and
-- scopes; in Evaluator/Eval `_eval_predicate`, `_items` and `_eval_value`, with `_compare` and
-- `_exact_key` in Evaluator/Eval/Parts; in Evaluator/Root `evaluate` and `_root_scope`. What it
-- asks of Python's objects is a record (Python), with the TypeError of an iteration, what a set
-- takes as a key and what a comparison of Fractions raises; a codec is its columns and its encoding
-- (ValueCodec), and the resolvers are what calling them does, an error included. That a property,
-- a `==` or a text of an object raises nothing is taken for granted. Evaluation recurs on the
-- tree; the stack of `_root_scope` runs on fuel, the number of nodes and parents in the predicate, which
-- Evaluator/Root/Search shows to be enough. Evaluator/Total says what a predicate needs in order
-- not to raise.
--
-- PagingTokens models src/httk/store/query/paging_tokens.py: in PagingTokens/Values the typed
-- values, in PagingTokens/Tokens the tokens. Python's numbers, dates, base64 and JSON are a record
-- (Library), and LibraryLaws in PagingTokens/Values/Roundtrip has what is relied on: what is
-- printed is read back, sizes, and JSON only where keys are in order, no float stands in it,
-- integers are short and it is no deeper than a token's payload. A text has no surrogates, and a
-- datetime stands for its fields and its UTC offset. `float.fromhex` may also overflow, which
-- `_decode_continuation` does not catch.
--
-- A method that changes the ledger takes it and returns it beside its result; an exception is a
-- value of Error, one constructor for each kind of message. A method on files also takes and
-- returns a World, which is the file at the ledger's path and whether its lock file exists. But for
-- the stack of `_root_scope`, every loop runs over a list and is structural recursion.
--
-- Chosen in the model: numbers in columns are naturals, so a negative count in a stored segment is
-- not an input here; the text columns of `records` hold texts or NULL, as declared; a row's order
-- is its primary key's; the flag `commits` of a write is false where sqlite fails inside the
-- transaction, which is then rolled back. `{**stored, **added}` appends, as no added family is
-- stored.
--
-- Parameters: httk.core's entry ids (EntryIds; EntryIdLaws says that a formatted id matches the
-- pattern and parses back) and its JSON and sealing (Seals; SealLaws says that the subject a write
-- makes is read back with its fields, and that its own signature is not found invalid).
--
-- Not modelled: the listing `bindings`, the warnings of `check_ledger_key`, the text of messages
-- and of the lock file, and the file system's own failures. Of the slicer, the class of the
-- records and the repeated searchers of one view are left to the search protocol (Search;
-- SearchLaws has its promises, in three-valued logic), and an AttributeError and an IndexError are
-- one `none`. Of the federation, the calls that only raise (`cursor`, `add_sort`) and `slicer` are
-- left out. Of the evaluator, the canonical JSON text of a predicate is left out. Of the tokens,
-- the fingerprint of a plan is left out. Of the timestamps, their text form and the conversion of
-- operands are not modelled. `str.casefold` and `str.isidentifier` are parameters. The stores,
-- searchers, bulk loaders and the OPTIMADE client run on database servers and HTTP, and are not
-- part of this library.
pub mod Prelude
pub mod IdLedger
pub mod Slicer
pub mod Portable
pub mod StoreTimestamp
pub mod Leases
pub mod Evaluator
pub mod PagingTokens
pub mod Federation
