-- ===== src/PagingTokens/Tokens.antt =====
-- `_encode_continuation` and `_decode_continuation` (paging_tokens.py).
pub mod Roundtrip
mod Tests
use httk_store.Prelude.{
  ℕ, suc, ◌+◌, ◌*◌, String, Bool, true, false, not, ◌&&◌, ◌||◌, Option, none, some, List, [], ◌∷◌,
  Result, ok, err, ◌>>=◌, ltb, leb, eqb, length, ◌==◌, if◌then◌else◌,
}
use httk_store.PagingTokens.{
  Json, null_json, boolean, integer, real, text, array, object, Items, no_items, item, Fields,
  no_fields, field, Library, Value, JsonOf, TokenError, unknown_direction, invalid_sid,
  invalid_fingerprint, too_many_anchors, too_large, bad_plan, not_urlsafe, not_base64, not_json,
  bad_shape, bad_version, foreign_query, bad_direction, bad_anchor_count, bad_anchor, not_canonical,
  max_token_chars, max_json_bytes, max_anchors, max_int_digits, refuse,
}
use httk_store.PagingTokens.Values.{encode_value, decode_value, find, field_count}

-- `_DecodedContinuation`
pub record Continuation (lib : Library) : Type 0 where
  pub direction : String
  pub anchors : List (Value lib)
  pub sid : lib.Int

module _ (lib : Library) where
  abbrev pub is_direction : String → Bool
  is_direction direction = direction == "forward" || direction == "backward"

  -- `_validate_sid` and `_validate_int`
  abbrev pub is_sid : lib.Int → Bool
  is_sid sid = lib.at_least_one sid && leb (lib.int_digits sid) max_int_digits

  abbrev pub payload : String → Items lib.Int lib.Float → String → lib.Int → JsonOf lib
  payload direction anchors fingerprint sid = object (
      field "a" (array anchors) (
        field "d" (text direction) (
          field "f" (text fingerprint)
            (field "s" (integer sid) (field "v" (integer (lib.number 2)) no_fields)))))

  unfoldable pub encode_values : List (Value lib) → Result TokenError (Items lib.Int lib.Float)
  encode_values [] = ok no_items
  encode_values (v ∷ vs) = do j ← encode_value lib v; js ← encode_values vs; ok (item j js)

  -- `_encode_payload`
  abbrev pub encode_payload : JsonOf lib → lib.Token
  encode_payload j = lib.to_token (lib.dumps j)

  -- `_encode_continuation`
  unfoldable pub encode_continuation : Continuation lib → String → Result TokenError lib.Token
  unfolding encode_values
  encode_continuation c fingerprint = refuse (not (is_direction c.direction)) unknown_direction (
      refuse (not (is_sid c.sid)) invalid_sid (
        refuse (not (lib.is_digest fingerprint)) invalid_fingerprint (
          refuse (ltb max_anchors (length c.anchors)) too_many_anchors (do
            anchors ← encode_values c.anchors
            let encoded = encode_payload (payload c.direction anchors fingerprint c.sid) in
                refuse (ltb max_token_chars (lib.token_length encoded)) too_large (ok encoded)))))

  unfoldable pub decode_values : Items lib.Int lib.Float → Result TokenError (List (Value lib))
  decode_values no_items = ok []
  decode_values (item j js) = do v ← decode_value lib j; vs ← decode_values js; ok (v ∷ vs)

  abbrev pub item_count : Items lib.Int lib.Float → ℕ
  item_count no_items = 0
  item_count (item j js) = suc (item_count js)

  abbrev pub as_items : JsonOf lib → Option (Items lib.Int lib.Float)
  as_items (array items) = some items
  as_items null_json = none
  as_items (boolean b) = none
  as_items (integer i) = none
  as_items (real f) = none
  as_items (text s) = none
  as_items (object pairs) = none

  abbrev pub as_string : JsonOf lib → Option String
  as_string (text s) = some s
  as_string null_json = none
  as_string (boolean b) = none
  as_string (integer i) = none
  as_string (real f) = none
  as_string (array items) = none
  as_string (object pairs) = none

  abbrev pub as_int : JsonOf lib → Option lib.Int
  as_int (integer i) = some i
  as_int null_json = none
  as_int (boolean b) = none
  as_int (real f) = none
  as_int (text s) = none
  as_int (array items) = none
  as_int (object pairs) = none

  -- The value of a check, or the error it raises.
  abbrev pub need {ℓ} : {A : Type ℓ} → TokenError → Option A → Result TokenError A
  need e none = err e
  need e (some a) = ok a

  abbrev pub fields_of : JsonOf lib → Result TokenError (Fields lib.Int lib.Float)
  fields_of (object pairs) = if eqb (field_count lib pairs) 5 then ok pairs else err bad_shape
  fields_of null_json = err bad_shape
  fields_of (boolean b) = err bad_shape
  fields_of (integer i) = err bad_shape
  fields_of (real f) = err bad_shape
  fields_of (text s) = err bad_shape
  fields_of (array items) = err bad_shape

  -- The checks of a payload, up to its anchors.
  unfoldable pub decode_payload : JsonOf lib → String → ℕ → Result TokenError (Continuation lib)
  unfolding decode_values
  decode_payload j fingerprint count = do
    pairs ← fields_of j
    a ← need bad_shape (find lib "a" pairs)
    d ← need bad_shape (find lib "d" pairs)
    f ← need bad_shape (find lib "f" pairs)
    s ← need bad_shape (find lib "s" pairs)
    v ← need bad_shape (find lib "v" pairs)
    version ← need bad_version (as_int v)
    refuse (not (lib.equals_number version 2)) bad_version (do
      given ← need foreign_query (as_string f)
      refuse (not (given == fingerprint)) foreign_query (do
        direction ← need bad_direction (as_string d)
        refuse (not (is_direction direction)) bad_direction (do
          anchors ← need bad_anchor_count (as_items a)
          refuse (not (eqb (item_count anchors) count)) bad_anchor_count (do
            values ← decode_values anchors
            sid ← need bad_anchor (as_int s)
            refuse (not (is_sid sid)) bad_anchor
                (ok (record { direction = direction; anchors = values; sid = sid }))))))

  -- `_decode_continuation`
  unfoldable pub decode_continuation : lib.Token → String → ℕ → Result TokenError (Continuation lib)
  unfolding decode_payload
  decode_continuation token fingerprint count = refuse (not (lib.is_digest fingerprint)) bad_plan (
      refuse (ltb max_anchors count) bad_plan (
        refuse
          (lib.is_empty token
            || (ltb max_token_chars (lib.token_length token) || not (lib.is_safe_token token)))
          not_urlsafe
          (do
            raw ← need not_base64 (lib.from_token token)
            refuse (ltb max_json_bytes (lib.raw_length raw)) too_large (do
              j ← need not_json (lib.loads raw)
              decoded ← decode_payload j fingerprint count
              refuse (not (lib.same_token (encode_payload j) token)) not_canonical (ok decoded)))))
