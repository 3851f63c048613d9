-- ===== src/PagingTokens/Values.antt =====
-- `_encode_value` and `_decode_value` (paging_tokens.py).
pub mod Roundtrip
use httk_store.Prelude.{
  ℕ, ◌+◌, ◌*◌, String, Bool, true, false, not, ◌&&◌, ◌||◌, Option, none, some, List, [], ◌∷◌,
  Result, ok, err, ◌>>=◌, ltb, leb, eqb, suc, ◌==◌, if◌then◌else◌,
}
use httk_store.PagingTokens.{
  Anchor, null_anchor, other_anchor, bool_anchor, int_anchor, float_anchor, text_anchor,
  bytes_anchor, datetime_anchor, date_anchor, Json, null_json, boolean, integer, real, text, array,
  object, Items, no_items, item, Fields, no_fields, field, Library, Value, JsonOf, TokenError,
  wrong_type, unequal_lengths, unsupported_anchor, bad_anchor, overflow_error, FloatRead, no_float,
  overflows, a_float, invalid_sid, max_string_chars, max_bytes, max_int_digits, refuse,
}

module _ (lib : Library) where
  -- `{"t": tag, "v": value}`
  abbrev pub tagged : String → JsonOf lib → JsonOf lib
  tagged tag value = object (field "t" (text tag) (field "v" value no_fields))

  -- `_encode_value`
  unfoldable pub encode_value : Value lib → Result TokenError (JsonOf lib)
  encode_value null_anchor = ok (tagged "null" null_json)
  encode_value (bool_anchor b) = ok (tagged "bool" (boolean b))
  encode_value (int_anchor i) =
      refuse (ltb max_int_digits (lib.int_digits i)) unsupported_anchor
        (ok (tagged "int" (text (lib.int_text i))))
  encode_value (float_anchor f) =
      refuse (not (lib.is_finite f)) unsupported_anchor
        (ok (tagged "float" (text (lib.float_text f))))
  encode_value (text_anchor s) =
      refuse (ltb max_string_chars (lib.text_length s)) unsupported_anchor
        (ok (tagged "str" (text s)))
  encode_value (bytes_anchor b) =
      refuse (ltb max_bytes (lib.bytes_length b)) unsupported_anchor
        (ok (tagged "bytes" (text (lib.to_base64 b))))
  encode_value (datetime_anchor d) = ok (tagged "datetime" (text (lib.datetime_text d)))
  encode_value (date_anchor d) = ok (tagged "date" (text (lib.date_text d)))
  encode_value other_anchor = err unsupported_anchor

  -- A value that was parsed, where its text is the one it was parsed from.
  abbrev pub parsed {ℓ} :
      {A : Type ℓ}
      → (A → Value lib)
      → (A → Bool)
      → (A → String)
      → String
      → Option A
      → Result TokenError (Value lib)
  parsed make accept print raw none = err bad_anchor
  parsed make accept print raw (some a) =
      refuse (not (accept a && print a == raw)) bad_anchor (ok (make a))

  -- The float branch.
  abbrev pub parsed_float : String → FloatRead lib.Float → Result TokenError (Value lib)
  parsed_float raw no_float = err bad_anchor
  parsed_float raw overflows = err overflow_error
  parsed_float raw (a_float f) = parsed float_anchor lib.is_finite lib.float_text raw (some f)

  -- The branches on the tag of a text value.
  unfoldable pub decode_text : String → String → Result TokenError (Value lib)
  decode_text tag raw =
      if tag == "int"
      then refuse (raw == "" || (ltb max_int_digits (lib.text_digits raw) || raw == "-")) bad_anchor
          (parsed int_anchor (λ i. true) lib.int_text raw (lib.int_of raw))
      else if tag == "float"
      then parsed_float raw (lib.float_of raw)
      else if tag == "str" && leb (lib.text_length raw) max_string_chars
      then ok (text_anchor raw)
      else if tag == "bytes" && leb (lib.text_length raw) (2 * max_bytes)
      then refuse (not (raw == "") && not (lib.is_urlsafe raw)) bad_anchor (
          parsed bytes_anchor (λ b. leb (lib.bytes_length b) max_bytes) lib.to_base64 raw
            (lib.from_base64 raw))
      else if tag == "datetime" && leb (lib.text_length raw) max_string_chars
      then parsed datetime_anchor (λ d. true) lib.datetime_text raw (lib.datetime_of raw)
      else if tag == "date" && leb (lib.text_length raw) max_string_chars
      then parsed date_anchor (λ d. true) lib.date_text raw (lib.date_of raw)
      else err bad_anchor

  unfoldable pub decode_tagged : String → JsonOf lib → Result TokenError (Value lib)
  unfolding decode_text
  decode_tagged tag null_json = if tag == "null" then ok null_anchor else err bad_anchor
  decode_tagged tag (boolean b) = if tag == "bool" then ok (bool_anchor b) else err bad_anchor
  decode_tagged tag (text raw) = decode_text tag raw
  decode_tagged tag (integer i) = err bad_anchor
  decode_tagged tag (real f) = err bad_anchor
  decode_tagged tag (array items) = err bad_anchor
  decode_tagged tag (object pairs) = err bad_anchor

  abbrev pub find : String → Fields lib.Int lib.Float → Option (JsonOf lib)
  find key no_fields = none
  find key (field k j pairs) = if k == key then some j else find key pairs

  abbrev pub field_count : Fields lib.Int lib.Float → ℕ
  field_count no_fields = 0
  field_count (field k j pairs) = suc (field_count pairs)

  -- Whether a dict has just two keys, which are "t" and "v", and a text at "t".
  abbrev pub decode_pair :
      ℕ → Option (JsonOf lib) → Option (JsonOf lib) → Result TokenError (Value lib)
  decode_pair n (some (text tag)) (some value) =
      refuse (not (eqb n 2)) bad_anchor (decode_tagged tag value)
  decode_pair n (some (text tag)) none = err bad_anchor
  decode_pair n (some null_json) value = err bad_anchor
  decode_pair n (some (boolean b)) value = err bad_anchor
  decode_pair n (some (integer i)) value = err bad_anchor
  decode_pair n (some (real f)) value = err bad_anchor
  decode_pair n (some (array items)) value = err bad_anchor
  decode_pair n (some (object pairs)) value = err bad_anchor
  decode_pair n none value = err bad_anchor

  -- `_decode_value`
  unfoldable pub decode_value : JsonOf lib → Result TokenError (Value lib)
  unfolding decode_tagged
  decode_value (object pairs) = decode_pair (field_count pairs) (find "t" pairs) (find "v" pairs)
  decode_value null_json = err bad_anchor
  decode_value (boolean b) = err bad_anchor
  decode_value (integer i) = err bad_anchor
  decode_value (real f) = err bad_anchor
  decode_value (text s) = err bad_anchor
  decode_value (array items) = err bad_anchor

-- The types that a plan expects of its anchors, as `type` tells them apart.
pub data AnchorType : Type 0 where
  none_type bool_type int_type float_type text_type bytes_type datetime_type date_type : AnchorType
  other_type : AnchorType

abbrev pub same_type : AnchorType → AnchorType → Bool
same_type none_type none_type = true
same_type bool_type bool_type = true
same_type int_type int_type = true
same_type float_type float_type = true
same_type text_type text_type = true
same_type bytes_type bytes_type = true
same_type datetime_type datetime_type = true
same_type date_type date_type = true
same_type other_type other_type = true
same_type a b = false

-- Whether an anchor of a type may stand for an order key of the expected type, if one is expected.
abbrev pub is_accepted : Option AnchorType → AnchorType → Bool
is_accepted none given = true
is_accepted (some want) none_type = true
is_accepted (some float_type) int_type = true
is_accepted (some want) given = same_type given want

module _ (lib : Library) where
  abbrev pub type_of : Value lib → AnchorType
  type_of null_anchor = none_type
  type_of (bool_anchor b) = bool_type
  type_of (int_anchor i) = int_type
  type_of (float_anchor f) = float_type
  type_of (text_anchor s) = text_type
  type_of (bytes_anchor b) = bytes_type
  type_of (datetime_anchor d) = datetime_type
  type_of (date_anchor d) = date_type
  type_of other_anchor = other_type

  -- `_validate_anchor_types`
  unfoldable pub validate_anchor_types :
      List (Value lib) → List (Option AnchorType) → Result TokenError (Unit {0})
  validate_anchor_types [] [] = ok tt
  validate_anchor_types [] (want ∷ wants) = err unequal_lengths
  validate_anchor_types (v ∷ vs) [] = err unequal_lengths
  validate_anchor_types (v ∷ vs) (want ∷ wants) =
      refuse (not (is_accepted want (type_of v))) wrong_type (validate_anchor_types vs wants)
