-- ===== src/PagingTokens.antt =====
-- src/httk/store/query/paging_tokens.py: continuation tokens. Here: anchors, JSON, and what is used
-- of Python's libraries.
pub mod Values
pub mod Tokens
use httk_store.Prelude.{
  ℕ, ◌+◌, ◌*◌, ◌≤◌, ◌≡◌, ◌≢◌, String, Bool, true, false, Option, none, some, List, [], ◌∷◌, Result,
  ok, err, length, ◌==◌,
}
use httk_store.Prelude.Dict.{Dict}

-- The value of an anchor; `other_anchor` is a value of a type that tokens do not support.
pub data Anchor (Int Float Bytes DateTime Date : Type 0) : Type 0 where
  null_anchor other_anchor : Anchor Int Float Bytes DateTime Date
  bool_anchor : (b : Bool) → Anchor Int Float Bytes DateTime Date
  int_anchor : (i : Int) → Anchor Int Float Bytes DateTime Date
  float_anchor : (f : Float) → Anchor Int Float Bytes DateTime Date
  text_anchor : (s : String) → Anchor Int Float Bytes DateTime Date
  bytes_anchor : (b : Bytes) → Anchor Int Float Bytes DateTime Date
  datetime_anchor : (d : DateTime) → Anchor Int Float Bytes DateTime Date
  date_anchor : (d : Date) → Anchor Int Float Bytes DateTime Date

mutual
  -- What `json.loads` gives, an object as the pairs of a dict.
  pub data Json (Int Float : Type 0) : Type 0 where
    null_json : Json Int Float
    boolean : (b : Bool) → Json Int Float
    integer : (i : Int) → Json Int Float
    real : (f : Float) → Json Int Float
    text : (s : String) → Json Int Float
    array : (items : Items Int Float) → Json Int Float
    object : (pairs : Fields Int Float) → Json Int Float

  pub data Items (Int Float : Type 0) : Type 0 where
    no_items : Items Int Float
    item : (j : Json Int Float) (items : Items Int Float) → Items Int Float

  pub data Fields (Int Float : Type 0) : Type 0 where
    no_fields : Fields Int Float
    field : (key : String) (j : Json Int Float) (pairs : Fields Int Float) → Fields Int Float

-- What `float.fromhex` does: it raises ValueError or OverflowError, or returns a float.
pub data FloatRead (Float : Type 0) : Type 0 where
  no_float overflows : FloatRead Float
  a_float : Float → FloatRead Float

-- What is used of Python: its numbers, bytes and dates with their texts, and `len` of a text; `dumps` is
-- `json.dumps` without spaces and with keys sorted by `before`, encoded as ASCII; `loads` is `json.loads` of UTF-8 with
-- `_unique_object` and `_reject_constant`, `none` where it raises; `to_base64` drops the padding, and
-- `from_base64` puts it back. The bytes of a JSON text and the text of a token have types of their own, Raw
-- and Token, with base64 between them as `to_token` and `from_token`. A datetime stands for its fields and
-- its offset from UTC, if it has one: what `isoformat` prints. A text has no surrogates.
pub record Library : Type 1 where
  pub Int : Type 0
  pub Float : Type 0
  pub Bytes : Type 0
  pub DateTime : Type 0
  pub Date : Type 0
  pub number : ℕ → Int
  pub equals_number : Int → ℕ → Bool
  pub at_least_one : Int → Bool
  pub int_text : Int → String
  pub int_of : String → Option Int
  pub int_digits : Int → ℕ
  pub text_digits : String → ℕ
  pub is_finite : Float → Bool
  pub float_text : Float → String
  pub float_of : String → FloatRead Float
  pub datetime_text : DateTime → String
  pub datetime_of : String → Option DateTime
  pub date_text : Date → String
  pub date_of : String → Option Date
  pub text_length : String → ℕ
  pub bytes_length : Bytes → ℕ
  pub to_base64 : Bytes → String
  pub from_base64 : String → Option Bytes
  pub is_urlsafe : String → Bool
  pub is_digest : String → Bool
  pub Raw : Type 0
  pub Token : Type 0
  pub dumps : Json Int Float → Raw
  pub before : String → String → Bool
  pub loads : Raw → Option (Json Int Float)
  pub raw_length : Raw → ℕ
  pub to_token : Raw → Token
  pub from_token : Token → Option Raw
  pub is_empty : Token → Bool
  pub token_length : Token → ℕ
  pub is_safe_token : Token → Bool
  pub same_token : Token → Token → Bool

abbrev pub Value : Library → Type 0
Value lib = Anchor lib.Int lib.Float lib.Bytes lib.DateTime lib.Date

abbrev pub JsonOf : Library → Type 0
JsonOf lib = Json lib.Int lib.Float

-- ValueError on encoding, and on decoding PaginationCursorError with the check that raised it;
-- `overflow_error` is the OverflowError of `float.fromhex`, which `_decode_continuation` does not catch.
pub data TokenError : Type 0 where
  unknown_direction invalid_sid invalid_fingerprint too_many_anchors too_large unsupported_anchor :
      TokenError
  bad_plan not_urlsafe not_base64 not_json bad_shape bad_version foreign_query bad_direction :
      TokenError
  bad_anchor_count bad_anchor not_canonical wrong_type unequal_lengths overflow_error : TokenError

abbrev pub max_token_chars : ℕ
max_token_chars = 12000

abbrev pub max_json_bytes : ℕ
max_json_bytes = 9000

abbrev pub max_anchors : ℕ
max_anchors = 32

abbrev pub max_string_chars : ℕ
max_string_chars = 4096

abbrev pub max_bytes : ℕ
max_bytes = 4096

abbrev pub max_int_digits : ℕ
max_int_digits = 128

-- `raise` where a check holds.
abbrev pub refuse {ℓ} : {A : Type ℓ} → Bool → TokenError → Result TokenError A → Result TokenError A
refuse true e next = err e
refuse false e next = next
