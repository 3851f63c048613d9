-- ===== src/PagingTokens/Values/Roundtrip.antt =====
-- `_encode_value` and then `_decode_value` (paging_tokens.py), and what they rely on.
use httk_store.Prelude.{
  ℕ, zero, suc, ◌+◌, ◌*◌, ◌≤◌, ◌≡◌, refl, ap, sym, ◌∙◌, String, Bool, true, false, not, ◌&&◌,
  Option, some, Result, ok, ltb, leb, ◌==◌, arith, Bool-cases, inl, inr, if_true, eq_refl,
}
use httk_store.PagingTokens.{
  null_anchor, other_anchor, bool_anchor, int_anchor, float_anchor, text_anchor, bytes_anchor,
  datetime_anchor, date_anchor, Json, null_json, boolean, integer, real, text, array, object, Items,
  no_items, item, Fields, no_fields, field, Library, Value, JsonOf, TokenError, unsupported_anchor,
  bad_anchor, a_float, max_string_chars, max_bytes, max_int_digits, refuse,
}
use httk_store.PagingTokens.Values.{
  tagged, encode_value, parsed, parsed_float, decode_text, decode_tagged, decode_value,
}

module _ {Int Float : Type 0} (before : String → String → Bool) (short : Int → Bool) where
  abbrev pub IsBefore : String → Fields Int Float → Type 0
  IsBefore k no_fields = Unit
  IsBefore k (field l j pairs) = before k l ≡ true

  -- A JSON value with at most the given depth of arrays and objects, with short integers and without
  -- floats, whose objects have their keys in order.
  abbrev mutual
    pub IsSorted : Json Int Float → ℕ → Type 0
    IsSorted null_json depth = Unit
    IsSorted (boolean b) depth = Unit
    IsSorted (integer i) depth = short i ≡ true
    IsSorted (real f) depth = ⊥
    IsSorted (text s) depth = Unit
    IsSorted (array items) zero = ⊥
    IsSorted (array items) (suc depth) = AreSorted items depth
    IsSorted (object pairs) zero = ⊥
    IsSorted (object pairs) (suc depth) = AreOrdered pairs depth

    pub AreSorted : Items Int Float → ℕ → Type 0
    AreSorted no_items depth = Unit
    AreSorted (item j items) depth = IsSorted j depth × AreSorted items depth

    pub AreOrdered : Fields Int Float → ℕ → Type 0
    AreOrdered no_fields depth = Unit
    AreOrdered (field k j pairs) depth =
        IsSorted j depth × IsBefore k pairs × AreOrdered pairs depth

-- An integer that tokens take.
abbrev pub is_short : (lib : Library) → lib.Int → Bool
is_short lib i = leb (lib.int_digits i) max_int_digits

-- What tokens rely on of Python's libraries: a printed value is read back, an integer if it has at most as
-- many digits as tokens take, as are base64 data and a JSON text of at most the depth of a token's; an integer's text is not empty, is not "-" and has its digits; dates have texts of at most 64 characters (`isoformat` gives up to 42); unpadded
-- base64 is URL-safe, and of n bytes it has 4n/3 characters, rounded up; a JSON text is not empty.
pub record LibraryLaws (lib : Library) : Type 0 where
  pub number_is : (n : ℕ) → lib.equals_number (lib.number n) n ≡ true
  pub number_short : is_short lib (lib.number 2) ≡ true
  pub int_read : (i : lib.Int) → is_short lib i ≡ true → lib.int_of (lib.int_text i) ≡ some i
  pub int_nonempty : (i : lib.Int) → (lib.int_text i == "") ≡ false
  pub int_not_sign : (i : lib.Int) → (lib.int_text i == "-") ≡ false
  pub int_length : (i : lib.Int) → lib.text_digits (lib.int_text i) ≡ lib.int_digits i
  pub float_read :
      (f : lib.Float) → lib.is_finite f ≡ true → lib.float_of (lib.float_text f) ≡ a_float f
  pub datetime_read : (d : lib.DateTime) → lib.datetime_of (lib.datetime_text d) ≡ some d
  pub datetime_short : (d : lib.DateTime) → lib.text_length (lib.datetime_text d) ≤ 64
  pub date_read : (d : lib.Date) → lib.date_of (lib.date_text d) ≡ some d
  pub date_short : (d : lib.Date) → lib.text_length (lib.date_text d) ≤ 64
  pub base64_read : (b : lib.Bytes) → lib.from_base64 (lib.to_base64 b) ≡ some b
  pub base64_safe :
      (b : lib.Bytes) → (lib.to_base64 b == "") ≡ false → lib.is_urlsafe (lib.to_base64 b) ≡ true
  pub base64_most :
      (b : lib.Bytes) → 3 * lib.text_length (lib.to_base64 b) ≤ 4 * lib.bytes_length b + 2
  pub loads_dumps :
      (j : JsonOf lib) → IsSorted lib.before (is_short lib) j 3 → lib.loads (lib.dumps j) ≡ some j
  pub keys_ordered :
      (lib.before "a" "d" ≡ true)
      × (lib.before "d" "f" ≡ true)
      × (lib.before "f" "s" ≡ true)
      × (lib.before "s" "v" ≡ true)
      × (lib.before "t" "v" ≡ true)
  pub token_read : (r : lib.Raw) → lib.from_token (lib.to_token r) ≡ some r
  pub token_filled : (j : JsonOf lib) → lib.is_empty (lib.to_token (lib.dumps j)) ≡ false
  pub token_safe : (j : JsonOf lib) → lib.is_safe_token (lib.to_token (lib.dumps j)) ≡ true
  pub token_least : (r : lib.Raw) → 4 * lib.raw_length r ≤ 3 * lib.token_length (lib.to_token r)
  pub token_same : (t : lib.Token) → lib.same_token t t ≡ true

pub refused {ℓ} :
    {A : Type ℓ} (b : Bool) (e : TokenError) (next : Result TokenError A) (a : A)
    → refuse b e next ≡ ok a
    → (b ≡ false) × (next ≡ ok a)
refused true e next a h = cc
refused false e next a h = (refl, h)

pub passed {ℓ} :
    {A : Type ℓ} (b : Bool) (e : TokenError) (next : Result TokenError A)
    → b ≡ false
    → refuse b e next ≡ next
passed true e next h = cc
passed false e next h = refl

module _ (lib : Library) (laws : LibraryLaws lib) where
  parsed-print :
      {A : Type 0} (make : A → Value lib) (accept : A → Bool) (print : A → String) (a : A)
      (read : Option A)
      → read ≡ some a
      → accept a ≡ true
      → parsed lib make accept print (print a) read ≡ ok (make a)
  parsed-print make accept print a read h k =
      ap (parsed lib make accept print (print a)) h
      ∙ passed _ bad_anchor (ok (make a)) (rw (k, eq_refl (print a)) refl)

  urlsafe_or_empty :
      (b : lib.Bytes)
      → (not (lib.to_base64 b == "") && not (lib.is_urlsafe (lib.to_base64 b))) ≡ false
  urlsafe_or_empty b = elim (Bool-cases (lib.to_base64 b == "")) [
    | inl empty ↦ rw empty refl
    | inr filled ↦ rw (filled, laws.base64_safe b filled) refl
  ]

  -- An anchor that is encoded is decoded to itself.
  pub decode_value-encode :
      (v : Value lib) (j : JsonOf lib) → encode_value lib v ≡ ok j → decode_value lib j ≡ ok v
  unfolding encode_value decode_value decode_tagged decode_text
  decode_value-encode null_anchor j h =
      let e : tagged lib "null" null_json ≡ j = cc h in ap (decode_value lib) (sym e)
  decode_value-encode (bool_anchor b) j h =
      let e : tagged lib "bool" (boolean b) ≡ j = cc h in ap (decode_value lib) (sym e)
  decode_value-encode (int_anchor i) j h =
      let (small, k) =
        refused (ltb max_int_digits (lib.int_digits i)) unsupported_anchor
          (ok (tagged lib "int" (text (lib.int_text i)))) j h in
      let e : tagged lib "int" (text (lib.int_text i)) ≡ j = cc k in
      ap (decode_value lib) (sym e)
      ∙ passed _ bad_anchor _
          (rw (laws.int_nonempty i, laws.int_length i, small, laws.int_not_sign i) refl)
      ∙ parsed-print int_anchor (λ i. true) lib.int_text i (lib.int_of (lib.int_text i))
          (laws.int_read i (ground (arith, small))) refl
  decode_value-encode (float_anchor f) j h =
      let (finite, k) =
        refused (not (lib.is_finite f)) unsupported_anchor
          (ok (tagged lib "float" (text (lib.float_text f)))) j h in
      let e : tagged lib "float" (text (lib.float_text f)) ≡ j = cc k in
      let is_finite : lib.is_finite f ≡ true = ground (arith, finite) in
      ap (decode_value lib) (sym e)
      ∙ ap (parsed_float lib (lib.float_text f)) (laws.float_read f is_finite)
      ∙ parsed-print float_anchor lib.is_finite lib.float_text f (some f) refl is_finite
  decode_value-encode (text_anchor s) j h =
      let (small, k) =
        refused (ltb max_string_chars (lib.text_length s)) unsupported_anchor
          (ok (tagged lib "str" (text s))) j h in
      let e : tagged lib "str" (text s) ≡ j = cc k in
      let fits : leb (lib.text_length s) max_string_chars ≡ true = ground (arith, small) in
      ap (decode_value lib) (sym e) ∙ if_true _ _ fits
  decode_value-encode (bytes_anchor b) j h =
      let (small, k) =
        refused (ltb max_bytes (lib.bytes_length b)) unsupported_anchor
          (ok (tagged lib "bytes" (text (lib.to_base64 b)))) j h in
      let e : tagged lib "bytes" (text (lib.to_base64 b)) ≡ j = cc k in
      let most = laws.base64_most b in
      let fits : leb (lib.text_length (lib.to_base64 b)) (2 * max_bytes) ≡ true =
        ground (arith, small, most) in
      let short : leb (lib.bytes_length b) max_bytes ≡ true = ground (arith, small) in
      ap (decode_value lib) (sym e)
      ∙ if_true _ _ fits
      ∙ passed _ bad_anchor _ (urlsafe_or_empty b)
      ∙ parsed-print bytes_anchor (λ b. leb (lib.bytes_length b) max_bytes) lib.to_base64 b
          (lib.from_base64 (lib.to_base64 b)) (laws.base64_read b) short
  decode_value-encode (datetime_anchor d) j h =
      let e : tagged lib "datetime" (text (lib.datetime_text d)) ≡ j = cc h in
      let few = laws.datetime_short d in
      let fits : leb (lib.text_length (lib.datetime_text d)) max_string_chars ≡ true =
        ground (arith, few) in
      ap (decode_value lib) (sym e)
      ∙ if_true _ _ fits
      ∙ parsed-print datetime_anchor (λ d. true) lib.datetime_text d
          (lib.datetime_of (lib.datetime_text d)) (laws.datetime_read d) refl
  decode_value-encode (date_anchor d) j h =
      let e : tagged lib "date" (text (lib.date_text d)) ≡ j = cc h in
      let few = laws.date_short d in
      let fits : leb (lib.text_length (lib.date_text d)) max_string_chars ≡ true =
        ground (arith, few) in
      ap (decode_value lib) (sym e)
      ∙ if_true _ _ fits
      ∙ parsed-print date_anchor (λ d. true) lib.date_text d (lib.date_of (lib.date_text d))
          (laws.date_read d) refl
  decode_value-encode other_anchor j h = cc
