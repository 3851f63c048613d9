-- ===== src/PagingTokens/Tokens/Tests.antt =====
-- A small library of values for paging_tokens.py: numbers up to two, and tokens that are the JSON.
use httk_store.Prelude.{
  ℕ, zero, suc, ◌≡◌, refl, String, Bool, true, false, ◌||◌, Option, none, some, [], ◌∷◌, ok, err,
  arith, ◌==◌, if◌then◌else◌, leb, eqb,
}
use httk_store.PagingTokens.{
  a_float, null_anchor, int_anchor, text_anchor, Json, text, no_items, item, Library, FloatRead,
  no_float, foreign_query,
}
use httk_store.PagingTokens.Values.{encode_value, tagged}
use httk_store.PagingTokens.Values.Roundtrip.{LibraryLaws}
use httk_store.PagingTokens.Tokens.{
  Continuation, payload, encode_values, encode_continuation, decode_continuation,
}
use httk_store.PagingTokens.Tokens.Roundtrip.{decode-encode_continuation, decode-foreign}

data Small : Type 0 where
  nought one two many : Small

abbrev small_of : ℕ → Small
small_of zero = nought
small_of (suc zero) = one
small_of (suc (suc zero)) = two
small_of (suc (suc (suc n))) = many

abbrev is_small : Small → ℕ → Bool
is_small nought n = eqb n 0
is_small one n = eqb n 1
is_small two n = eqb n 2
is_small many n = leb 3 n

abbrev small_text : Small → String
small_text nought = "0"
small_text one = "1"
small_text two = "2"
small_text many = "3"

abbrev read_small : String → Option Small
read_small s =
    if s == "0"
    then some nought
    else if s == "1"
    then some one
    else if s == "2"
    then some two
    else if s == "3"
    then some many
    else none

abbrev bit_text : Bool → String
bit_text true = "AQ"
bit_text false = "AA"

abbrev read_bit : String → Option Bool
read_bit s = if s == "AQ" then some true else if s == "AA" then some false else none

abbrev read_float : String → FloatRead Bool
read_float s = if s == "AQ" then a_float true else if s == "AA" then a_float false else no_float

float_read : (b : Bool) → read_float (bit_text b) ≡ a_float b
float_read true = refl
float_read false = refl

abbrev is_positive : Small → Bool
is_positive nought = false
is_positive one = true
is_positive two = true
is_positive many = true

abbrev small_library : Library
small_library = record {
  Int = Small;
  Float = Bool;
  Bytes = Bool;
  DateTime = Bool;
  Date = Bool;
  number = small_of;
  equals_number = is_small;
  at_least_one = is_positive;
  int_text = small_text;
  int_of = read_small;
  int_digits = λ i. 1;
  text_digits = λ s. 1;
  is_finite = λ f. true;
  float_text = bit_text;
  float_of = read_float;
  datetime_text = bit_text;
  datetime_of = read_bit;
  date_text = bit_text;
  date_of = read_bit;
  text_length = λ s. 2;
  bytes_length = λ b. 1;
  to_base64 = bit_text;
  from_base64 = read_bit;
  is_urlsafe = λ s. true;
  is_digest = λ s. s == "f00d" || s == "beef";
  before = λ a b. true;
  Raw = Json Small Bool;
  Token = Json Small Bool;
  dumps = λ j. j;
  loads = λ j. some j;
  raw_length = λ j. 3;
  to_token = λ j. j;
  from_token = λ j. some j;
  is_empty = λ j. false;
  token_length = λ j. 4;
  is_safe_token = λ j. true;
  same_token = λ a b. true;
}

small-is : (n : ℕ) → is_small (small_of n) n ≡ true
small-is zero = refl
small-is (suc zero) = refl
small-is (suc (suc zero)) = refl
small-is (suc (suc (suc n))) = ground arith

small_read : (i : Small) → read_small (small_text i) ≡ some i
small_read nought = refl
small_read one = refl
small_read two = refl
small_read many = refl

small_filled : (i : Small) → (small_text i == "") ≡ false
small_filled nought = refl
small_filled one = refl
small_filled two = refl
small_filled many = refl

small_unsigned : (i : Small) → (small_text i == "-") ≡ false
small_unsigned nought = refl
small_unsigned one = refl
small_unsigned two = refl
small_unsigned many = refl

bit_read : (b : Bool) → read_bit (bit_text b) ≡ some b
bit_read true = refl
bit_read false = refl

small_library-laws : LibraryLaws small_library
small_library-laws = record {
  number_is = small-is;
  number_short = refl;
  int_read = λ i h. small_read i;
  int_nonempty = small_filled;
  int_not_sign = small_unsigned;
  int_length = λ i. refl;
  float_read = λ f h. float_read f;
  datetime_read = bit_read;
  datetime_short = λ d. omega arith;
  date_read = bit_read;
  date_short = λ d. omega arith;
  base64_read = bit_read;
  base64_safe = λ b h. refl;
  base64_most = λ b. omega arith;
  loads_dumps = λ j h. refl;
  keys_ordered = (refl, refl, refl, refl, refl);
  token_read = λ r. refl;
  token_filled = λ j. refl;
  token_safe = λ j. refl;
  token_least = λ r. omega arith;
  token_same = λ t. refl;
}

abbrev position : Continuation small_library
position = record {
  direction = "forward";
  anchors = int_anchor many ∷ text_anchor "Si" ∷ null_anchor ∷ [];
  sid = two;
}

abbrev position_token : Json Small Bool
position_token =
    payload small_library "forward"
      (item (tagged small_library "int" (text "3")) (
        item (tagged small_library "str" (text "Si"))
          (item (tagged small_library "null" Json.null_json) no_items)))
      "f00d" two

position_encoded : encode_continuation small_library position "f00d" ≡ ok position_token
unfolding encode_continuation encode_values encode_value
position_encoded = refl

decode-encode_continuation_example :
    decode_continuation small_library position_token "f00d" 3 ≡ ok position
decode-encode_continuation_example =
    decode-encode_continuation small_library small_library-laws position "f00d" position_token
      position_encoded

decode-foreign_example :
    decode_continuation small_library position_token "beef" 2 ≡ err foreign_query
decode-foreign_example =
    decode-foreign small_library small_library-laws position "f00d" "beef" position_token 2
      position_encoded refl (omega arith) refl
