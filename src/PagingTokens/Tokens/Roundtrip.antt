-- ===== src/PagingTokens/Tokens/Roundtrip.antt =====
-- `_encode_continuation` and then `_decode_continuation` (paging_tokens.py).
use httk_store.Prelude.{
  ℕ, suc, ◌≤◌, ◌≡◌, refl, ap, sym, ◌∙◌, subst, String, Bool, true, false, not, ◌||◌, List, [], ◌∷◌,
  Result, ok, err, ◌>>=◌, >>=-step, >>=-eq-ok, ltb, eqb, length, ◌==◌, arith, eq_refl,
}
use httk_store.PagingTokens.{
  null_anchor, other_anchor, bool_anchor, int_anchor, float_anchor, text_anchor, bytes_anchor,
  datetime_anchor, date_anchor, null_json, boolean, text, Items, no_items, item, Library, Value,
  JsonOf, TokenError, unsupported_anchor, unknown_direction, invalid_sid, invalid_fingerprint,
  too_many_anchors, too_large, foreign_query, bad_plan, not_urlsafe, not_base64, not_json,
  not_canonical, bad_version, bad_direction, bad_anchor_count, bad_anchor, max_token_chars,
  max_json_bytes, max_anchors, max_string_chars, max_bytes, max_int_digits, refuse,
}
use httk_store.PagingTokens.Values.{tagged, encode_value, decode_value}
use httk_store.PagingTokens.Tokens.{
  Continuation, need, is_direction, is_sid, payload, encode_values, encode_payload,
  encode_continuation, decode_values, item_count, decode_payload, decode_continuation,
}
use httk_store.PagingTokens.Values.Roundtrip.{
  IsSorted, AreSorted, is_short, LibraryLaws, refused, passed, decode_value-encode,
}

stopped {ℓ} :
    {A : Type ℓ} (b : Bool) (e : TokenError) (next : Result TokenError A)
    → b ≡ true
    → refuse b e next ≡ err e
stopped true e next h = refl
stopped false e next h = cc

module _ (lib : Library) (laws : LibraryLaws lib) where
  tagged-IsSorted :
      (tag : String) (value j : JsonOf lib)
      → IsSorted lib.before (is_short lib) value 0
      → ◌≡◌ {A = Result TokenError (JsonOf lib)} (ok (tagged lib tag value)) (ok j)
      → IsSorted lib.before (is_short lib) j 1
  tagged-IsSorted tag value j h e =
      let same : tagged lib tag value ≡ j = cc e in
      subst (λ x. IsSorted lib.before (is_short lib) x 1) same
        (tt, laws.keys_ordered.4, (h, tt, tt))

  encode_value-IsSorted :
      (v : Value lib) (j : JsonOf lib)
      → encode_value lib v ≡ ok j
      → IsSorted lib.before (is_short lib) j 1
  unfolding encode_value
  encode_value-IsSorted null_anchor j h = tagged-IsSorted "null" null_json j tt h
  encode_value-IsSorted (bool_anchor b) j h = tagged-IsSorted "bool" (boolean b) j tt h
  encode_value-IsSorted (int_anchor i) j h =
      tagged-IsSorted "int" (text (lib.int_text i)) j tt
        (refused (ltb max_int_digits (lib.int_digits i)) unsupported_anchor _ j h).1
  encode_value-IsSorted (float_anchor f) j h =
      tagged-IsSorted "float" (text (lib.float_text f)) j tt
        (refused (not (lib.is_finite f)) unsupported_anchor _ j h).1
  encode_value-IsSorted (text_anchor s) j h =
      tagged-IsSorted "str" (text s) j tt
        (refused (ltb max_string_chars (lib.text_length s)) unsupported_anchor _ j h).1
  encode_value-IsSorted (bytes_anchor b) j h =
      tagged-IsSorted "bytes" (text (lib.to_base64 b)) j tt
        (refused (ltb max_bytes (lib.bytes_length b)) unsupported_anchor _ j h).1
  encode_value-IsSorted (datetime_anchor d) j h =
      tagged-IsSorted "datetime" (text (lib.datetime_text d)) j tt h
  encode_value-IsSorted (date_anchor d) j h = tagged-IsSorted "date" (text (lib.date_text d)) j tt h
  encode_value-IsSorted other_anchor j h = cc

  -- What the anchors of a token are decoded to.
  record IsEncoded (vs : List (Value lib)) (js : Items lib.Int lib.Float) : Type 0 where
    decoded : decode_values lib js ≡ ok vs
    counted : item_count lib js ≡ length vs
    sorted : AreSorted lib.before (is_short lib) js 1

  encode_values-IsEncoded :
      (vs : List (Value lib)) (js : Items lib.Int lib.Float)
      → encode_values lib vs ≡ ok js
      → IsEncoded vs js
  unfolding encode_values decode_values
  encode_values-IsEncoded [] js h =
      let e : no_items ≡ js = cc h in
      subst (IsEncoded []) e (record { decoded = refl; counted = refl; sorted = tt })
  encode_values-IsEncoded (v ∷ vs) js h =
      let (j, ej, h1) = >>=-eq-ok (encode_value lib v) _ h in
      let (rest, er, h2) = >>=-eq-ok (encode_values lib vs) _ h1 in
      let e : item j rest ≡ js = cc h2 in
      let x : IsEncoded vs rest = encode_values-IsEncoded vs rest er in
      subst (IsEncoded (v ∷ vs)) e (record {
        decoded =
            >>=-step (decode_value lib j) _ (decode_value-encode lib laws v j ej)
              (>>=-step (decode_values lib rest) _ x.decoded refl);
        counted = ap suc x.counted;
        sorted = (encode_value-IsSorted v j ej, x.sorted);
      })

  payload-IsSorted :
      (direction fingerprint : String) (js : Items lib.Int lib.Float) (sid : lib.Int)
      → AreSorted lib.before (is_short lib) js 1
      → is_sid lib sid ≡ true
      → IsSorted lib.before (is_short lib) (payload lib direction js fingerprint sid) 3
  payload-IsSorted direction fingerprint js sid h k =
      let (ad, df, fs, sv, tv) = laws.keys_ordered in
      (h, ad, (tt, df, (tt, fs, (ground (arith, k), sv, (laws.number_short, tt, tt)))))

  decode_payload-encoded :
      (c : Continuation lib) (fingerprint : String) (js : Items lib.Int lib.Float)
      → is_direction lib c.direction ≡ true
      → is_sid lib c.sid ≡ true
      → IsEncoded c.anchors js
      → decode_payload lib
          (payload lib c.direction js fingerprint c.sid)
          fingerprint
          (length c.anchors)
        ≡ ok c
  unfolding decode_payload
  decode_payload-encoded c fingerprint js d s x =
      passed (not (lib.equals_number (lib.number 2) 2)) bad_version _ (ap not (laws.number_is 2))
      ∙ passed (not (fingerprint == fingerprint)) foreign_query _ (ap not (eq_refl fingerprint))
      ∙ passed (not (is_direction lib c.direction)) bad_direction _ (ap not d)
      ∙ passed (not (eqb (item_count lib js) (length c.anchors))) bad_anchor_count _
          (let e = x.counted in ground (arith, e))
      ∙ >>=-step (decode_values lib js) _ x.decoded
          (passed (not (is_sid lib c.sid)) bad_anchor _ (ap not s))

  -- What a call of `_encode_continuation` that returns has checked.
  record IsToken (c : Continuation lib) (fingerprint : String) (token : lib.Token)
      (js : Items lib.Int lib.Float) : Type 0 where
    is_direction_ok : is_direction lib c.direction ≡ true
    is_sid_ok : is_sid lib c.sid ≡ true
    is_digest_ok : lib.is_digest fingerprint ≡ true
    few_anchors : ltb max_anchors (length c.anchors) ≡ false
    encoded : IsEncoded c.anchors js
    short : ltb max_token_chars (lib.token_length token) ≡ false
    token_is : encode_payload lib (payload lib c.direction js fingerprint c.sid) ≡ token

  encode_continuation-IsToken :
      (c : Continuation lib) (fingerprint : String) (token : lib.Token)
      → encode_continuation lib c fingerprint ≡ ok token
      → (js : Items lib.Int lib.Float) × IsToken c fingerprint token js
  unfolding encode_continuation
  encode_continuation-IsToken c fingerprint token h =
      let (d, h1) = refused (not (is_direction lib c.direction)) unknown_direction _ token h in
      let (s, h2) = refused (not (is_sid lib c.sid)) invalid_sid _ token h1 in
      let (f, h3) = refused (not (lib.is_digest fingerprint)) invalid_fingerprint _ token h2 in
      let (n, h4) = refused (ltb max_anchors (length c.anchors)) too_many_anchors _ token h3 in
      let (js, ej, h5) = >>=-eq-ok (encode_values lib c.anchors) _ h4 in
      let made : lib.Token = encode_payload lib (payload lib c.direction js fingerprint c.sid) in
      let (t, h6) =
        refused (ltb max_token_chars (lib.token_length made)) too_large (ok made) token h5 in
      let e : made ≡ token = cc h6 in
      (
        js,
        record {
          is_direction_ok = ground (arith, d);
          is_sid_ok = ground (arith, s);
          is_digest_ok = ground (arith, f);
          few_anchors = n;
          encoded = encode_values-IsEncoded c.anchors js ej;
          short = subst (λ t. ltb max_token_chars (lib.token_length t) ≡ false) e t;
          token_is = e;
        },
      )

  -- The checks of a token's text, up to its payload.
  decode-token :
      (j : JsonOf lib) (token : lib.Token) (fingerprint : String) (count : ℕ)
      → IsSorted lib.before (is_short lib) j 3
      → encode_payload lib j ≡ token
      → lib.is_digest fingerprint ≡ true
      → ltb max_anchors count ≡ false
      → ltb max_token_chars (lib.token_length token) ≡ false
      → decode_continuation lib token fingerprint count ≡ (
          decode_payload lib j fingerprint count >>= (λ decoded.
            refuse (not (lib.same_token (encode_payload lib j) token)) not_canonical (ok decoded)))
  unfolding decode_continuation
  decode-token j token fingerprint count sorted e digest few short =
      let filled : lib.is_empty token ≡ false = ap lib.is_empty (sym e) ∙ laws.token_filled j in
      let safe : lib.is_safe_token token ≡ true =
        ap lib.is_safe_token (sym e) ∙ laws.token_safe j in
      let small : ltb max_json_bytes (lib.raw_length (lib.dumps j)) ≡ false =
        let least = laws.token_least (lib.dumps j) in
        let s : ltb max_token_chars (lib.token_length (encode_payload lib j)) ≡ false =
          ap (λ t. ltb max_token_chars (lib.token_length t)) e ∙ short in
        ground (arith, least, s) in
      passed (not (lib.is_digest fingerprint)) bad_plan _ (ap not digest)
      ∙ passed (ltb max_anchors count) bad_plan _ few
      ∙ passed
          (lib.is_empty token
            || (ltb max_token_chars (lib.token_length token) || not (lib.is_safe_token token)))
          not_urlsafe _ (rw (filled, short, safe) refl)
      ∙ ap
          (λ r. need lib not_base64 r >>= (λ raw.
            refuse (ltb max_json_bytes (lib.raw_length raw)) too_large (do
              j' ← need lib not_json (lib.loads raw)
              decoded ← decode_payload lib j' fingerprint count
              refuse (not (lib.same_token (encode_payload lib j') token)) not_canonical
                  (ok decoded))))
          (ap lib.from_token (sym e) ∙ laws.token_read (lib.dumps j))
      ∙ passed (ltb max_json_bytes (lib.raw_length (lib.dumps j))) too_large _ small
      ∙ ap
          (λ r. need lib not_json r >>= (λ j'. do
            decoded ← decode_payload lib j' fingerprint count
            refuse (not (lib.same_token (encode_payload lib j') token)) not_canonical (ok decoded)))
          (laws.loads_dumps j sorted)

  -- A token that is made for a position of a query is read back, for that query and as many order anchors,
  -- as that position: direction, anchors with their types and values, and sid.
  pub decode-encode_continuation :
      (c : Continuation lib) (fingerprint : String) (token : lib.Token)
      → encode_continuation lib c fingerprint ≡ ok token
      → decode_continuation lib token fingerprint (length c.anchors) ≡ ok c
  decode-encode_continuation c fingerprint token h =
      let (js, x) = encode_continuation-IsToken c fingerprint token h in
      let j = payload lib c.direction js fingerprint c.sid in
      decode-token j token fingerprint (length c.anchors)
        (payload-IsSorted c.direction fingerprint js c.sid x.encoded.sorted x.is_sid_ok) x.token_is
        x.is_digest_ok x.few_anchors x.short
      ∙ >>=-step (decode_payload lib j fingerprint (length c.anchors)) _
          (decode_payload-encoded c fingerprint js x.is_direction_ok x.is_sid_ok x.encoded)
          (passed (not (lib.same_token (encode_payload lib j) token)) not_canonical (ok c)
            (ap (λ t. not (lib.same_token t token)) x.token_is ∙ ap not (laws.token_same token)))

  -- A token that is made for one query is refused by every other one, whatever its number of order anchors.
  pub decode-foreign :
      (c : Continuation lib) (fingerprint other : String) (token : lib.Token) (count : ℕ)
      → encode_continuation lib c fingerprint ≡ ok token
      → lib.is_digest other ≡ true
      → count ≤ max_anchors
      → (fingerprint == other) ≡ false
      → decode_continuation lib token other count ≡ err foreign_query
  unfolding decode_payload
  decode-foreign c fingerprint other token count h digest few apart =
      let (js, x) = encode_continuation-IsToken c fingerprint token h in
      let j = payload lib c.direction js fingerprint c.sid in
      decode-token j token other count
        (payload-IsSorted c.direction fingerprint js c.sid x.encoded.sorted x.is_sid_ok) x.token_is
        digest (ground (arith, few)) x.short
      ∙ ap
          (λ (m : Result TokenError (Continuation lib)). m >>= (λ decoded.
            refuse (not (lib.same_token (encode_payload lib j) token)) not_canonical (ok decoded)))
          (passed (not (lib.equals_number (lib.number 2) 2)) bad_version _
              (ap not (laws.number_is 2))
            ∙ stopped (not (fingerprint == other)) foreign_query _ (ap not apart))
