-- ===== src/Examples/Codecs.antt =====
-- A concrete codec for the config values, with its laws.
use v_m_io.Common.{
  ℕ, List, zero, suc, ◌≡◌, refl, ap, sym, ◌∙◌, Option, none, some, [], ◌∷◌, ◌++◌, length, take,
  drop,
}
use v_m_io.Common.Bytes.{Bytes}
use v_m_io.Common.Int.{ℤ, pos, negsuc}
use v_m_io.Io.{Result, ok, err, codec, ◌>>=◌}
use v_m_io.Chan.Client.{Codec, IsCodec, CfgPutReq, CfgGetItem, CfgGetRes, items, failure}

abbrev put_bytes : Bytes → Bytes → Bytes
put_bytes s rest = length s ∷ (s ++ rest)

abbrev put_opt : Option ℤ → Bytes → Bytes
put_opt none rest = 0 ∷ rest
put_opt (some (pos n)) rest = 1 ∷ n ∷ rest
put_opt (some (negsuc n)) rest = 2 ∷ n ∷ rest

abbrev get_bytes : Bytes → Result (Bytes × Bytes)
get_bytes [] = err codec
get_bytes (n ∷ s) = ok (take n s, drop n s)

abbrev get_opt : Bytes → Result (Option ℤ × Bytes)
get_opt [] = err codec
get_opt (zero ∷ s) = ok (none, s)
get_opt (suc zero ∷ n ∷ s) = ok (some (pos n), s)
get_opt (suc zero ∷ []) = err codec
get_opt (suc (suc k) ∷ n ∷ s) = ok (some (negsuc n), s)
get_opt (suc (suc k) ∷ []) = err codec

abbrev encode_put : CfgPutReq → Bytes
encode_put r =
    put_bytes r.key
      (put_bytes r.value (put_opt r.expires_at_micros (put_opt r.modified_at_micros [])))

abbrev decode_put : Bytes → Result CfgPutReq
decode_put s = do
  (key, s₁) ← get_bytes s
  (value, s₂) ← get_bytes s₁
  (x, s₃) ← get_opt s₂
  (m, s₄) ← get_opt s₃
  ok (record { key = key; value = value; expires_at_micros = x; modified_at_micros = m })

abbrev some_or_error : Option ℤ → Result ℤ
some_or_error none = err codec
some_or_error (some m) = ok m

abbrev encode_item : CfgGetItem → Bytes → Bytes
encode_item i rest =
    put_bytes i.key
      (put_bytes i.value (put_opt (some i.modified_at_micros) (put_opt i.expires_at_micros rest)))

abbrev decode_item : Bytes → Result (CfgGetItem × Bytes)
decode_item s = do
  (key, s₁) ← get_bytes s
  (value, s₂) ← get_bytes s₁
  (o, s₃) ← get_opt s₂
  m ← some_or_error o
  (x, s₄) ← get_opt s₃
  ok (record { key = key; value = value; modified_at_micros = m; expires_at_micros = x }, s₄)

abbrev encode_items : List CfgGetItem → Bytes
encode_items [] = []
encode_items (i ∷ items') = encode_item i (encode_items items')

-- As many items as the number says.
unfoldable pub decode_items : ℕ → Bytes → Result (List CfgGetItem)
decode_items zero s = ok []
decode_items (suc n) s = do (i, rest) ← decode_item s; items' ← decode_items n rest; ok (i ∷ items')

abbrev encode_get : CfgGetRes → Bytes
encode_get (failure t) = 1 ∷ t
encode_get (items vs) = 0 ∷ length vs ∷ encode_items vs

unfoldable pub decode_get : Bytes → Result CfgGetRes
unfolding decode_items
decode_get [] = err codec
decode_get (suc k ∷ t) = ok (failure t)
decode_get (zero ∷ []) = err codec
decode_get (zero ∷ n ∷ s) = do vs ← decode_items n s; ok (items vs)

abbrev pub toy_codec : Codec
toy_codec = record {
  encode_get = λ r. ok (encode_get r);
  decode_get = decode_get;
  encode_put = λ r. ok (encode_put r);
  decode_put = decode_put;
}

take-append : (s t : Bytes) → take (length s) (s ++ t) ≡ s
take-append [] t = refl
take-append (b ∷ s) t = ap (λ u. b ∷ u) (take-append s t)

drop-append : (s t : Bytes) → drop (length s) (s ++ t) ≡ t
drop-append [] t = refl
drop-append (b ∷ s) t = drop-append s t

get_opt-put_opt : (o : Option ℤ) (rest : Bytes) → get_opt (put_opt o rest) ≡ ok (o, rest)
get_opt-put_opt none rest = refl
get_opt-put_opt (some (pos n)) rest = refl
get_opt-put_opt (some (negsuc n)) rest = refl

get_bytes-put_bytes : (s rest : Bytes) → get_bytes (put_bytes s rest) ≡ ok (s, rest)
get_bytes-put_bytes s rest = rw (take-append s rest, drop-append s rest)

decode_put-encode_put : (r : CfgPutReq) → decode_put (encode_put r) ≡ ok r
decode_put-encode_put r =
    let second = put_opt r.expires_at_micros (put_opt r.modified_at_micros []) in
    rw (
      take-append r.key (put_bytes r.value second),
      drop-append r.key (put_bytes r.value second),
      take-append r.value second,
      drop-append r.value second,
      get_opt-put_opt r.expires_at_micros (put_opt r.modified_at_micros []),
      get_opt-put_opt r.modified_at_micros [],
    )

decode_item-encode_item :
    (i : CfgGetItem) (rest : Bytes) → decode_item (encode_item i rest) ≡ ok (i, rest)
decode_item-encode_item i rest =
    let third = put_opt i.expires_at_micros rest in
    let second = put_opt (some i.modified_at_micros) third in
    rw (
      take-append i.key (put_bytes i.value second),
      drop-append i.key (put_bytes i.value second),
      take-append i.value second,
      drop-append i.value second,
      get_opt-put_opt (some i.modified_at_micros) third,
      get_opt-put_opt i.expires_at_micros rest,
    )

decode_items-encode_items :
    (vs : List CfgGetItem) → decode_items (length vs) (encode_items vs) ≡ ok vs
unfolding decode_items
decode_items-encode_items [] = refl
decode_items-encode_items (i ∷ vs) =
    rw (decode_item-encode_item i (encode_items vs), decode_items-encode_items vs)

decode_get-encode_get : (r : CfgGetRes) → decode_get (encode_get r) ≡ ok r
unfolding decode_get
decode_get-encode_get (failure t) = refl
decode_get-encode_get (items vs) = rw (decode_items-encode_items vs)

pub toy_codec-IsCodec : IsCodec toy_codec
toy_codec-IsCodec = record { decode-encode_get = got; decode-encode_put = λ r s h. decoded r s h }
  where
    decoded : (r : CfgPutReq) (s : Bytes) → ok (encode_put r) ≡ ok s → decode_put s ≡ ok r
    decoded r s h = let e : encode_put r ≡ s = cc in sym (ap decode_put e) ∙ decode_put-encode_put r

    got : (r : CfgGetRes) (s : Bytes) → ok (encode_get r) ≡ ok s → decode_get s ≡ ok r
    got r s h = let e : encode_get r ≡ s = cc in sym (ap decode_get e) ∙ decode_get-encode_get r
