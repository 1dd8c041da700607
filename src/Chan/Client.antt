-- ===== src/Chan/Client.antt =====
-- The client of rs/v-m-io-chan: `ChanCli` of lib.rs and `ChanCliCfgExt` of cfg.rs. The HTTP stack
-- is a parameter, and so is the codec of rs/v-m-io-types/src/api.rs, which the crate bincode gives.
use v_m_io.Common.{
  ℕ, ◌≡◌, Bool, true, false, ◌&&◌, Option, some, List, [], ◌∷◌, any, ltb, leb, length, ◌==◌,
  if◌then◌else◌,
}
use v_m_io.Common.Bytes.{Bytes, ascii}
use v_m_io.Common.Int.{ℤ}
use v_m_io.Io.{Result, ok, err, invalid_req, request_failed, unexpected_result, ◌>>=◌}
use v_m_io.Chan.Requests.{Response, Request, text, collected, over_limit, max_body, health_req}

-- What sending a POST gives: from the header AUTHORIZATION, the path and the body.
abbrev pub Net : Type 0 → Type 0
Net S = Bytes → Bytes → Bytes → S → Result Response × S

-- `CfgGetItem`
pub record CfgGetItem : Type 0 where
  pub key : Bytes
  pub value : Bytes
  pub modified_at_micros : ℤ
  pub expires_at_micros : Option ℤ

-- `CfgGetRes`: the items, or the text of an error.
pub data CfgGetRes : Type 0 where
  items : List CfgGetItem → CfgGetRes
  failure : Bytes → CfgGetRes

-- `CfgPutReq`
pub record CfgPutReq : Type 0 where
  pub key : Bytes
  pub value : Bytes
  pub expires_at_micros : Option ℤ
  pub modified_at_micros : Option ℤ

-- `encode` and `decode` at the two types that travel.
pub record Codec : Type 0 where
  pub encode_get : CfgGetRes → Result Bytes
  pub decode_get : Bytes → Result CfgGetRes
  pub encode_put : CfgPutReq → Result Bytes
  pub decode_put : Bytes → Result CfgPutReq

-- What was encoded decodes to itself.
pub record IsCodec (c : Codec) : Type 0 where
  pub decode-encode_get :
      (r : CfgGetRes) (s : Bytes) → c.encode_get r ≡ ok s → c.decode_get s ≡ ok r
  pub decode-encode_put :
      (r : CfgPutReq) (s : Bytes) → c.encode_put r ≡ ok s → c.decode_put s ≡ ok r

-- `StatusCode::is_success`
abbrev pub is_success : ℕ → Bool
is_success code = leb 200 code && ltb code 300

abbrev pub is_path_segment : Bytes → Bool
is_path_segment [] = false
is_path_segment (c ∷ name) = if any (λ d. d == b'/') (c ∷ name) then false else true

abbrev pub expect_empty : Bytes → Result (Unit {0})
expect_empty [] = ok tt
expect_empty (b ∷ payload) = err unexpected_result

module _ {S : Type 0} where
  abbrev pub receive_response : Result Response × S → Result Bytes × S
  receive_response (err e, s) = (err e, s)
  receive_response (ok res, s) =
      (if is_success res.status then ok res.body else err (request_failed res.status res.body), s)

  -- `ChanCli::request`. The name goes into the URL and the header into the request as they are; what
  -- reqwest parses in a URL (`?`, `#`, `%`) or refuses in a header is left to the network.
  unfoldable pub request : Net S → Bytes → Bytes → Bytes → S → Result Bytes × S
  request net auth_header req body s =
      let sent = receive_response (net auth_header (b'/' ∷ req) body s) in
      if is_path_segment req then sent else (err invalid_req, s)

  -- `ChanCli::connect`, up to the client that it builds.
  unfoldable pub connect : Net S → Bytes → S → Result (Unit {0}) × S
  unfolding request
  connect net auth_header s =
      let (r, s') = request net auth_header health_req [] s in ((do body ← r; ok tt), s')

  -- `cfg_get`
  unfoldable pub cfg_get : Codec → Net S → Bytes → S → Result CfgGetRes × S
  unfolding request
  cfg_get codec net auth_header s =
      let (r, s') = request net auth_header (ascii "cfg-get") [] s in
      ((do payload ← r; codec.decode_get payload), s')

  abbrev pub put_answer : Result Bytes × S → Result (Unit {0}) × S
  put_answer (r, s) = ((do payload ← r; expect_empty payload), s)

  abbrev pub put_payload : Net S → Bytes → Result Bytes → S → Result (Unit {0}) × S
  put_payload net auth_header (err e) s = (err e, s)
  put_payload net auth_header (ok sent) s =
      put_answer (request net auth_header (ascii "cfg-put") sent s)

  -- `cfg_put`
  unfoldable pub cfg_put : Codec → Net S → Bytes → CfgPutReq → S → Result (Unit {0}) × S
  cfg_put codec net auth_header input s = put_payload net auth_header (codec.encode_put input) s

-- The request that the server sees of a POST.
abbrev pub posted : Bytes → Bytes → Bytes → Request
posted auth_header path body = record {
  authorization = some (text auth_header);
  path = path;
  content_length = some (length body);
  body = if ltb max_body (length body) then over_limit else collected body;
}
