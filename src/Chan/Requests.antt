-- ===== src/Chan/Requests.antt =====
-- One request at the channel server: `handle_request` of rs/v-m-io-chan/src/lib.rs. The state `S`
-- is what the handlers change. hyper and http-body-util are parameters: their parse of the headers
-- and their read of the body are part of the request.
use v_m_io.Common.{
  ℕ, ◌*◌, Bool, true, false, Option, none, some, List, [], ◌∷◌, find, any, ltb, ◌==◌, if◌then◌else◌,
  is_yes,
}
use v_m_io.Common.Bytes.{Bytes, ascii, dec_bytes}
use v_m_io.Io.{IoError, Result, ok, err, health_body}

-- `MAX_BODY`, 16 MiB
abbrev pub max_body : ℕ
max_body = 16 * 1024 * 1024

-- `HEALTH_REQ`
abbrev pub health_req : Bytes
health_req = ascii "__health"

-- The value of a header: text, or bytes that `to_str` refuses.
pub data HeaderValue : Type 0 where
  text : Bytes → HeaderValue
  opaque : HeaderValue

-- How collecting the limited body ends.
pub data Body : Type 0 where
  collected : Bytes → Body
  over_limit : Body
  malformed : Body

pub record Request : Type 0 where
  pub authorization : Option HeaderValue
  pub path : Bytes
  -- CONTENT_LENGTH, where it parses as a u64
  pub content_length : Option ℕ
  pub body : Body

pub record Response : Type 0 where
  pub status : ℕ
  -- CONTENT_TYPE is text/plain
  pub is_text : Bool
  pub body : Bytes

-- `ChanHandler`
pub record ChanHandler (S : Type 0) : Type 0 where
  pub req : Bytes
  pub handle : Bytes → S → Result Bytes × S

-- `SrvInner`, with `canonical_reason` of a status code and the text of an error.
pub record SrvInner (S : Type 0) : Type 0 where
  pub auth_cb : Bytes → S → Result ℕ
  pub handlers : List (ChanHandler S)
  pub canonical_reason : ℕ → Option Bytes
  pub to_string : IoError → Bytes

-- `resp`
abbrev pub resp : ℕ → Bytes → Response
resp code body = record { status = code; is_text = false; body = body }

-- `resp_text`
abbrev pub resp_text : ℕ → Bytes → Response
resp_text code body = record { status = code; is_text = true; body = body }

abbrev pub unwrap_or_empty : Option Bytes → Bytes
unwrap_or_empty none = []
unwrap_or_empty (some s) = s

-- Exactly one non-empty path segment.
abbrev pub segment : Bytes → Option Bytes
segment [] = none
segment (c ∷ rest) = if any (λ d. d == b'/') (c ∷ rest) then none else some (c ∷ rest)

-- The routing: one slash is stripped if it is there.
unfoldable pub route : Bytes → Option Bytes
route [] = none
route (c ∷ name) = if c == b'/' then segment name else segment (c ∷ name)

abbrev pub too_large : Response
too_large = resp_text 413 (ascii "payload exceeds maximum size limit")

abbrev pub declared_too_large : Option ℕ → Bool
declared_too_large none = false
declared_too_large (some len) = ltb max_body len

module _ {S : Type 0} where
  -- `handlers.get(name)`
  abbrev pub get_handler : Bytes → List (ChanHandler S) → Option (ChanHandler S)
  get_handler name = find (λ h. is_yes (dec_bytes name h.req))

  abbrev pub lookup : List (ChanHandler S) → Option Bytes → Option (ChanHandler S)
  lookup handlers none = none
  lookup handlers (some name) = get_handler name handlers

  module _ (inner : SrvInner S) where
    -- The dispatch, once the body is read.
    abbrev pub answer : Result Bytes × S → Response × S
    answer (ok out, s) = (resp 200 out, s)
    answer (err e, s) = (resp_text 500 (inner.to_string e), s)

    abbrev pub dispatch : ChanHandler S → Body → S → Response × S
    dispatch handler (collected body) s = answer (handler.handle body s)
    dispatch handler over_limit s = (too_large, s)
    dispatch handler malformed s =
        (resp_text 400 (ascii "failed to read stream or malformed payload"), s)

    abbrev pub receive : Option (ChanHandler S) → Request → S → Response × S
    receive none req s = (resp_text 404 (ascii "not found"), s)
    receive (some handler) req s =
        let rest = dispatch handler req.body s in
        if declared_too_large req.content_length then (too_large, s) else rest

    abbrev pub authorize : Result ℕ → Request → S → Response × S
    authorize (err e) req s = (resp_text 500 (inner.to_string e), s)
    authorize (ok code) req s =
        let rest = receive (lookup inner.handlers (route req.path)) req s in
        if code == 200
        then rest
        else (resp_text code (unwrap_or_empty (inner.canonical_reason code)), s)

    abbrev pub authenticate : Option HeaderValue → Request → S → Response × S
    authenticate none req s = (resp_text 401 (ascii "missing or invalid authorization"), s)
    authenticate (some opaque) req s = (resp_text 401 (ascii "missing or invalid authorization"), s)
    authenticate (some (text val)) req s = authorize (inner.auth_cb val s) req s

    -- `handle_request`
    unfoldable pub handle_request : Request → S → Response × S
    handle_request req s = authenticate req.authorization req s

  -- `HealthHandler`
  abbrev health_check : Bytes → S → Result Bytes × S
  health_check [] s = (ok [], s)
  health_check (b ∷ body) s = (err health_body, s)

  unfoldable pub health_handler : ChanHandler S
  health_handler = record { req = health_req; handle = health_check }
