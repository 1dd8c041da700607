-- ===== src/Back/Server.antt =====
-- The server of rs/v-m-io-back/src/lib.rs: its two handlers, what `back_srv` builds of them, and
-- `config_init`. The codec and the text of an error are parameters.
use v_m_io.Common.{
  ℕ, suc, ◌≤◌, ◌≡◌, refl, ◌∙◌, Bool, Option, none, some, List, [], ◌∷◌, length, inl, inr,
}
use v_m_io.Common.Bytes.{Bytes, ascii, dec_bytes}
use v_m_io.Io.{IoError, Result, ok, err, request_failed, ◌>>=◌}
use v_m_io.Sql.Methods.{Engine}
use v_m_io.Chan.Requests.{ChanHandler, SrvInner, get_handler, max_body, health_req, health_handler}
use v_m_io.Chan.Handlers.{register_all, register_all-Registered, Distinct}
use native.Mathlib.Decide.{ℕ_discrete}
use v_m_io.Chan.Client.{
  Net, Codec, IsCodec, CfgGetItem, CfgGetRes, items, failure, CfgPutReq, cfg_put, put_answer,
}
use v_m_io.Chan.Dispatch.{Delivers, relayed, request-handle_request}
use v_m_io.Back.Values.{State, Attempt, upsert_value, read_all, auth_cb}

-- What a server is made with, and what its calls meet.
pub record Backend : Type 0 where
  pub codec : Codec
  pub to_string : IoError → Bytes
  pub canonical_reason : ℕ → Option Bytes
  pub is_utf8 : Bytes → Bool
  pub glob : Bytes → Bytes → Bool
  pub engine : Engine
  pub attempt : ℕ → Attempt

module _ (b : Backend) where
  abbrev pub to_res : Result (List CfgGetItem) → CfgGetRes
  to_res (ok values) = items values
  to_res (err e) = failure (b.to_string e)

  -- `CfgGetHandler`
  unfoldable pub cfg_get_handler : ChanHandler State
  cfg_get_handler = record {
    req = ascii "cfg-get";
    handle = λ body st. (b.codec.encode_get (to_res (read_all b.is_utf8 b.glob b.engine st)), st);
  }

  abbrev pub emptied : Result (Unit {0}) × State → Result Bytes × State
  emptied (ok u, st) = (ok [], st)
  emptied (err e, st) = (err e, st)

  abbrev pub put_decoded : Result CfgPutReq → State → Result Bytes × State
  put_decoded (err e) st = (err e, st)
  put_decoded (ok req) st =
      emptied
        (upsert_value b.attempt req.key req.value req.modified_at_micros req.expires_at_micros st)

  -- `CfgPutHandler`
  unfoldable pub cfg_put_handler : ChanHandler State
  cfg_put_handler = record {
    req = ascii "cfg-put";
    handle = λ body st. put_decoded (b.codec.decode_put body) st;
  }

  -- The channel server that `back_srv` starts, once its table of handlers is built.
  unfoldable pub back_srv : Result (SrvInner State)
  unfolding cfg_get_handler cfg_put_handler register_all
  back_srv = do
    table ← register_all (cfg_get_handler ∷ cfg_put_handler ∷ [])
    ok (record {
      auth_cb = auth_cb b.engine;
      handlers = table;
      canonical_reason = b.canonical_reason;
      to_string = b.to_string;
    })

-- The loop of `config_init` over the values, in the order of their keys; the n-th write meets
-- `attempt n`.
abbrev pub init_next :
    Result (Unit {0}) × State → (State → Result (Unit {0}) × State) → Result (Unit {0}) × State
init_next (ok u, st) rest = rest st
init_next (err e, st) rest = (err e, st)

unfoldable pub config_init :
    (ℕ → ℕ → Attempt) → ℕ → List (Bytes × Bytes) → State → Result (Unit {0}) × State
unfolding upsert_value
config_init attempt n [] st = (ok tt, st)
config_init attempt n ((key, value) ∷ values) st =
    init_next (upsert_value (attempt n) key value none none st)
      (λ st'. config_init attempt (suc n) values st')

-- A server that hands requests to the two handlers and the health check, under the check of api keys.
pub record IsBackend (b : Backend) (inner : SrvInner State) : Type 0 where
  pub checks : (auth : Bytes) (st : State) → inner.auth_cb auth st ≡ auth_cb b.engine auth st
  pub reports : (e : IoError) → inner.to_string e ≡ b.to_string e
  pub gets : get_handler (ascii "cfg-get") inner.handlers ≡ some (cfg_get_handler b)
  pub puts : get_handler (ascii "cfg-put") inner.handlers ≡ some (cfg_put_handler b)
  pub health : get_handler health_req inner.handlers ≡ some health_handler

-- No name of a handler comes twice.
handlers-Distinct :
    (b : Backend) → Distinct (health_handler ∷ []) (cfg_get_handler b ∷ cfg_put_handler b ∷ [])
unfolding Distinct health_handler cfg_get_handler cfg_put_handler dec_bytes ℕ_discrete
handlers-Distinct b = (refl, (refl, tt))

-- For any codec and any environment, back_srv builds its table of handlers without an error, and
-- the names of the two handlers and of the health check lead to them.
pub back_srv-IsBackend :
    (b : Backend) → (inner : SrvInner State) × (back_srv b ≡ ok inner) × IsBackend b inner
unfolding back_srv cfg_get_handler cfg_put_handler
back_srv-IsBackend b = elim (register_all-Registered (cfg_get_handler b ∷ cfg_put_handler b ∷ [])) [
  | inr (twice, e) ↦ absurd (twice (handlers-Distinct b))
  | inl (out, e, health, r) ↦ (
    record {
      auth_cb = auth_cb b.engine;
      handlers = out;
      canonical_reason = b.canonical_reason;
      to_string = b.to_string;
    },
    rw e,
    record {
      checks = λ auth st. refl;
      reports = λ e. refl;
      gets = r.added.0;
      puts = r.added.1.0;
      health = health;
    },
  )
]

-- What the client makes of a write of a value.
abbrev pub replied : Backend → Result (Unit {0}) × State → Result (Unit {0}) × State
replied b (ok u, st) = (ok tt, st)
replied b (err e, st) = (err (request_failed 500 (b.to_string e)), st)

module _ (b : Backend) (inner : SrvInner State) (backend : IsBackend b inner) (net : Net State)
    (delivers : Delivers inner net) (codec : IsCodec b.codec) where
  -- For a backend server, a network that delivers and a codec that reads back what it writes,
  -- cfg_put of the client with an accepted authorization and an encoding within the body limit
  -- does what upsert_value does at the server, and reports its error as the text of it.
  pub cfg_put-upsert_value :
      (auth sent : Bytes) (input : CfgPutReq) (st : State)
      → auth_cb b.engine auth st ≡ ok 200
      → b.codec.encode_put input ≡ ok sent
      → length sent ≤ max_body
      → cfg_put b.codec net auth input st
        ≡ replied b (
            upsert_value b.attempt input.key input.value input.modified_at_micros
              input.expires_at_micros st)
  unfolding cfg_put cfg_put_handler
  cfg_put-upsert_value auth sent input st accepted encoded small =
      let written =
        upsert_value b.attempt input.key input.value input.modified_at_micros
          input.expires_at_micros st in
      let there =
        request-handle_request inner net delivers auth (ascii "cfg-put") sent st (cfg_put_handler b)
          refl (backend.checks auth st ∙ accepted) backend.puts small in
      let decoded = codec.decode-encode_put input sent encoded in
      rw (encoded, there, decoded) (answered written)
    where
      answered :
          (w : Result (Unit {0}) × State) → put_answer (relayed inner (emptied b w)) ≡ replied b w
      answered (ok u, st) = refl
      answered (err e, st) = rw (backend.reports e)
