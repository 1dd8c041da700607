-- ===== src/Examples/Servers.antt =====
-- The theorems on the channel and on the backend, at concrete servers.
use v_m_io.Common.{
  any, ℕ, suc, ◌≤◌, ◌≡◌, ◌≢◌, ◌↔◌, refl, true, false, none, some, List, [], ◌∷◌, ◌++◌, length,
  arith, All, ◌⊎◌,
}
use v_m_io.Common.Bytes.{Bytes, ascii, dec_bytes}
use native.Mathlib.Decide.{ℕ_discrete}
use v_m_io.Common.Int.{pos, negsuc, ◌+ℤ◌}
use v_m_io.Io.{Result, ok, err, duplicate_handler}
use v_m_io.Sql.Methods.{working}
use v_m_io.Chan.Requests.{
  Request, text, collected, ChanHandler, SrvInner, handle_request, get_handler, health_req,
  health_handler,
}
use v_m_io.Chan.Handlers.{Distinct, Registered, register_all, register_all-Registered}
use v_m_io.Chan.Client.{CfgGetItem, Net, CfgPutReq, request, cfg_put, posted}
use v_m_io.Chan.Dispatch.{
  Handled, Refused, handle_request-Outcome, Delivers, relayed, request-handle_request,
}
use v_m_io.Chan.Bind.{
  is_unspecified, SocketAddr, NetworkInterface, v4, is_routable, is_link_local, expand_bind_addrs,
  resolve_bind_addrs,
}
use v_m_io.Chan.Justified.{Justified, Represented, resolve_bind_addrs-Justified}
use v_m_io.Back.Clock.{
  CounterOp, hand_out, apply, succ_i64, fetch_max, Unwrapped, Fresh, counter_ops-Fresh, next_micros,
  propose, Exchanged, next_micros-Exchanged,
}
use v_m_io.Back.Values.{State, Attempt, upsert_value, cfg_api_key_prefix, bearer_token, auth_cb}
use v_m_io.Back.Writes.{
  Written, Stored, upsert_value-Written, auth_cb-accepts, auth_cb-upsert_value,
}
use v_m_io.Back.Server.{
  Backend, IsBackend, back_srv, back_srv-IsBackend, replied, cfg_put-upsert_value,
}
use v_m_io.Cli.{config_tombstone, is_tombstone, dump, item_under, last_under, item_under-dump}
use v_m_io.Examples.Codecs.{toy_codec, toy_codec-IsCodec}

-- A handler that adds to a sum.
abbrev adder : ChanHandler ℕ
adder = record { req = ascii "add"; handle = λ body n. (ok body, suc n) }

abbrev summing : SrvInner ℕ
summing = record {
  auth_cb = λ auth n. ok 200;
  handlers = adder ∷ [];
  canonical_reason = λ code. none;
  to_string = λ e. ascii "error";
}

abbrev add_req : Request
add_req = record {
  authorization = some (text (ascii "x"));
  path = ascii "/add";
  content_length = some 1;
  body = collected (5 ∷ []);
}

handle_request-Outcome_example :
    Handled summing add_req 3 (handle_request summing add_req 3)
    ⊎ Refused summing add_req 3 (handle_request summing add_req 3)
handle_request-Outcome_example = handle_request-Outcome summing add_req 3

register_all-Registered_example :
    ((out : List (ChanHandler ℕ)) × (register_all (adder ∷ []) ≡ ok out)
      × (get_handler health_req out ≡ some health_handler)
      × Registered (health_handler ∷ []) (adder ∷ []) out)
    ⊎ (¬ Distinct (health_handler ∷ []) (adder ∷ []))
      × (register_all (adder ∷ []) ≡ err duplicate_handler)
register_all-Registered_example = register_all-Registered (adder ∷ [])

abbrev pub wire : {S : Type 0} → SrvInner S → Net S
wire inner auth path body s = (
  ok (handle_request inner (posted auth path body) s).0,
  (handle_request inner (posted auth path body) s).1,
)

pub wire-Delivers : {S : Type 0} (inner : SrvInner S) → Delivers inner (wire inner)
unfolding Delivers
wire-Delivers inner auth path body s = refl

adder_found : get_handler (ascii "add") summing.handlers ≡ some adder
unfolding dec_bytes ℕ_discrete
adder_found = refl

request-handle_request_example :
    request (wire summing) (ascii "x") (ascii "add") (5 ∷ []) 3
    ≡ relayed summing (adder.handle (5 ∷ []) 3)
request-handle_request_example =
    request-handle_request summing (wire summing) (wire-Delivers summing) (ascii "x") (ascii "add")
      (5 ∷ []) 3 adder refl refl adder_found (omega arith)

abbrev wildcard : SocketAddr
wildcard = record { ip = v4 0 0 0 0; port = 22002 }

abbrev lan : NetworkInterface
lan = record { internal = false; addr = v4 127 0 0 1 ∷ v4 169 254 0 1 ∷ v4 10 0 0 7 ∷ [] }

abbrev bound : List SocketAddr
bound = record { ip = v4 10 0 0 7; port = 22002 } ∷ []

wildcard_bound : resolve_bind_addrs (ok (lan ∷ [])) (wildcard ∷ []) ≡ ok bound
unfolding resolve_bind_addrs expand_bind_addrs is_routable is_link_local
wildcard_bound = refl

resolve_bind_addrs-Justified_example :
    ((any (λ (a : SocketAddr). is_unspecified a.ip) (wildcard ∷ []) ≡ false)
      × (bound ≡ wildcard ∷ []))
    ⊎ ((ifaces : List NetworkInterface) × (Result.ok (lan ∷ []) ≡ ok ifaces)
        × All (Justified (wildcard ∷ []) ifaces) bound
        × All (Represented ifaces bound) (wildcard ∷ [])
        × (1 ≤ length bound))
resolve_bind_addrs-Justified_example =
    resolve_bind_addrs-Justified (ok (lan ∷ [])) (wildcard ∷ []) bound wildcard_bound

abbrev ops : List CounterOp
ops = hand_out (pos 7) ∷ apply (pos 20) ∷ hand_out (pos 8) ∷ []

ops-Unwrapped : Unwrapped ops (pos 0)
unfolding Unwrapped next_micros propose succ_i64 fetch_max ◌+ℤ◌
ops-Unwrapped = (refl, (refl, tt))

counter_ops-Fresh_example : Fresh (pos 0 ∷ []) ops (pos 0)
counter_ops-Fresh_example = counter_ops-Fresh ops (pos 0) ops-Unwrapped

next_micros-Exchanged_example :
    Exchanged
      (pos 5)
      (pos 9 ∷ pos 9 ∷ pos 4 ∷ [])
      (pos 3)
      (next_micros (pos 5) (pos 9 ∷ pos 9 ∷ pos 4 ∷ []) (pos 3))
next_micros-Exchanged_example = next_micros-Exchanged (pos 5) (pos 9 ∷ pos 9 ∷ pos 4 ∷ []) (pos 3)

abbrev pub attempts : ℕ → Attempt
attempts n = record { now = pos 100; engine = working }

abbrev pub fresh : State
fresh = record {
  store = record { tables = record { entries = []; chunks = [] }; disk = λ path. none };
  counter = pos 0;
}

upsert_value-Written_example :
    (st' : State) × (upsert_value attempts (ascii "a") (ascii "b") none none fresh ≡ (ok tt, st'))
    × (st'.counter ≡ propose (pos 100) (pos 0))
    × Written (ascii "a") (ascii "b") none fresh st'
upsert_value-Written_example =
    upsert_value-Written attempts (ascii "a") (ascii "b") none fresh (λ call. refl) (omega arith)
      (omega arith) tt refl

auth_cb-accepts_example :
    (auth_cb working (ascii "Bearer k") fresh ≡ ok 200)
    ↔ ((bearer_token (ascii "Bearer k") ≢ []) × Stored (bearer_token (ascii "Bearer k")) fresh)
auth_cb-accepts_example = auth_cb-accepts working (ascii "Bearer k") fresh (λ call. refl)

token_full : bearer_token (ascii "Bearer k") ≢ []
unfolding bearer_token
token_full e = cc

token_short : length (cfg_api_key_prefix ++ bearer_token (ascii "Bearer k")) ≤ 1024
unfolding bearer_token
token_short = omega arith

auth_cb-upsert_value_example :
    auth_cb working
      (ascii "Bearer k")
      (upsert_value attempts
        (cfg_api_key_prefix ++ bearer_token (ascii "Bearer k"))
        (ascii "gone")
        none
        (some (pos 5))
        fresh).1
    ≡ ok 200
auth_cb-upsert_value_example =
    auth_cb-upsert_value attempts (ascii "Bearer k") (ascii "gone") (some (pos 5)) fresh
      (λ call. refl) token_full token_short (omega arith) tt refl

abbrev pub backend : Backend
backend = record {
  codec = toy_codec;
  to_string = λ e. ascii "error";
  canonical_reason = λ code. none;
  is_utf8 = λ s. true;
  glob = λ pattern s. true;
  engine = working;
  attempt = attempts;
}

back_srv-IsBackend_example :
    (inner : SrvInner State) × (back_srv backend ≡ ok inner) × IsBackend backend inner
back_srv-IsBackend_example = back_srv-IsBackend backend

abbrev pub inner : SrvInner State
inner = (back_srv-IsBackend backend).0

abbrev put_req : CfgPutReq
put_req = record {
  key = ascii "a";
  value = ascii "b";
  expires_at_micros = none;
  modified_at_micros = some (negsuc 4);
}

abbrev sent : Bytes
sent = 1 ∷ b'a' ∷ 1 ∷ b'b' ∷ 0 ∷ 2 ∷ 4 ∷ []

-- The store holds the api key k.
abbrev pub with_key : State
with_key =
    (upsert_value attempts (cfg_api_key_prefix ++ bearer_token (ascii "Bearer k")) (ascii "gone")
      none (some (pos 5)) fresh).1

pub with_key_accepted : auth_cb working (ascii "Bearer k") with_key ≡ ok 200
with_key_accepted =
    auth_cb-upsert_value attempts (ascii "Bearer k") (ascii "gone") (some (pos 5)) fresh
      (λ call. refl) token_full token_short (omega arith) tt refl

cfg_put-upsert_value_example :
    cfg_put toy_codec (wire inner) (ascii "Bearer k") put_req with_key
    ≡ replied backend
        (upsert_value attempts (ascii "a") (ascii "b") (some (negsuc 4)) none with_key)
cfg_put-upsert_value_example =
    cfg_put-upsert_value backend inner (back_srv-IsBackend backend).2 (wire inner)
      (wire-Delivers inner) toy_codec-IsCodec (ascii "Bearer k") sent put_req with_key
      with_key_accepted refl (omega arith)

abbrev cat_item : CfgGetItem
cat_item = record {
  key = ascii "cat";
  value = ascii "1";
  modified_at_micros = pos 1;
  expires_at_micros = none;
}

abbrev gone_item : CfgGetItem
gone_item = record cat_item { key = ascii "dog"; value = config_tombstone }

item_under-dump_example :
    (item_under (ascii "cat") (dump true (gone_item ∷ cat_item ∷ []))
      ≡ last_under true (ascii "cat") none (gone_item ∷ cat_item ∷ []))
    × ((item : CfgGetItem)
        → item_under (ascii "cat") (dump false (gone_item ∷ cat_item ∷ [])) ≡ some item
        → is_tombstone item ≡ false)
item_under-dump_example = item_under-dump true (ascii "cat") (gone_item ∷ cat_item ∷ [])
