-- ===== src/Back/Values.antt =====
-- Config values of rs/v-m-io-back/src/lib.rs: `upsert_value`, `read_all`, and the check of api keys,
-- over the store and the shared counter. A call runs alone, so `next_micros` meets no other thread;
-- what each call of it reads from the clock is an input.
use v_m_io.Common.{
  ℕ, zero, suc, Bool, not, ◌&&◌, ◌||◌, Option, none, some, List, [], ◌∷◌, ◌++◌, length, ltb, leb,
  ◌==◌, if◌then◌else◌,
}
use v_m_io.Common.Bytes.{Bytes, ascii}
use v_m_io.Common.Int.{ℤ, i64_max}
use v_m_io.Io.{
  IoError, Result, ok, err, config_key_too_long, config_value_too_long, no_timestamp, not_utf8,
  guard, ◌>>=◌, ◌>>◌,
}
use v_m_io.Sql.Tables.{VmIoDbEntry, all, key_asc}
use v_m_io.Sql.Methods.{Engine}
use v_m_io.Db.Store.{Store}
use v_m_io.Db.Store as Db
use v_m_io.Chan.Client.{CfgGetItem}
use v_m_io.Back.Clock.{next_micros, fetch_max}

-- `CFG_CLASS`, `CFG_API_KEY_PREFIX`, `CFG_ADDR_PREFIX`
abbrev pub cfg_class : Bytes
cfg_class = ascii "cfg"

abbrev pub cfg_api_key_prefix : Bytes
cfg_api_key_prefix = ascii "cfg-api-key~"

abbrev pub cfg_addr_prefix : Bytes
cfg_addr_prefix = ascii "cfg-addr~"

-- `CFG_VALUE_MAX`, `CFG_KEY_MAX`
abbrev pub cfg_value_max : ℕ
cfg_value_max = 4096

abbrev pub cfg_key_max : ℕ
cfg_key_max = 1024

-- The store and the counter.
pub record State : Type 0 where
  pub store : Store
  pub counter : ℤ

-- What one attempt meets: the clock and the engine.
pub record Attempt : Type 0 where
  pub now : ℤ
  pub engine : Engine

-- Was the write refused? Whether it was applied is only logged.
abbrev pub logged : Result Bool × Store → Result (Unit {0}) × Store
logged (ok applied, s) = (ok tt, s)
logged (err e, s) = (err e, s)

abbrev pub or_last : Option IoError → IoError
or_last none = no_timestamp
or_last (some e) = e

abbrev pub write_at : Engine → Bytes → Bytes → ℤ → Option ℤ → Store → Result (Unit {0}) × Store
write_at engine key value modified_at_micros expires_at_micros s =
    logged (Db.upsert engine cfg_class key modified_at_micros expires_at_micros (some value) s)

-- One turn of the retry loop, given what the turns after it do.
abbrev pub turn :
    ℤ
    → Result (Unit {0}) × Store
    → (IoError → State → Result (Unit {0}) × State)
    → Result (Unit {0}) × State
turn counter (ok u, s) rest = (ok tt, record { store = s; counter = counter })
turn counter (err e, s) rest = rest e (record { store = s; counter = counter })

-- The retry loop: `fuel` turns are left, and the next one is `attempt n`.
unfoldable pub retry :
    ℕ
    → ℕ
    → (ℕ → Attempt)
    → Bytes
    → Bytes
    → Option ℤ
    → Option IoError
    → State
    → Result (Unit {0}) × State
unfolding next_micros
retry zero n attempt key value expires_at_micros last_err st = (err (or_last last_err), st)
retry (suc fuel) n attempt key value expires_at_micros last_err st =
    let (m, counter) = next_micros (attempt n).now [] st.counter in
    turn counter (write_at (attempt n).engine key value m expires_at_micros st.store)
      (λ e st'. retry fuel (suc n) attempt key value expires_at_micros (some e) st')

abbrev pub keep_counter : ℤ → Result (Unit {0}) × Store → Result (Unit {0}) × State
keep_counter counter (r, s) = (r, record { store = s; counter = counter })

-- The checks of the lengths.
abbrev pub check_value : Bytes → Bytes → Result (Unit {0})
check_value key value = do
  guard (not (ltb cfg_key_max (length key))) config_key_too_long
  guard (not (ltb cfg_value_max (length value))) config_value_too_long

abbrev pub unless_refused :
    State → Result (Unit {0}) → Result (Unit {0}) × State → Result (Unit {0}) × State
unless_refused st (ok u) r = r
unless_refused st (err e) r = (err e, st)

abbrev pub write_value :
    (ℕ → Attempt) → Bytes → Bytes → Option ℤ → Option ℤ → State → Result (Unit {0}) × State
write_value attempt key value (some m) expires_at_micros st =
    keep_counter (fetch_max m st.counter)
      (write_at (attempt 0).engine key value m expires_at_micros st.store)
write_value attempt key value none expires_at_micros st =
    retry 64 0 attempt key value expires_at_micros none st

-- `upsert_value`
unfoldable pub upsert_value :
    (ℕ → Attempt) → Bytes → Bytes → Option ℤ → Option ℤ → State → Result (Unit {0}) × State
upsert_value attempt key value modified_at_micros expires_at_micros st =
    unless_refused st (check_value key value)
      (write_value attempt key value modified_at_micros expires_at_micros st)

-- `String::from_utf8`, where `is_utf8` is the test of the bytes.
abbrev pub value_of : (Bytes → Bool) → Option Bytes → Result Bytes
value_of is_utf8 none = ok []
value_of is_utf8 (some metadata) = if is_utf8 metadata then ok metadata else err not_utf8

abbrev pub to_items : (Bytes → Bool) → List VmIoDbEntry → Result (List CfgGetItem)
to_items is_utf8 [] = ok []
to_items is_utf8 (e ∷ entries) = do
  value ← value_of is_utf8 e.metadata
  out ← to_items is_utf8 entries
  ok (
      record {
        key = e.key;
        value = value;
        modified_at_micros = e.modified_at_micros;
        expires_at_micros = e.expires_at_micros;
      }
      ∷ out)

-- `read_all`
unfoldable pub read_all :
    (Bytes → Bool) → (Bytes → Bytes → Bool) → Engine → State → Result (List CfgGetItem)
read_all is_utf8 glob engine st = do
  entries ← Db.list engine glob cfg_class all key_asc i64_max st.store
  to_items is_utf8 entries

-- `str::trim`, on ASCII text
abbrev pub is_whitespace : ℕ → Bool
is_whitespace c = (leb 9 c && leb c 13) || (c == 32)

abbrev pub trim_start : Bytes → Bytes
trim_start [] = []
trim_start (c ∷ s) = let rest = trim_start s in if is_whitespace c then rest else c ∷ s

abbrev pub push_front : ℕ → Bytes → Bytes
push_front c [] = if is_whitespace c then [] else c ∷ []
push_front c (d ∷ s) = c ∷ d ∷ s

abbrev pub trim_end : Bytes → Bytes
trim_end [] = []
trim_end (c ∷ s) = push_front c (trim_end s)

-- `s.strip_prefix(prefix).unwrap_or(s)`
abbrev pub strip_prefix : Bytes → Bytes → Option Bytes
strip_prefix [] s = some s
strip_prefix (c ∷ prefix) [] = none
strip_prefix (c ∷ prefix) (d ∷ s) =
    let rest = strip_prefix prefix s in if c == d then rest else none

abbrev pub unwrap_or : Option Bytes → Bytes → Bytes
unwrap_or none s = s
unwrap_or (some t) s = t

-- The token of an authorization header.
unfoldable pub bearer_token : Bytes → Bytes
bearer_token auth = trim_end (trim_start (unwrap_or (strip_prefix (ascii "Bearer ") auth) auth))

abbrev pub key_status : Result (Option VmIoDbEntry) → ℕ
key_status (ok (some e)) = 200
key_status (ok none) = 401
key_status (err e) = 500

abbrev pub token_status : Engine → Bytes → State → ℕ
token_status engine [] st = 401
token_status engine (c ∷ token) st =
    key_status (Db.get engine cfg_class (cfg_api_key_prefix ++ (c ∷ token)) st.store)

-- The callback that `make_auth_cb` builds.
unfoldable pub auth_cb : Engine → Bytes → State → Result ℕ
unfolding bearer_token
auth_cb engine auth st = ok (token_status engine (bearer_token auth) st)
