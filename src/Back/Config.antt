-- ===== src/Back/Config.antt =====
-- The configuration of rs/v-m-io-back/src/lib.rs and what is made of it: the master key, the
-- defaults of test mode, `config_init`, `back_srv` and `back_run`.
pub mod Keys
pub mod Init
pub mod Testing
use v_m_io.Common.{
  ℕ, ◌&&◌, ◌||◌, leb, ℕ, zero, suc, Bool, true, false, Option, none, some, List, [], ◌∷◌, ◌++◌,
  length, ltb, ◌==◌, if◌then◌else◌,
}
use v_m_io.Common.Bytes.{Bytes, ascii}
use v_m_io.Common.Trees.{insert}
use v_m_io.Common.Int.{pos}
use v_m_io.Io.{IoError, Result, ok, err, invalid_base64, invalid_key_length, invalid_init, ◌>>=◌}
use v_m_io.Chan.Bind.{SocketAddr, v4}
use v_m_io.Chan.Requests.{SrvInner}
use v_m_io.Chan.Start.{Sockets, ChanSrv}
use v_m_io.Chan.Start as Chan
use v_m_io.Db.Store.{Store}
use v_m_io.Back.Values.{State, Attempt, cfg_api_key_prefix, is_whitespace, unwrap_or, auth_cb}
use v_m_io.Back.Server.{Backend, cfg_get_handler, cfg_put_handler}
use v_m_io.Back.Server as Server

-- `Config`
pub record Config : Type 0 where
  pub db_root_dir : Bytes
  pub addr : List SocketAddr
  pub init : Option Bytes
  pub encryption_key : Option Bytes
  pub test : Bool

-- A `BTreeMap<String, String>`, by its pairs in the order of the keys.
abbrev pub InitValues : Type 0
InitValues = List (Bytes × Bytes)

-- The crates base64 and serde_json: `STANDARD.decode` and `encode`, `from_str` and `to_string`.
pub record Text : Type 0 where
  pub decode : Bytes → Option Bytes
  pub encode : Bytes → Bytes
  pub from_str : Bytes → Option InitValues
  pub to_string : InitValues → Option Bytes

-- `DEFAULT_BIND_ADDR`, `TEST_BIND_ADDR`, `TEST_API_KEY`
abbrev pub default_bind_addr : SocketAddr
default_bind_addr = record { ip = v4 0 0 0 0; port = 22002 }

abbrev pub test_bind_addr : SocketAddr
test_bind_addr = record { ip = v4 127 0 0 1; port = 22002 }

abbrev pub test_api_key : Bytes
test_api_key = ascii "test"

abbrev pub is_empty {ℓ} : {A : Type ℓ} → List A → Bool
is_empty [] = true
is_empty (a ∷ s) = false

abbrev pub or_error {ℓ} : {A : Type ℓ} → Result A → Option A → Result A
or_error e none = e
or_error e (some a) = ok a

-- `str::trim` on UTF-8: White_Space of one byte, of two (U+0085, U+00A0) and of three (U+1680,
-- U+2000 to U+200A, U+2028, U+2029, U+202F, U+205F, U+3000).
abbrev pub is_space2 : ℕ → ℕ → Bool
is_space2 a b = (a == 194) && ((b == 133) || (b == 160))

abbrev pub is_space3 : ℕ → ℕ → ℕ → Bool
is_space3 a b c =
    ((a == 225) && ((b == 154) && (c == 128)))
    || (((a == 226)
          && (((b == 128)
                && ((leb 128 c && leb c 138) || ((c == 168) || ((c == 169) || (c == 175)))))
              || ((b == 129) && (c == 159))))
        || ((a == 227) && ((b == 128) && (c == 128))))

unfoldable pub trim_left : Bytes → Bytes
trim_left [] = []
trim_left (a ∷ []) = if is_whitespace a then [] else a ∷ []
trim_left (a ∷ b ∷ []) =
    let after = trim_left (b ∷ []) in
    if is_whitespace a then after else if is_space2 a b then [] else a ∷ b ∷ []
trim_left (a ∷ b ∷ c ∷ s) =
    let after = trim_left (b ∷ c ∷ s) in
    let after2 = trim_left (c ∷ s) in
    let after3 = trim_left s in
    if is_whitespace a
    then after
    else if is_space2 a b
    then after2
    else if is_space3 a b c
    then after3
    else a ∷ b ∷ c ∷ s

-- A rest that is white space throughout goes.
unfoldable pub trim_right : Bytes → Bytes
unfolding trim_left
trim_right [] = []
trim_right (a ∷ s) =
    let rest = trim_right s in if is_empty (trim_left (a ∷ s)) then [] else a ∷ rest

module _ (text : Text) where
  -- `parse_encryption_key`
  unfoldable pub parse_encryption_key : Bytes → Result Bytes
  unfolding trim_right
  parse_encryption_key key = do
    bytes ← or_error (err invalid_base64) (text.decode (trim_right (trim_left key)))
    if length bytes == 32 then ok bytes else err invalid_key_length

  -- The key of the configuration, where there is one that is not empty.
  abbrev pub configured : Option Bytes → Option Bytes
  configured none = none
  configured (some key) = if is_empty key then none else some key

  abbrev pub parsed_or : Bytes → Option Bytes → Result Bytes
  parsed_or random none = ok random
  parsed_or random (some key) = parse_encryption_key key

  -- `resolve_encryption_key`, where `random` is what `random_encryption_key` gives.
  unfoldable pub resolve_encryption_key : Bytes → Config → Result Bytes
  unfolding parse_encryption_key
  resolve_encryption_key random config = parsed_or random (configured config.encryption_key)

  -- The values of `init`, none of them where it is absent.
  abbrev pub init_values : Option Bytes → Result InitValues
  init_values none = ok []
  init_values (some init) = or_error (err invalid_init) (text.from_str init)

  abbrev pub pinned : Bytes → Option Bytes → Bytes
  pinned random none = text.encode random
  pinned random (some key) = key

  -- The values with that of the test api key.
  abbrev pub with_test_key : InitValues → InitValues
  with_test_key values = insert (cfg_api_key_prefix ++ test_api_key) [] values

  abbrev pub with_defaults : Bytes → Bytes → Config → Bytes → Config
  with_defaults random root config encoded = record {
    db_root_dir = root;
    addr = if is_empty config.addr then test_bind_addr ∷ [] else config.addr;
    init = some encoded;
    encryption_key = some (pinned random (configured config.encryption_key));
    test = config.test;
  }

  -- `Config::apply_test_defaults`
  unfoldable pub apply_test_defaults : Bytes → Bytes → Config → Result Config
  unfolding insert
  apply_test_defaults random root config = do
    values ← init_values config.init
    encoded ← or_error (err invalid_init) (text.to_string (with_test_key values))
    ok (with_defaults random root config encoded)

-- What a run meets: the crates, the backend's calls, the sockets, and the databases on the disk.
-- `random n` is the n-th random key; `open_db` is what `VmIoDb::new` finds under a root directory
-- and a master key, and `close_db` what dropping the database leaves.
pub record Platform (World : Type 0) : Type 0 where
  pub text : Text
  pub backend : Backend
  pub sockets : Sockets
  pub attempt : ℕ → ℕ → Attempt
  pub random : ℕ → Bytes
  pub tempdir : Result Bytes
  pub open_db : Bytes → Bytes → World → Result Store
  pub close_db : Bytes → Bytes → Store → World → World

-- How `back_run` ends, or what it waits for.
pub data Outcome : Type 0 where
  failed : IoError → Outcome
  initialized : Outcome
  serving : ChanSrv State → State → Outcome

-- The counter starts at 0.
abbrev pub opened : Store → State
opened s = record { store = s; counter = pos 0 }

module _ {World : Type 0} (p : Platform World) where
  abbrev pub initial_values : Config → Result InitValues
  initial_values config =
      or_error (err invalid_init) (p.text.from_str (unwrap_or config.init (ascii "{}")))

  abbrev pub init_opened :
      Config → World → Result (InitValues × (Bytes × Store)) → Result (Unit {0}) × World
  init_opened config w (err e) = (err e, w)
  init_opened config w (ok (values, (key, s))) =
      let (r, st) = Server.config_init p.attempt 0 values (opened s) in
      (r, p.close_db config.db_root_dir key st.store w)

  -- `config_init`
  unfoldable pub config_init : Bytes → Config → World → Result (Unit {0}) × World
  unfolding resolve_encryption_key Server.config_init
  config_init random config w = init_opened config w (do
    values ← initial_values config
    key ← resolve_encryption_key p.text random config
    s ← p.open_db config.db_root_dir key w
    ok (values, (key, s)))

  abbrev pub srv_config : SrvInner State
  srv_config = record {
    auth_cb = auth_cb p.backend.engine;
    handlers = cfg_get_handler p.backend ∷ cfg_put_handler p.backend ∷ [];
    canonical_reason = p.backend.canonical_reason;
    to_string = p.backend.to_string;
  }

  -- `back_srv`, whose task of announcing addresses comes after
  unfoldable pub back_srv : Bytes → Config → World → Result (ChanSrv State × State)
  unfolding resolve_encryption_key Chan.new
  back_srv random config w = do
    key ← resolve_encryption_key p.text random config
    s ← p.open_db config.db_root_dir key w
    srv ←
        Chan.new p.sockets srv_config
          (if is_empty config.addr then default_bind_addr ∷ [] else config.addr)
    ok (srv, opened s)

  abbrev pub served : Result (ChanSrv State × State) → Outcome
  served (err e) = failed e
  served (ok (srv, st)) = serving srv st

  abbrev pub then_serve : Config → Result (Unit {0}) × World → Outcome × World
  then_serve config (err e, w) = (failed e, w)
  then_serve config (ok u, w) = (served (back_srv (p.random 2) config w), w)

  abbrev pub run_defaults : World → Result Config → Outcome × World
  run_defaults w (err e) = (failed e, w)
  run_defaults w (ok config) =
      then_serve (record config { init = none }) (config_init (p.random 1) config w)

  -- `back_run_test`, until it waits for the signal
  unfoldable pub back_run_test : Config → World → Outcome × World
  unfolding apply_test_defaults config_init back_srv
  back_run_test config w =
      run_defaults w (do root ← p.tempdir; apply_test_defaults p.text (p.random 0) root config)

  abbrev pub ran_init : Result (Unit {0}) × World → Outcome × World
  ran_init (err e, w) = (failed e, w)
  ran_init (ok u, w) = (initialized, w)

  abbrev pub run_init : Option Bytes → Config → World → Outcome × World
  run_init (some init) config w = ran_init (config_init (p.random 0) config w)
  run_init none config w = (served (back_srv (p.random 0) config w), w)

  -- `back_run`
  unfoldable pub back_run : Config → World → Outcome × World
  unfolding back_run_test
  back_run config w =
      let plain = run_init config.init config w in
      if config.test then back_run_test config w else plain
