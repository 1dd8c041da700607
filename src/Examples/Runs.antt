-- ===== src/Examples/Runs.antt =====
-- The theorems on the connections of a server and on a run in test mode.
use v_m_io.Common.{
  ◌++◌, ℕ, zero, suc, ap, subst, ◌+◌, ◌<◌, ◌≡◌, refl, true, false, Option, none, some, List, [],
  ◌∷◌, length, All, arith,
}
use v_m_io.Common.Bytes.{Bytes, ascii, dec_bytes}
use v_m_io.Common.Trees.{insert, Ascending}
use v_m_io.Io.{ok, err, other}
use v_m_io.Db.Store.{Store}
use v_m_io.Db.Life.{empty_store}
use v_m_io.Sql.Methods.{working}
use v_m_io.Chan.Bind.{resolve_bind_addrs}
use v_m_io.Chan.Requests.{health_handler}
use v_m_io.Chan.Handlers.{register_all, register}
use v_m_io.Chan.Start.{Sockets, ChanSrv}
use v_m_io.Chan.Start as Chan
use v_m_io.Chan.Connections.{
  Conn, Server, Event, arrived, happened, first_polled, first_polled_late, max_conns, started, run,
  step, serve_connection, pick_at,
}
use v_m_io.Chan.Connections.Permits.{run-permits, run-refuses}
use v_m_io.Back.Values.{State, is_whitespace, bearer_token, auth_cb}
use v_m_io.Back.Server.{cfg_get_handler, cfg_put_handler}
use native.Mathlib.Decide.{ℕ_discrete}
use v_m_io.Back.Config.{
  Config, InitValues, Text, Platform, Outcome, test_api_key, test_bind_addr, is_empty,
  resolve_encryption_key, with_test_key, with_defaults, apply_test_defaults, srv_config, back_run,
}
use v_m_io.Back.Config as Outcomes
use v_m_io.Back.Config.Keys.{IsText, TestDefaults, apply_test_defaults-TestDefaults}
use v_m_io.Back.Config.Init.{Has}
use v_m_io.Back.Config.Testing.{Ready, back_run-serves}
use v_m_io.Examples.Crates.{digits_of, read_digits, read_digits-digits_of}
use v_m_io.Examples.Servers.{backend, attempts}

-- A connection comes and gets a permit, and another comes.
abbrev events : List Event
events = arrived 0 ∷ happened first_polled 0 ∷ arrived 0 ∷ []

run-permits_example :
    (run events started).permits
      + (length (run events started).granted + length (run events started).served)
    ≡ max_conns
run-permits_example = run-permits events

-- Connections come and get a permit, and one more comes.
abbrev crowd : ℕ → List Event
crowd zero = arrived 0 ∷ []
crowd (suc n) = arrived 0 ∷ happened first_polled 0 ∷ crowd n

abbrev serving_some : ℕ → ℕ → List Conn → Server
serving_some permits accepted served = record started {
  permits = permits;
  accepted = accepted;
  served = served;
}

-- A crowd takes all permits, and the last connection is refused if it is polled late.
crowd_refuses :
    (n accepted : ℕ) (served : List Conn)
    → (let s = run (crowd n) (serving_some n accepted served) in
        length s.refused < length (step (happened first_polled_late 0) s).refused)
unfolding run step serve_connection pick_at
crowd_refuses zero accepted served = omega arith
crowd_refuses (suc n) accepted served =
    crowd_refuses n (suc accepted) (served ++ (record { listener = 0; number = accepted } ∷ []))

run-refuses_example :
    length (run (crowd 2048) started).granted + length (run (crowd 2048) started).served ≡ max_conns
run-refuses_example =
    run-refuses (crowd 2048) (happened first_polled_late 0) (crowd_refuses 2048 0 [])

-- A json of maps with at most one key, whose value is empty.
abbrev print : InitValues → Option Bytes
print [] = some (ascii "{}")
print ((key, []) ∷ []) = some (0 ∷ key)
print ((key, []) ∷ v ∷ values) = none
print ((key, c ∷ value) ∷ values) = none

abbrev read : Bytes → Option InitValues
read [] = none
read (zero ∷ json) = some ((json, []) ∷ [])
read (suc c ∷ json) = some []

abbrev toy_text : Text
toy_text = record {
  decode = λ s. some (read_digits s);
  encode = digits_of;
  from_str = read;
  to_string = print;
}

digits_plain : (s : Bytes) → All (λ c. (c < 128) × (is_whitespace c ≡ false)) (digits_of s)
digits_plain [] = tt
digits_plain (b ∷ s) =
    ((ground arith, ground arith), ((ground arith, ground arith), digits_plain s))

digits_full : (s : Bytes) → length s ≡ 32 → is_empty (digits_of s) ≡ false
digits_full [] h = absurd (omega arith)
digits_full (b ∷ s) h = refl

read-print : (map : InitValues) (json : Bytes) → print map ≡ some json → read json ≡ some map
read-print [] json h = let e : ascii "{}" ≡ json = cc in subst (λ j. read j ≡ some []) e refl
read-print ((key, []) ∷ []) json h =
    let e : zero ∷ key ≡ json = cc in subst (λ j. read j ≡ some ((key, []) ∷ [])) e refl
read-print ((key, []) ∷ v ∷ values) json h = cc
read-print ((key, c ∷ value) ∷ values) json h = cc

read-Ascending : (json : Bytes) (map : InitValues) → read json ≡ some map → Ascending map
read-Ascending [] map h = cc
read-Ascending (zero ∷ json) map h =
    let e : (json, []) ∷ [] ≡ map = cc in subst Ascending e (tt, tt)
read-Ascending (suc c ∷ json) map h = let e : [] ≡ map = cc in subst Ascending e tt

toy_text-IsText : IsText toy_text
toy_text-IsText = record {
  decode-encode = λ key len small. ap some (read_digits-digits_of key small);
  encode_plain = digits_plain;
  encode_full = digits_full;
  from_str-to_string = λ map json a h. read-print map json h;
  from_str-Ascending = read-Ascending;
  empty_object = refl;
}

abbrev random_key : ℕ → Bytes
random_key n =
    n ∷ 1 ∷ 2 ∷ 3 ∷ 4 ∷ 5 ∷ 6 ∷ 7 ∷ 8 ∷ 9 ∷ 10 ∷ 11 ∷ 12 ∷ 13 ∷ 14 ∷ 15 ∷ 16 ∷ 17 ∷ 18 ∷ 19 ∷ 20
    ∷ 21 ∷ 22 ∷ 23 ∷ 24 ∷ 25 ∷ 26 ∷ 27 ∷ 28 ∷ 29 ∷ 30 ∷ 31 ∷ []

abbrev testing : Config
testing = record {
  db_root_dir = ascii ".";
  addr = [];
  init = none;
  encryption_key = none;
  test = true;
}

abbrev sockets : Sockets
sockets = record { show = err (other []); bind = λ a. ok 5; local_addr = λ l. ok test_bind_addr }

-- The disk holds one database.
abbrev platform : Platform (Option Store)
platform = record {
  text = toy_text;
  backend = backend;
  sockets = sockets;
  attempt = λ n. attempts;
  random = random_key;
  tempdir = ok (ascii "/tmp/x");
  open_db = λ root key world. elim world [ none ↦ ok empty_store | some s ↦ ok s ];
  close_db = λ root key s world. some s;
}

abbrev test_srv : ChanSrv State
test_srv = record {
  inner = record (srv_config platform) {
    handlers = cfg_put_handler backend ∷ cfg_get_handler backend ∷ health_handler ∷ [];
  };
  local_addrs = test_bind_addr ∷ [];
  listeners = 5 ∷ [];
}

binds : Chan.new sockets (srv_config platform) (test_bind_addr ∷ []) ≡ ok test_srv
unfolding Chan.new register_all register resolve_bind_addrs dec_bytes ℕ_discrete health_handler
    cfg_get_handler cfg_put_handler
binds = refl

ready : Ready platform testing none (ascii "/tmp/x") (random_key 0) [] test_srv
unfolding resolve_encryption_key insert
ready = record {
  test_mode = refl;
  text = toy_text-IsText;
  random_length = refl;
  random_bytes = omega arith;
  directory = refl;
  given_key = refl;
  given_values = refl;
  values_fit = tt;
  json = 0 ∷ ascii "cfg-api-key~test";
  printed = refl;
  new_directory = refl;
  reopens = λ s. refl;
  works = λ call. refl;
  attempts_work = λ n call. refl;
  top = 100;
  clock = λ n. omega arith;
  room = omega arith;
  binds = binds;
}

abbrev defaults : Config
defaults =
    with_defaults toy_text (random_key 0) (ascii "/tmp/x") testing (0 ∷ ascii "cfg-api-key~test")

defaults_made : apply_test_defaults toy_text (random_key 0) (ascii "/tmp/x") testing ≡ ok defaults
unfolding apply_test_defaults insert
defaults_made = refl

apply_test_defaults-TestDefaults_example :
    TestDefaults toy_text toy_text-IsText (random_key 0) (ascii "/tmp/x") testing defaults
apply_test_defaults-TestDefaults_example =
    apply_test_defaults-TestDefaults toy_text toy_text-IsText (random_key 0) (ascii "/tmp/x")
      testing defaults refl (omega arith) defaults_made

back_run-serves_example :
    (st : State) × ((back_run platform testing none).0 ≡ Outcomes.serving test_srv st)
    × All (λ v. Has v st) (with_test_key toy_text [])
    × ((auth : Bytes) → bearer_token auth ≡ test_api_key → auth_cb working auth st ≡ ok 200)
back_run-serves_example =
    back_run-serves platform testing none (ascii "/tmp/x") (random_key 0) [] test_srv ready
