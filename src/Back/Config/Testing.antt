-- ===== src/Back/Config/Testing.antt =====
-- `back_run` of rs/v-m-io-back/src/lib.rs with `--test`, from the defaults to the server.
use v_m_io.Common.{
  ℕ, ◌+◌, ◌<◌, ◌^◌, ◌≡◌, refl, sym, ap, ◌∙◌, subst, true, none, some, List, [], ◌∷◌, length, All,
  arith, if◌then◌else◌,
}
use v_m_io.Common.Bytes.{Bytes}
use v_m_io.Common.Trees.{insert-All, insert-there, insert-Ascending}
use v_m_io.Common.Int.{pos, ◌≤ℤ◌}
use v_m_io.Io.{Result, ok, ◌>>=◌}
use v_m_io.Sql.Methods.{Call}
use v_m_io.Chan.Bind.{SocketAddr}
use v_m_io.Chan.Start.{ChanSrv}
use v_m_io.Chan.Start as Chan
use v_m_io.Db.Store.{Store}
use v_m_io.Db.Life.{empty_store}
use v_m_io.Back.Values.{State, bearer_token, auth_cb}
use v_m_io.Back.Writes.{Stored, auth_cb-accepts}
use v_m_io.Back.Config.{
  Config, InitValues, Platform, serving, opened, test_api_key, test_bind_addr, default_bind_addr,
  run_defaults, then_serve, served, is_empty, resolve_encryption_key, init_values, with_test_key,
  with_defaults, apply_test_defaults, srv_config, config_init, back_srv, back_run_test, back_run,
}
use v_m_io.Back.Config.Keys.{IsText, apply_test_defaults-TestDefaults, init_values-Ascending}
use v_m_io.Back.Config.Init.{Has, Fits, config_init-Has}

-- What the run meets: 32 random bytes, an engine that works, a clock below the i64 maximum by more
-- than there are values, a new directory, and a database that reopens under its key.
pub record Ready {World : Type 0} (p : Platform World) (config : Config) (world : World)
    (root key : Bytes) (values : InitValues) (srv : ChanSrv State) : Type 0 where
  pub test_mode : config.test ≡ true
  pub text : IsText p.text
  pub random_length : length (p.random 0) ≡ 32
  pub random_bytes : All (λ b. b < 256) (p.random 0)
  pub directory : p.tempdir ≡ ok root
  pub given_key : resolve_encryption_key p.text (p.random 0) config ≡ ok key
  pub given_values : init_values p.text config.init ≡ ok values
  pub values_fit : All Fits values
  pub json : Bytes
  pub printed : p.text.to_string (with_test_key p.text values) ≡ some json
  pub new_directory : p.open_db root key world ≡ ok empty_store
  pub reopens : (s : Store) → p.open_db root key (p.close_db root key s world) ≡ ok s
  pub works : (call : Call) → p.backend.engine call ≡ true
  pub attempts_work : (n : ℕ) (call : Call) → (p.attempt n 0).engine call ≡ true
  pub top : ℕ
  pub clock : (n : ℕ) → (p.attempt n 0).now ≤ℤ pos top
  pub room : top + length (with_test_key p.text values) < 2 ^ 63
  pub binds :
      Chan.new p.sockets
        (srv_config p)
        (if is_empty config.addr then test_bind_addr ∷ [] else config.addr)
      ≡ ok srv

module _ {World : Type 0} (p : Platform World) (config : Config) (world : World) (root key : Bytes)
    (values : InitValues) (srv : ChanSrv State) (h : Ready p config world root key values srv) where
  abbrev defaults : Config
  defaults = with_defaults p.text (p.random 0) root config h.json

  applied : apply_test_defaults p.text (p.random 0) root config ≡ ok defaults
  unfolding apply_test_defaults
  applied = rw (h.given_values, h.printed)

  resolved : (r : Bytes) → resolve_encryption_key p.text r defaults ≡ ok key
  resolved r =
      let d =
        apply_test_defaults-TestDefaults p.text h.text (p.random 0) root config defaults
          h.random_length h.random_bytes applied in
      d.key_is r ∙ h.given_key

  initialized :
      (st : State) × (config_init p (p.random 1) defaults world
        ≡ (ok tt, p.close_db root key st.store world))
      × All (λ v. Has v st) (with_test_key p.text values)
  unfolding config_init
  initialized =
      let fits : All Fits (with_test_key p.text values) =
        insert-All _ _ Fits values (omega arith, omega arith) h.values_fit in
      let ascends =
        insert-Ascending _ _ values
          (init_values-Ascending p.text h.text config.init values h.given_values) in
      let (st, ran, has, _) =
        config_init-Has p.attempt h.attempts_work h.top h.clock 0 h.top
          (with_test_key p.text values) (opened empty_store) fits ascends tt (omega arith)
          (omega arith) h.room in
      let read : p.text.from_str h.json ≡ some (with_test_key p.text values) =
        h.text.from_str-to_string (with_test_key p.text values) h.json ascends h.printed in
      (st, rw (read, resolved (p.random 1), h.new_directory, ran), has)

  -- Test mode leaves no list of addresses empty.
  bound :
      (addr : List SocketAddr) (d : SocketAddr)
      → (let chosen = if is_empty addr then test_bind_addr ∷ [] else addr in
          (if is_empty chosen then d ∷ [] else chosen) ≡ chosen)
  bound [] d = refl
  bound (a ∷ addr) d = refl

  abbrev without_init : Config
  without_init = record defaults { init = none }

  served_from :
      (s : Store)
      → back_srv p (p.random 2) without_init (p.close_db root key s world) ≡ ok (srv, opened s)
  unfolding back_srv
  served_from s =
      rw (resolved (p.random 2), h.reopens s, bound config.addr default_bind_addr, h.binds)

  abbrev chosen : Result Config
  chosen = do directory ← p.tempdir; apply_test_defaults p.text (p.random 0) directory config

  was_chosen : chosen ≡ ok defaults
  was_chosen = rw (h.directory, applied)

  run_serves :
      (st : State)
      → config_init p (p.random 1) defaults world ≡ (ok tt, p.close_db root key st.store world)
      → (back_run_test p config world).0 ≡ serving srv (opened st.store)
  unfolding back_run_test
  run_serves st ran =
      ap (λ (r : Result Config). (run_defaults p world r).0) was_chosen
      ∙ ap (λ (r : Result (Unit {0}) × World). (then_serve p without_init r).0) ran
      ∙ ap (served p) (served_from st.store)

  in_test_mode : (back_run p config world).0 ≡ (back_run_test p config world).0
  unfolding back_run
  in_test_mode = rw h.test_mode

  -- In test mode, with 32 random bytes, a new directory, a database that reopens under its key, an
  -- engine that works, a clock far enough below the i64 maximum, values of admissible lengths and
  -- an address that binds: back_run comes to serve, each given value, with an empty one under the
  -- test api key in place of any, is stored under its key, and the authorization with the test
  -- token is accepted.
  pub back_run-serves :
      (st : State) × ((back_run p config world).0 ≡ serving srv st)
      × All (λ v. Has v st) (with_test_key p.text values)
      × ((auth : Bytes)
          → bearer_token auth ≡ test_api_key
          → auth_cb p.backend.engine auth st ≡ ok 200)
  back_run-serves =
      let (st, ran, has) = initialized in
      let reopened = opened st.store in
      (
        reopened,
        in_test_mode ∙ run_serves st ran,
        has,
        λ auth is_test.
            let there = insert-there _ _ (λ v. Has v reopened) values has in
            (auth_cb-accepts p.backend.engine auth reopened h.works).1 (
              λ none_given. let full : test_api_key ≡ [] = sym is_test ∙ none_given in cc,
              subst (λ t. Stored t reopened) (sym is_test) (there.0, there.1),
            ),
      )
