-- ===== src/Cli/ReadBack.antt =====
-- A command of rs/v-m-io-cli/src/lib.rs that writes and a later one that shows, through the
-- channel, the handlers of the backend and the store.
use v_m_io.Common.{
  ◌≤◌, ◌<◌, ◌^◌, ◌≡◌, refl, ap, ◌∙◌, subst, Bool, true, false, Option, none, some, List, [], ◌++◌,
  map, length, All, arith, if◌then◌else◌,
}
use v_m_io.Common.Bytes.{Bytes, ascii}
use v_m_io.Common.Int.{ℤ, eqbℤ, i64_max}
use v_m_io.Common.Unique.{Unique}
use v_m_io.Io.{Result, ok}
use v_m_io.Sql.Tables.{entry_pair}
use v_m_io.Sql.Methods.{Call}
use v_m_io.Sql.Rows.{upsert_entry-All}
use v_m_io.Chan.Requests.{SrvInner, health_handler, health_req, max_body}
use v_m_io.Chan.Client.{Net, IsCodec, CfgGetItem, CfgGetRes, CfgPutReq, items, connect}
use v_m_io.Chan.Client as Client
use v_m_io.Chan.Dispatch.{Delivers, request-handle_request}
use v_m_io.Back.Values.{State, cfg_key_max, cfg_value_max, auth_cb, read_all, upsert_value}
use v_m_io.Back.Ahead.{IsAhead, cfg_row}
use v_m_io.Back.Keeps.{upsert_value-keeps}
use v_m_io.Back.Reading.{
  item_of, IsText, config_rows, read_all-rows, config_rows-found, upsert_entry-Unique,
}
use v_m_io.Back.Writes.{upsert_value-Written, auth_cb-accepts}
use v_m_io.Back.Config.Init.{upsert_value-Entered}
use v_m_io.Back.Server.{Backend, IsBackend, cfg_get_handler, cfg_put-upsert_value}
use v_m_io.Cli.{shown, dump, item_under}
use v_m_io.Cli.Printed.{Only-dump, items_only, any_items}
use v_m_io.Cli.Run.{Cmd, cfg_get_cmd, cfg_put_cmd, printed, cfg_get, cfg_put, client_run}

module _ (b : Backend) (inner : SrvInner State) (backend : IsBackend b inner) (net : Net State)
    (delivers : Delivers inner net) (codec : IsCodec b.codec) where
  -- A client whose authorization is accepted connects.
  connected :
      (auth : Bytes) (st : State)
      → auth_cb b.engine auth st ≡ ok 200
      → connect net auth st ≡ (ok tt, st)
  unfolding connect health_handler
  connected auth st accepted =
      let healthy =
        request-handle_request inner net delivers auth health_req [] st health_handler refl
          (backend.checks auth st ∙ accepted) backend.health (omega arith) in
      rw healthy

  -- `cfg_get` of the client gives what `read_all` gives at the server.
  cfg_get-read_all :
      (auth sent : Bytes) (st : State) (values : List CfgGetItem)
      → auth_cb b.engine auth st ≡ ok 200
      → read_all b.is_utf8 b.glob b.engine st ≡ ok values
      → b.codec.encode_get (items values) ≡ ok sent
      → Client.cfg_get b.codec net auth st ≡ (ok (items values), st)
  unfolding Client.cfg_get cfg_get_handler
  cfg_get-read_all auth sent st values accepted read encoded =
      let there =
        request-handle_request inner net delivers auth (ascii "cfg-get") [] st (cfg_get_handler b)
          refl (backend.checks auth st ∙ accepted) backend.gets (omega arith) in
      rw (there, read, encoded, codec.decode-encode_get (items values) sent encoded)

  module _ (print : List CfgGetItem → Result Bytes) (now : ℤ) (api_key : Bytes) where
    abbrev run : Cmd → State → Result (Option Bytes) × State
    run cmd = client_run b.codec net print now (record { api_key = api_key; cmd = cmd })

    abbrev auth : Bytes
    auth = ascii "Bearer " ++ api_key

    run-put :
        (key value sent : Bytes) (m x : Option ℤ) (st st' : State)
        → auth_cb b.engine auth st ≡ ok 200
        → b.codec.encode_put
            (record { key = key; value = value; expires_at_micros = x; modified_at_micros = m })
          ≡ ok sent
        → length sent ≤ max_body
        → upsert_value b.attempt key value m x st ≡ (ok tt, st')
        → run (cfg_put_cmd key value x m) st ≡ (ok none, st')
    unfolding client_run cfg_put
    run-put key value sent m x st st' accepted encoded small done =
        let input : CfgPutReq = record {
          key = key;
          value = value;
          expires_at_micros = x;
          modified_at_micros = m;
        } in
        let put =
          cfg_put-upsert_value b inner backend net delivers codec auth sent input st accepted
            encoded small in
        rw (connected auth st accepted, put, done)

    run-get :
        (show : Bool) (sent : Bytes) (st : State) (values : List CfgGetItem)
        → auth_cb b.engine auth st ≡ ok 200
        → read_all b.is_utf8 b.glob b.engine st ≡ ok values
        → b.codec.encode_get (items values) ≡ ok sent
        → run (cfg_get_cmd show) st ≡ (printed b.codec net print show (items values), st)
    unfolding client_run cfg_get
    run-get show sent st values accepted read encoded =
        rw (connected auth st accepted, cfg_get-read_all auth sent st values accepted read encoded)

    -- An authorization that is accepted still is after a write.
    still_accepted :
        (key value : Bytes) (m x : Option ℤ) (st : State)
        → ((call : Call) → b.engine call ≡ true)
        → auth_cb b.engine auth st ≡ ok 200
        → auth_cb b.engine auth (upsert_value b.attempt key value m x st).1 ≡ ok 200
    still_accepted key value m x st works accepted =
        let (full, stored) = (auth_cb-accepts b.engine auth st works).0 accepted in
        let after' = (upsert_value b.attempt key value m x st).1 in
        (auth_cb-accepts b.engine auth after' works).1
          (full, upsert_value-Entered _ b.attempt key value m x st stored)

    -- For a backend server, a network that delivers, a codec that reads back and encodes every
    -- listing, an engine that works, a client with an accepted api key, a key and a value of
    -- admissible lengths, a counter ahead of the store and below the i64 maximum, unique keys and
    -- values in the store that are text, and fewer than 2^63 entries: the subcommand cfg-put
    -- succeeds, and cfg-get after it prints a listing that has under the key the value that was
    -- written, with the counter for timestamp, or nothing under it if the filter of tombstones
    -- hides that.
    pub client_run-read_back :
        (show : Bool) (key value sent : Bytes) (x : Option ℤ) (st : State)
        → ((call : Call) → b.engine call ≡ true)
        → ((call : Call) → (b.attempt 0).engine call ≡ true)
        → auth_cb b.engine auth st ≡ ok 200
        → b.codec.encode_put
            (record { key = key; value = value; expires_at_micros = x; modified_at_micros = none })
          ≡ ok sent
        → length sent ≤ max_body
        → ((values : List CfgGetItem) → (s : Bytes) × (b.codec.encode_get (items values) ≡ ok s))
        → length key ≤ cfg_key_max
        → length value ≤ cfg_value_max
        → IsAhead st
        → eqbℤ st.counter i64_max ≡ false
        → Unique entry_pair st.store.tables.entries
        → All (IsText b.is_utf8) st.store.tables.entries
        → b.is_utf8 value ≡ true
        → length (upsert_value b.attempt key value none x st).1.store.tables.entries < 2 ^ 63
        → (st' : State) × (received : List CfgGetItem) × (run (cfg_put_cmd key value x none) st
            ≡ (ok none, st'))
          × (run (cfg_get_cmd show) st' ≡ (printed b.codec net print show (items received), st'))
          × (let item : CfgGetItem = record {
            key = key;
            value = value;
            modified_at_micros = st'.counter;
            expires_at_micros = x;
          } in
              item_under key (dump show received) ≡ (if shown show item then some item else none))
    client_run-read_back show key value sent x st works attempt_works accepted encoded small encodes
          hk hv ahead below unique text is_text few =
        let (st', done, _, w) =
          upsert_value-Written b.attempt key value x st attempt_works hk hv ahead below in
        let is_st' : (upsert_value b.attempt key value none x st).1 ≡ st' =
          ap (λ (r : Result (Unit {0}) × State). r.1) done in
        let entries = st'.store.tables.entries in
        let accepted' : auth_cb b.engine auth st' ≡ ok 200 =
          subst (λ s. auth_cb b.engine auth s ≡ ok 200) is_st'
            (still_accepted key value none x st works accepted) in
        let unique' : Unique entry_pair entries =
          subst (λ (s : State). Unique entry_pair s.store.tables.entries) is_st'
            (upsert_value-keeps (Unique entry_pair) key value x
              (λ m old n new. upsert_entry-Unique (cfg_row key value m x) old n new) b.attempt none
              st unique) in
        let text' : All (IsText b.is_utf8) entries =
          subst (λ (s : State). All (IsText b.is_utf8) s.store.tables.entries) is_st'
            (upsert_value-keeps (All (IsText b.is_utf8)) key value x
              (λ m old n new e.
                upsert_entry-All (IsText b.is_utf8) (cfg_row key value m x) old n new e is_text)
              b.attempt none st text) in
        let few' : length entries < 2 ^ 63 =
          subst (λ (s : State). length s.store.tables.entries < 2 ^ 63) is_st' few in
        let rows = config_rows entries in
        let row = cfg_row key value st'.counter x in
        let read = read_all-rows b.is_utf8 b.glob b.engine st' works text' few' in
        let (only, there) = config_rows-found key entries row unique' w.found in
        let (got, encoded_get) = encodes (map item_of rows) in
        (
          st',
          map item_of rows,
          run-put key value sent none x st st' accepted encoded small done,
          run-get show got st' (map item_of rows) accepted' read encoded_get,
          Only-dump show key (item_of row) (map item_of rows) (items_only key row rows only)
              (any_items key rows ∙ there),
        )
