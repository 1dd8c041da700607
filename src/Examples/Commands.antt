-- ===== src/Examples/Commands.antt =====
-- The theorem on commands, at a server that holds an api key.
use v_m_io.Common.{
  ◌<◌, ◌^◌, ◌≡◌, refl, false, none, some, List, [], ◌∷◌, length, All, arith, if◌then◌else◌,
}
use v_m_io.Common.Bytes.{Bytes, ascii, dec_pair}
use v_m_io.Common.Int.{pos, ◌+ℤ◌, eqbℤ, i64_max}
use v_m_io.Common.Unique.{Unique}
use v_m_io.Io.{Result, ok}
use v_m_io.Sql.Tables.{entry_pair}
use v_m_io.Sql.Statements.{upsert_entry}
use v_m_io.Sql.Methods as Sql
use v_m_io.Db.Store as Db
use native.Mathlib.Decide.{ℕ_discrete}
use v_m_io.Chan.Client.{CfgGetItem, items}
use v_m_io.Back.Clock.{next_micros, propose, succ_i64}
use v_m_io.Back.Values.{State, retry, upsert_value, bearer_token}
use v_m_io.Back.Reading.{IsText}
use v_m_io.Back.Ahead.{IsAhead}
use v_m_io.Back.Server.{back_srv-IsBackend}
use v_m_io.Cli.{shown, dump, item_under}
use v_m_io.Cli.Run.{Config, cfg_get_cmd, cfg_put_cmd, printed, client_run}
use v_m_io.Cli.ReadBack.{client_run-read_back}
use v_m_io.Examples.Codecs.{toy_codec, toy_codec-IsCodec}
use v_m_io.Examples.Servers.{
  backend, attempts, inner, wire, wire-Delivers, with_key, with_key_accepted,
}

abbrev cmd_put : Config
cmd_put = record { api_key = ascii "k"; cmd = cfg_put_cmd (ascii "a") (ascii "b") none none }

abbrev cmd_get : Config
cmd_get = record { api_key = ascii "k"; cmd = cfg_get_cmd false }

abbrev print : List CfgGetItem → Result Bytes
print received = ok (ascii "printed")

-- What the command asks of the store.
with_key_fits :
    IsAhead with_key
    × (eqbℤ with_key.counter i64_max ≡ false)
    × Unique entry_pair with_key.store.tables.entries
    × All (IsText backend.is_utf8) with_key.store.tables.entries
    × (length
          (upsert_value attempts (ascii "a") (ascii "b") none none with_key).1.store.tables.entries
        < 2 ^ 63)
unfolding upsert_value retry next_micros propose succ_i64 ◌+ℤ◌ Db.upsert Db.check_lengths Sql.upsert
    upsert_entry dec_pair ℕ_discrete bearer_token
with_key_fits = (omega arith, refl, (tt, tt), (refl, tt), omega arith)

client_run-read_back_example :
    (st' : State) × (received : List CfgGetItem) × (client_run toy_codec
        (wire inner)
        print
        (pos 0)
        cmd_put
        with_key
      ≡ (ok none, st'))
    × (client_run toy_codec (wire inner) print (pos 0) cmd_get st'
        ≡ (printed toy_codec (wire inner) print false (items received), st'))
    × (let item : CfgGetItem = record {
      key = ascii "a";
      value = ascii "b";
      modified_at_micros = st'.counter;
      expires_at_micros = none;
    } in
        item_under (ascii "a") (dump false received)
        ≡ (if shown false item then some item else none))
client_run-read_back_example =
    client_run-read_back backend inner (back_srv-IsBackend backend).2 (wire inner)
      (wire-Delivers inner) toy_codec-IsCodec print (pos 0) (ascii "k") false (ascii "a")
      (ascii "b") (1 ∷ b'a' ∷ 1 ∷ b'b' ∷ 0 ∷ 0 ∷ []) none with_key (λ call. refl) (λ call. refl)
      with_key_accepted refl (omega arith) (λ values. (_, refl)) (omega arith) (omega arith)
      with_key_fits.0 with_key_fits.1 with_key_fits.2 with_key_fits.3 refl with_key_fits.4
