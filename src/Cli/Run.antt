-- ===== src/Cli/Run.antt =====
-- The subcommands of rs/v-m-io-cli/src/lib.rs. The network and the codec are those of the channel's
-- client; the text of a JSON object is a parameter.
use v_m_io.Common.{Bool, Option, none, some, List, [], ◌++◌}
use v_m_io.Common.Bytes.{Bytes, ascii}
use v_m_io.Common.Int.{ℤ}
use v_m_io.Io.{Result, ok, err, other, ◌>>=◌}
use v_m_io.Chan.Requests.{health_req}
use v_m_io.Chan.Client.{
  Net, Codec, CfgGetItem, CfgGetRes, items, failure, CfgPutReq, connect, request,
}
use v_m_io.Chan.Client as Client
use v_m_io.Cli.{dump, cfg_rm}

-- `Cmd`
pub data Cmd : Type 0 where
  health_cmd : Cmd
  -- show_tombstones
  cfg_get_cmd : Bool → Cmd
  -- key, value, expires_at_micros, modified_at_micros
  cfg_put_cmd : Bytes → Bytes → Option ℤ → Option ℤ → Cmd
  -- key, expires_at_micros, modified_at_micros
  cfg_rm_cmd : Bytes → Option ℤ → Option ℤ → Cmd

-- `Config`; the address is that of the network.
pub record Config : Type 0 where
  pub api_key : Bytes
  pub cmd : Cmd

-- The header that `connect` is given.
abbrev pub auth_header : Config → Bytes
auth_header config = ascii "Bearer " ++ config.api_key

module _ {S : Type 0} where
  -- `?`, with what the server keeps.
  abbrev pub after {ℓ} : {A B : Type ℓ} → Result A × S → (A → S → Result B × S) → Result B × S
  after (err e, s) rest = (err e, s)
  after (ok a, s) rest = rest a s

  module _ (codec : Codec) (net : Net S) where
    -- `health`
    unfoldable pub health : Config → S → Result (Unit {0}) × S
    unfolding connect request
    health config s =
        after (connect net (auth_header config) s)
          (λ u s. after (request net (auth_header config) health_req [] s) (λ body s. (ok tt, s)))

    -- `cfg_get`
    unfoldable pub cfg_get : Config → S → Result CfgGetRes × S
    unfolding connect Client.cfg_get
    cfg_get config s =
        after (connect net (auth_header config) s)
          (λ u s. Client.cfg_get codec net (auth_header config) s)

    -- `cfg_put`
    unfoldable pub cfg_put : Config → CfgPutReq → S → Result (Unit {0}) × S
    unfolding connect Client.cfg_put
    cfg_put config input s =
        after (connect net (auth_header config) s)
          (λ u s. Client.cfg_put codec net (auth_header config) input s)

    -- What is printed of an answer; `print` is `to_string_pretty`.
    abbrev pub printed : (List CfgGetItem → Result Bytes) → Bool → CfgGetRes → Result (Option Bytes)
    printed print show_tombstones (failure e) = err (other e)
    printed print show_tombstones (items received) = do
      text ← print (dump show_tombstones received)
      ok (some text)

    abbrev pub silent : Result (Unit {0}) × S → Result (Option Bytes) × S
    silent r = after r (λ u s. (ok none, s))

    -- A subcommand, with the text that it prints; `now` is what the clock reads.
    abbrev pub run_cmd :
        (List CfgGetItem → Result Bytes) → ℤ → Config → Cmd → S → Result (Option Bytes) × S
    run_cmd print now config health_cmd s = silent (health config s)
    run_cmd print now config (cfg_get_cmd show_tombstones) s =
        after (cfg_get config s) (λ received s. (printed print show_tombstones received, s))
    run_cmd print now config (cfg_put_cmd key value expires_at_micros modified_at_micros) s =
        silent (
          cfg_put config
            (record {
              key = key;
              value = value;
              expires_at_micros = expires_at_micros;
              modified_at_micros = modified_at_micros;
            })
            s)
    run_cmd print now config (cfg_rm_cmd key expires_at_micros modified_at_micros) s =
        silent (cfg_put config (cfg_rm key expires_at_micros modified_at_micros now) s)

    -- `client_run`
    unfoldable pub client_run :
        (List CfgGetItem → Result Bytes) → ℤ → Config → S → Result (Option Bytes) × S
    unfolding health cfg_get cfg_put cfg_rm dump
    client_run print now config s = run_cmd print now config config.cmd s
