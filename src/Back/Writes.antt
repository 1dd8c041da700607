-- ===== src/Back/Writes.antt =====
-- What `upsert_value` and the check of api keys of rs/v-m-io-back/src/lib.rs promise together.
use v_m_io.Common.{
  ℕ, ◌≤◌, ◌≡◌, ◌≢◌, ◌↔◌, refl, ap, subst, true, false, Option, none, some, [], ◌∷◌, ◌++◌, length,
  ltb, arith, if◌then◌else◌, Option-cases, inl, inr,
}
use v_m_io.Common.Bytes.{Bytes}
use v_m_io.Common.Int.{ℤ, ltbℤ, eqbℤ, ◌<ℤ◌, i64_max}
use v_m_io.Io.{Result, ok, err}
use v_m_io.Sql.Tables.{EntryRow}
use v_m_io.Sql.Statements.{find_entry, get_entry}
use v_m_io.Sql.Methods.{Engine, Call, begin, query}
use v_m_io.Sql.Methods as Sql
use v_m_io.Db.Store.{Store}
use v_m_io.Db.Store as Db
use v_m_io.Back.Clock.{next_micros, fetch_max, propose, propose-grows}
use v_m_io.Back.Values.{
  State, Attempt, cfg_class, cfg_api_key_prefix, cfg_key_max, cfg_value_max, write_at, retry,
  check_value, unless_refused, upsert_value, keep_counter, bearer_token, token_status, auth_cb,
}
use v_m_io.Back.Ahead.{UpTo, IsAhead, cfg_row, UpTo-weaken, write_at-UpTo, write_at-fresh}

-- A written config value: the timestamp is new, the counter holds it and stays ahead of the store,
-- and a reader finds the value.
pub record Written (key value : Bytes) (x : Option ℤ) (st st' : State) : Type 0 where
  pub later : st.counter <ℤ st'.counter
  pub ahead : IsAhead st'
  pub found :
      find_entry (cfg_class, key) st'.store.tables.entries ≡ some (cfg_row key value st'.counter x)

check_value-ok :
    (key value : Bytes)
    → length key ≤ cfg_key_max
    → length value ≤ cfg_value_max
    → check_value key value ≡ ok tt
check_value-ok key value hk hv =
    let short : ltb cfg_key_max (length key) ≡ false = ground arith in
    let small : ltb cfg_value_max (length value) ≡ false = ground arith in rw (short, small)

-- Without a timestamp, while the counter is ahead of the store and below the i64 maximum, and with
-- an engine that works at the first attempt, upsert_value of a key and a value of admissible
-- lengths succeeds, with a timestamp larger than the counter was; the counter holds it and stays
-- ahead of the store, and a reader finds the value.
pub upsert_value-Written :
    (attempt : ℕ → Attempt) (key value : Bytes) (x : Option ℤ) (st : State)
    → ((call : Call) → (attempt 0).engine call ≡ true)
    → length key ≤ cfg_key_max
    → length value ≤ cfg_value_max
    → IsAhead st
    → eqbℤ st.counter i64_max ≡ false
    → (st' : State) × (upsert_value attempt key value none x st ≡ (ok tt, st'))
      × (st'.counter ≡ propose (attempt 0).now st.counter)
      × Written key value x st st'
unfolding upsert_value retry next_micros
upsert_value-Written attempt key value x st works hk hv ahead below =
    let m = propose (attempt 0).now st.counter in
    let fits = check_value-ok key value hk hv in
    let later = (propose-grows (attempt 0).now st.counter below).0 in
    let (s', done, found) =
      write_at-fresh (attempt 0).engine works key value x m st.counter st.store fits later ahead in
    let kept =
      write_at-UpTo (attempt 0).engine key value m m x st.store (omega arith)
        (UpTo-weaken st.counter m _ (omega arith) ahead) in
    let short : ltb cfg_key_max (length key) ≡ false = ground arith in
    let small : ltb cfg_value_max (length value) ≡ false = ground arith in
    (
      record { store = s'; counter = m },
      rw (short, small, done),
      refl,
      record {
        later = later;
        ahead = subst (λ (r : Result (Unit {0}) × Store). UpTo m r.1.tables.entries) done kept;
        found = found;
      },
    )

-- A write under an explicit timestamp, refused or not, keeps the counter ahead of the store.
pub upsert_value-IsAhead :
    (attempt : ℕ → Attempt) (key value : Bytes) (m : ℤ) (x : Option ℤ) (st : State)
    → IsAhead st
    → IsAhead (upsert_value attempt key value (some m) x st).1
unfolding upsert_value fetch_max
upsert_value-IsAhead attempt key value m x st ahead = go (check_value key value)
  where
    top : ℤ
    top = if ltbℤ st.counter m then m else st.counter

    go :
        (r : Result (Unit {0}))
        → IsAhead
            (unless_refused st r
              (keep_counter top (write_at (attempt 0).engine key value m x st.store))).1
    go (err e) = ahead
    go (ok u) =
        write_at-UpTo (attempt 0).engine key value m top x st.store (ground arith)
          (UpTo-weaken st.counter top _ (ground arith) ahead)

-- An entry is stored under the api key of the token.
abbrev pub Stored : Bytes → State → Type 0
Stored token st =
    (e : EntryRow) × (find_entry (cfg_class, cfg_api_key_prefix ++ token) st.store.tables.entries
      ≡ some e)

module _ (engine : Engine) (works : (call : Call) → engine call ≡ true) (st : State) where
  found-status :
      (token : Bytes) (e : EntryRow)
      → token ≢ []
      → find_entry (cfg_class, cfg_api_key_prefix ++ token) st.store.tables.entries ≡ some e
      → token_status engine token st ≡ 200
  unfolding Db.get Sql.get get_entry
  found-status [] e full h = absurd (full refl)
  found-status (c ∷ token) e full h = rw (works begin, works query, h)

  status-found :
      (token : Bytes) → token_status engine token st ≡ 200 → (token ≢ []) × Stored token st
  unfolding Db.get Sql.get get_entry
  status-found [] h = absurd (omega arith)
  status-found (c ∷ token) h =
      elim (Option-cases
        (find_entry (cfg_class, cfg_api_key_prefix ++ (c ∷ token)) st.store.tables.entries)) [
          | inr found ↦ ((λ e. cc), found)
          | inl absent ↦
              let status : token_status engine (c ∷ token) st ≡ 401 =
                rw (works begin, works query, absent) in
              absurd (omega arith)
        ]

ok_injective : {A : Type 0} {a b : A} → ok a ≡ ok b → a ≡ b
ok_injective h = cc

-- Where the engine works, an authorization header is accepted exactly if its token is not empty
-- and an entry is stored under the api key of the token, whatever its value and expiry.
pub auth_cb-accepts :
    (engine : Engine) (auth : Bytes) (st : State)
    → ((call : Call) → engine call ≡ true)
    → (auth_cb engine auth st ≡ ok 200) ↔ ((bearer_token auth ≢ []) × Stored (bearer_token auth) st)
unfolding auth_cb
auth_cb-accepts engine auth st works = (
  (λ h. status-found engine works st (bearer_token auth) (ok_injective h)),
  (λ h. ap ok (found-status engine works st (bearer_token auth) h.1.0 h.0 h.1.1)),
)

-- While the counter is ahead of the store and below the i64 maximum, with an engine that works,
-- and for a token that is not empty and an api key and a value of admissible lengths, upsert_value
-- of the api key without a timestamp makes the token accepted, whatever value is written: a
-- tombstone too.
pub auth_cb-upsert_value :
    (attempt : ℕ → Attempt) (auth value : Bytes) (x : Option ℤ) (st : State)
    → ((call : Call) → (attempt 0).engine call ≡ true)
    → bearer_token auth ≢ []
    → length (cfg_api_key_prefix ++ bearer_token auth) ≤ cfg_key_max
    → length value ≤ cfg_value_max
    → IsAhead st
    → eqbℤ st.counter i64_max ≡ false
    → auth_cb
        (attempt 0).engine
        auth
        (upsert_value attempt (cfg_api_key_prefix ++ bearer_token auth) value none x st).1
      ≡ ok 200
auth_cb-upsert_value attempt auth value x st works full hk hv ahead below =
    let (st', done, c, w) =
      upsert_value-Written attempt (cfg_api_key_prefix ++ bearer_token auth) value x st works hk hv
        ahead below in
    rw done ((auth_cb-accepts (attempt 0).engine auth st' works).1 (full, (_, w.found)))
