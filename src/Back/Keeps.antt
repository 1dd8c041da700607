-- ===== src/Back/Keeps.antt =====
-- Properties of a store that the statement `upsert` may keep, over `upsert_value` of rs/v-m-io-
-- back/src/lib.rs.
use v_m_io.Common.{ℕ, zero, suc, ◌≡◌, Option, none, some, List}
use v_m_io.Common.Bytes.{Bytes}
use v_m_io.Common.Int.{ℤ}
use v_m_io.Io.{IoError, Result, ok, err}
use v_m_io.Sql.Tables.{EntryRow}
use v_m_io.Sql.Statements.{upsert_entry}
use v_m_io.Db.Store.{Store}
use v_m_io.Back.Clock.{fetch_max}
use v_m_io.Back.Values.{
  State, Attempt, turn, retry, write_at, keep_counter, check_value, write_value, unless_refused,
  upsert_value,
}
use v_m_io.Back.Ahead.{cfg_row, write_at-keeps}

module _ (P : List EntryRow → Type 0) (key value : Bytes) (x : Option ℤ)
    (made : (m : ℤ) (old : List EntryRow) (n : ℕ) (new : List EntryRow)
      → upsert_entry (cfg_row key value m x) old ≡ some (n, new)
      → P old
      → P new) where
  abbrev Stays : Result (Unit {0}) × State → Type 0
  Stays r = P r.1.store.tables.entries

  written-Stays :
      (attempt : Attempt) (m : ℤ) (s : Store)
      → P s.tables.entries
      → P (write_at attempt.engine key value m x s).1.tables.entries
  written-Stays attempt m s h =
      write_at-keeps P attempt.engine key value m x s (λ n new e. made m s.tables.entries n new e h)
        h

  turn-Stays :
      (counter : ℤ) (r : Result (Unit {0}) × Store)
      (rest : IoError → State → Result (Unit {0}) × State)
      → P r.1.tables.entries
      → ((e : IoError) (st : State) → P st.store.tables.entries → Stays (rest e st))
      → Stays (turn counter r rest)
  turn-Stays counter (ok u, s) rest h k = h
  turn-Stays counter (err e, s) rest h k = k e _ h

  retry-Stays :
      (fuel n : ℕ) (attempt : ℕ → Attempt) (last_err : Option IoError) (st : State)
      → P st.store.tables.entries
      → Stays (retry fuel n attempt key value x last_err st)
  unfolding retry
  retry-Stays zero n attempt last_err st h = h
  retry-Stays (suc fuel) n attempt last_err st h =
      turn-Stays _ _ _ (written-Stays (attempt n) _ st.store h)
        (λ e st' h'. retry-Stays fuel (suc n) attempt (some e) st' h')

  kept_counter-Stays :
      (counter : ℤ) (r : Result (Unit {0}) × Store)
      → P r.1.tables.entries
      → Stays (keep_counter counter r)
  kept_counter-Stays counter (r, s) h = h

  write_value-Stays :
      (attempt : ℕ → Attempt) (m : Option ℤ) (st : State)
      → P st.store.tables.entries
      → Stays (write_value attempt key value m x st)
  write_value-Stays attempt none st h = retry-Stays 64 0 attempt none st h
  write_value-Stays attempt (some m) st h =
      kept_counter-Stays (fetch_max m st.counter)
        (write_at (attempt 0).engine key value m x st.store)
        (written-Stays (attempt 0) m st.store h)

  pub upsert_value-keeps :
      (attempt : ℕ → Attempt) (m : Option ℤ) (st : State)
      → P st.store.tables.entries
      → P (upsert_value attempt key value m x st).1.store.tables.entries
  unfolding upsert_value
  upsert_value-keeps attempt m st h =
      elim (check_value key value)
        as (λ r. Stays (unless_refused st r (write_value attempt key value m x st))) [
          | ok u ↦ write_value-Stays attempt m st h
          | err e ↦ h
        ]
