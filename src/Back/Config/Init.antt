-- ===== src/Back/Config/Init.antt =====
-- `config_init` of rs/v-m-io-back/src/lib.rs and the values that it writes.
use v_m_io.Common.{
  ◌≢◌, ap, All-map, is_yes→, ℕ, suc, ◌+◌, ◌<◌, ◌≤◌, ◌^◌, ◌≡◌, refl, sym, ◌∙◌, subst, true, false,
  Option, none, some, List, [], ◌∷◌, length, All, arith, Bool-cases, inl, inr,
}
use v_m_io.Common.Bytes.{Bytes, dec_pair}
use v_m_io.Common.Trees.{Ascending}
use v_m_io.Common.Int.{ℤ, pos, ◌+ℤ◌, ◌≤ℤ◌, eqbℤ, i64_max}
use v_m_io.Io.{Result, ok}
use v_m_io.Sql.Tables.{EntryRow, entry_pair, same_pair}
use v_m_io.Sql.Statements.{find_entry, upsert_entry}
use v_m_io.Sql.Newest.{newest, find-upsert_entry}
use v_m_io.Sql.Methods.{Call}
use v_m_io.Back.Clock.{propose, succ_i64}
use v_m_io.Back.Values.{State, Attempt, cfg_class, cfg_key_max, cfg_value_max, upsert_value}
use v_m_io.Back.Ahead.{IsAhead, cfg_row}
use v_m_io.Back.Keeps.{upsert_value-keeps}
use v_m_io.Back.Writes.{upsert_value-Written}
use v_m_io.Back.Server.{config_init}

-- The value is stored under the key.
abbrev pub Has : Bytes × Bytes → State → Type 0
Has (key, value) st =
    (e : EntryRow) × (find_entry (cfg_class, key) st.store.tables.entries ≡ some e)
    × (e.metadata ≡ some value)

module _ (p : Bytes × Bytes) (value : Bytes) where
  abbrev pub Present : List EntryRow → Type 0
  Present es = (e : EntryRow) × (find_entry p es ≡ some e) × (e.metadata ≡ some value)

  upsert_entry-Present :
      (row : EntryRow) (old : List EntryRow) (n : ℕ) (new : List EntryRow)
      → same_pair p (entry_pair row) ≡ false
      → upsert_entry row old ≡ some (n, new)
      → Present old
      → Present new
  upsert_entry-Present row old n new other e (was, h, v) =
      (was, find-upsert_entry row old n new e p ∙ rw (other, h), v)

-- An entry is there, whatever its value.
module _ (p : Bytes × Bytes) where
  abbrev pub Entered : List EntryRow → Type 0
  Entered es = (e : EntryRow) × (find_entry p es ≡ some e)

  upsert_entry-Entered :
      (row : EntryRow) (old : List EntryRow) (n : ℕ) (new : List EntryRow)
      → upsert_entry row old ≡ some (n, new)
      → Entered old
      → Entered new
  upsert_entry-Entered row old n new e (was, h) =
      let read = find-upsert_entry row old n new e p in
      elim (Bool-cases (same_pair p (entry_pair row))) [
        | inl s ↦ (newest (find_entry (entry_pair row) old) row, read ∙ rw s)
        | inr s ↦ (was, read ∙ rw s h)
      ]

  -- A write of a value removes no entry.
  pub upsert_value-Entered :
      (attempt : ℕ → Attempt) (key value : Bytes) (m x : Option ℤ) (st : State)
      → Entered st.store.tables.entries
      → Entered (upsert_value attempt key value m x st).1.store.tables.entries
  upsert_value-Entered attempt key value m x st =
      upsert_value-keeps Entered key value x
        (λ m' old n new e. upsert_entry-Entered (cfg_row key value m' x) old n new e) attempt m st

-- A write of a value leaves the values under other keys.
pub upsert_value-Has :
    (attempt : ℕ → Attempt) (key value : Bytes) (x : Option ℤ) (st : State) (v : Bytes × Bytes)
    → v.0 ≢ key
    → Has v st
    → Has v (upsert_value attempt key value none x st).1
upsert_value-Has attempt key value x st v other =
    upsert_value-keeps (Present (cfg_class, v.0) v.1) key value x
      (λ m' old n new e.
        upsert_entry-Present (cfg_class, v.0) v.1 (cfg_row key value m' x) old n new differs e)
      attempt none st
  where
    differs : same_pair (cfg_class, v.0) (cfg_class, key) ≡ false
    differs = elim (Bool-cases (same_pair (cfg_class, v.0) (cfg_class, key))) [
      | inr e ↦ e
      | inl e ↦ absurd (
          other (
            ap (λ (q : Bytes × Bytes). q.1)
              (is_yes→ (dec_pair (cfg_class, v.0) (cfg_class, key)) e)))
    ]

-- What `config_init` asks of its values.
abbrev pub Fits : Bytes × Bytes → Type 0
Fits (key, value) = (length key ≤ cfg_key_max) × (length value ≤ cfg_value_max)

propose-bounded :
    (now prev : ℤ) (b : ℕ)
    → now ≤ℤ pos b
    → prev ≤ℤ pos b
    → suc b < 2 ^ 63
    → (propose now prev ≤ℤ pos (suc b)) × (eqbℤ prev i64_max ≡ false)
unfolding propose succ_i64 ◌+ℤ◌
propose-bounded now prev b hn hp hb = (ground arith, ground arith)

module _ (attempt : ℕ → ℕ → Attempt)
    (works : (n : ℕ) (call : Call) → (attempt n 0).engine call ≡ true) (top : ℕ)
    (clock : (n : ℕ) → (attempt n 0).now ≤ℤ pos top) where
  -- Each value is stored, and a value under a key that is none of theirs stays.
  pub config_init-Has :
      (n b : ℕ) (values : List (Bytes × Bytes)) (st : State)
      → All Fits values
      → Ascending values
      → IsAhead st
      → st.counter ≤ℤ pos b
      → top ≤ b
      → b + length values < 2 ^ 63
      → (st' : State) × (config_init attempt n values st ≡ (ok tt, st'))
        × All (λ v. Has v st') values
        × ((v : Bytes × Bytes) → All (λ w. v.0 ≢ w.0) values → Has v st → Has v st')
  unfolding config_init
  config_init-Has n b [] st fits distinct ahead low hb room = (st, refl, tt, λ v others h. h)
  config_init-Has n b ((key, value) ∷ values) st fits distinct ahead low hb room =
      let bound =
        propose-bounded (attempt n 0).now st.counter b (omega (arith, clock n)) low (omega arith) in
      let (st', done, is_next, w) =
        upsert_value-Written (attempt n) key value none st (works n) fits.0.0 fits.0.1 ahead
          bound.1 in
      let low' : st'.counter ≤ℤ pos (suc b) = subst (λ c. c ≤ℤ pos (suc b)) (sym is_next) bound.0 in
      let (end, ran, has, keeps) =
        config_init-Has (suc n) (suc b) values st' fits.1 distinct.1 w.ahead low' (omega arith)
          (omega arith) in
      let here : Has (key, value) st' = (_, w.found, refl) in
      let later : All (λ q. key ≢ q.0) values = All-map _ _ values (λ q a. a.1) distinct.0 in
      let kept : (v : Bytes × Bytes) → v.0 ≢ key → Has v st → Has v st' = λ v other h.
        subst (λ (r : Result (Unit {0}) × State). Has v r.1) done
          (upsert_value-Has (attempt n) key value none st v other h) in
      (
        end,
        rw (done, ran),
        (keeps (key, value) later here, has),
        λ v others h. keeps v others.1 (kept v others.0 h),
      )
