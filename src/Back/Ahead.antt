-- ===== src/Back/Ahead.antt =====
-- `upsert_value` of rs/v-m-io-back/src/lib.rs and the counter that is to stay ahead of the
-- timestamps in the store.
use v_m_io.Common.{
  ◌≡◌, refl, sym, ◌∙◌, subst, Bool, true, false, Option, some, List, [], ◌∷◌, ◌++◌, map, any, ℕ,
  length, ltb, arith, All, All-map, All-find, →is_yes, Option-cases, inl, inr,
}
use v_m_io.Common.Bytes.{Bytes, dec_pair}
use v_m_io.Common.Int.{ℤ, ltbℤ, ◌≤ℤ◌, ◌<ℤ◌}
use v_m_io.Io.{Result, ok, err}
use v_m_io.Sql.Tables.{EntryRow, Tables, entry_pair, same_pair}
use v_m_io.Sql.Statements.{takes_modified, replace_entry, find_entry, upsert_entry}
use v_m_io.Sql.Newest.{find-upsert_entry}
use v_m_io.Sql.Rows.{upsert_entry-All}
use v_m_io.Sql.Methods.{Engine, Call, called, satisfied, execute}
use v_m_io.Sql.Methods as Sql
use v_m_io.Sql.Transact.{transact-bind, satisfied-ok}
use v_m_io.Db.Store.{Store, check_lengths, or_else, with_tables}
use v_m_io.Db.Store as Db
use v_m_io.Back.Values.{State, cfg_class, logged, write_at, check_value}

-- The row that a write of a config value makes.
abbrev pub cfg_row : Bytes → Bytes → ℤ → Option ℤ → EntryRow
cfg_row key value m x = record {
  class = cfg_class;
  key = key;
  modified_at_micros = m;
  expires_at_micros = x;
  metadata = some value;
}

abbrev pub UpTo : ℤ → List EntryRow → Type 0
UpTo top = All (λ (e : EntryRow). e.modified_at_micros ≤ℤ top)

-- The counter is at or past every timestamp in the store.
abbrev pub IsAhead : State → Type 0
IsAhead st = UpTo st.counter st.store.tables.entries

pub UpTo-weaken : (a b : ℤ) (es : List EntryRow) → a ≤ℤ b → UpTo a es → UpTo b es
UpTo-weaken a b es h = All-map _ _ es (λ e k. omega arith)

logged-store : (r : Result Bool × Store) → (logged r).1 ≡ r.1
logged-store (ok applied, s) = refl
logged-store (err e, s) = refl

-- A write leaves the entries alone, or does the statement to them.
module _ (P : List EntryRow → Type 0) (engine : Engine) where
  Sql_upsert-keeps :
      (row : EntryRow) (t : Tables)
      → ((n : ℕ) (new : List EntryRow) → upsert_entry row t.entries ≡ some (n, new) → P new)
      → P t.entries
      → P (Sql.upsert engine row t).1.entries
  unfolding Sql.upsert
  Sql_upsert-keeps row t made h =
      let Holds : Result Bool × Tables → Type 0 = λ (r : Result Bool × Tables). P r.1.entries in
      transact-bind Holds t (λ _. h) (called engine execute) _
        (λ _ _.
          transact-bind Holds t (λ _. h) (satisfied (upsert_entry row t.entries)) _
            (λ a e. made a.0 a.1 (satisfied-ok _ _ e)))

  checked-keeps :
      (s : Store) (row : EntryRow) (r : Result (Unit {0}))
      → ((n : ℕ) (new : List EntryRow) → upsert_entry row s.tables.entries ≡ some (n, new) → P new)
      → P s.tables.entries
      → P (or_else s r (with_tables s (Sql.upsert engine row s.tables))).1.tables.entries
  checked-keeps s row (ok u) made h = Sql_upsert-keeps row s.tables made h
  checked-keeps s row (err e) made h = h

  pub write_at-keeps :
      (key value : Bytes) (m : ℤ) (x : Option ℤ) (s : Store)
      → ((n : ℕ) (new : List EntryRow)
          → upsert_entry (cfg_row key value m x) s.tables.entries ≡ some (n, new)
          → P new)
      → P s.tables.entries
      → P (write_at engine key value m x s).1.tables.entries
  unfolding Db.upsert
  write_at-keeps key value m x s made h =
      subst (λ (s' : Store). P s'.tables.entries)
        (sym (logged-store (Db.upsert engine cfg_class key m x (some value) s)))
        (checked-keeps s (cfg_row key value m x) (check_lengths cfg_class key (some value)) made h)

pub write_at-UpTo :
    (engine : Engine) (key value : Bytes) (m top : ℤ) (x : Option ℤ) (s : Store)
    → m ≤ℤ top
    → UpTo top s.tables.entries
    → UpTo top (write_at engine key value m x s).1.tables.entries
write_at-UpTo engine key value m top x s h k =
    write_at-keeps (UpTo top) engine key value m x s
      (λ n new e. upsert_entry-All _ (cfg_row key value m x) s.tables.entries n new e h k) k

-- None of the rows takes a timestamp past them all.
fresh-any :
    (row : EntryRow) (top : ℤ) (es : List EntryRow)
    → top <ℤ row.modified_at_micros
    → UpTo top es
    → any (takes_modified row) es ≡ false
fresh-any row top [] h k = refl
fresh-any row top (e ∷ es) h k =
    let this : takes_modified row e ≡ false = ground arith in rw (this, fresh-any row top es h k.1)

same_pair_refl : (p : Bytes × Bytes) → same_pair p p ≡ true
same_pair_refl p = →is_yes (dec_pair p p) refl

-- A row newer than all is inserted, or replaces the one under its key; a reader finds it.
pub upsert_entry-fresh :
    (row : EntryRow) (top : ℤ) (old : List EntryRow)
    → top <ℤ row.modified_at_micros
    → UpTo top old
    → (new : List EntryRow) × (upsert_entry row old ≡ some (1, new))
      × (find_entry (entry_pair row) new ≡ some row)
unfolding upsert_entry
upsert_entry-fresh row top old h k =
    let free = fresh-any row top old h k in
    let same = same_pair_refl (entry_pair row) in
    elim (Option-cases (find_entry (entry_pair row) old)) [
      | inl absent ↦
          let done : upsert_entry row old ≡ some (1, old ++ (row ∷ [])) =
            rw (absent, free, upsert_entry) in
          (
            old ++ (row ∷ []),
            done,
            find-upsert_entry row old 1 _ done (entry_pair row) ∙ rw (same, absent),
          )
      | inr (before, present) ↦
          let older : before.modified_at_micros ≤ℤ top = (All-find _ _ old before k present).0 in
          let newer : ltbℤ before.modified_at_micros row.modified_at_micros ≡ true = ground arith in
          let done : upsert_entry row old ≡ some (1, map (replace_entry row) old) =
            rw (present, newer, free, upsert_entry) in
          (
            map (replace_entry row) old,
            done,
            find-upsert_entry row old 1 _ done (entry_pair row) ∙ rw (same, present, newer),
          )
    ]

module _ (engine : Engine) (works : (call : Call) → engine call ≡ true) (key value : Bytes)
    (x : Option ℤ) where
  -- The write of a config value whose timestamp is past all others is applied.
  pub write_at-fresh :
      (m top : ℤ) (s : Store)
      → check_value key value ≡ ok tt
      → top <ℤ m
      → UpTo top s.tables.entries
      → (s' : Store) × (write_at engine key value m x s ≡ (ok tt, s'))
        × (find_entry (cfg_class, key) s'.tables.entries ≡ some (cfg_row key value m x))
  unfolding Db.upsert Sql.upsert check_lengths
  write_at-fresh m top s fits h k =
      let row = cfg_row key value m x in
      let (new, done, found) = upsert_entry-fresh row top s.tables.entries h k in
      let short : ltb 1024 (length key) ≡ false = ground arith in
      let small : ltb 4096 (length value) ≡ false = ground arith in
      (
        record s { tables = record { entries = new; chunks = s.tables.chunks } },
        rw (short, small, works execute, done),
        found,
      )
