-- ===== src/Back/Reading.antt =====
-- `read_all` of rs/v-m-io-back/src/lib.rs: the config values that it lists.
use v_m_io.Common.{
  ℕ, ◌≤◌, ◌<◌, ◌^◌, ◌-◌, ◌≡◌, refl, sym, ap, ◌∙◌, subst, Bool, true, ◌&&◌, Option, none, some, List,
  [], ◌∷◌, map, keep, any, take, take_of_length, length, length-take, length-keep-le, All, All-map,
  All-keep_map, arith, is_yes, is_yes→, is_no→, →is_yes, ap₂, All-of_find, Bool-cases, inl, inr,
}
use v_m_io.Common.Bytes.{Bytes, dec_bytes, dec_pair}
use v_m_io.Common.Sort.{insert, sort, All-sort, length-sort}
use v_m_io.Common.Unique.{Unique, Unique-snoc, Unique-map}
use v_m_io.Io.{ok}
use v_m_io.Sql.Tables.{EntryRow, Tables, key_asc, entry_pair, same_pair}
use v_m_io.Sql.Statements.{find_entry, to_entry, upsert_entry, replace_entry}
use v_m_io.Sql.Methods.{Engine, Call, begin, query, sort_leb, filter_test, list_rows}
use v_m_io.Sql.Outcomes.{upsert_entry-Outcome, replace_entry-pair}
use v_m_io.Sql.Methods as Sql
use v_m_io.Db.Store as Db
use v_m_io.Chan.Client.{CfgGetItem}
use v_m_io.Back.Values.{State, cfg_class, value_of, to_items, read_all}

abbrev or_empty : Option Bytes → Bytes
or_empty none = []
or_empty (some value) = value

-- What the server sends of an entry.
abbrev pub item_of : EntryRow → CfgGetItem
item_of e = record {
  key = e.key;
  value = or_empty e.metadata;
  modified_at_micros = e.modified_at_micros;
  expires_at_micros = e.expires_at_micros;
}

-- The value of the entry is text.
abbrev pub IsText : (Bytes → Bool) → EntryRow → Type 0
IsText is_utf8 e = is_utf8 (or_empty e.metadata) ≡ true

-- The config entries, in the order of their keys.
abbrev pub config_rows : List EntryRow → List EntryRow
config_rows entries =
    sort (sort_leb key_asc)
      (keep (λ (e : EntryRow). is_yes (dec_bytes e.class cfg_class) && true) entries)

value_of-text :
    (is_utf8 : Bytes → Bool) (metadata : Option Bytes)
    → is_utf8 (or_empty metadata) ≡ true
    → value_of is_utf8 metadata ≡ ok (or_empty metadata)
value_of-text is_utf8 none h = refl
value_of-text is_utf8 (some value) h = rw h

to_items-map :
    (is_utf8 : Bytes → Bool) (t : Tables) (rows : List EntryRow)
    → All (IsText is_utf8) rows
    → to_items is_utf8 (map (to_entry t) rows) ≡ ok (map item_of rows)
to_items-map is_utf8 t [] h = refl
to_items-map is_utf8 t (e ∷ rows) h =
    rw (value_of-text is_utf8 e.metadata h.0, to_items-map is_utf8 t rows h.1)

config_rows-All : (P : EntryRow → Type 0) (es : List EntryRow) → All P es → All P (config_rows es)
config_rows-All P es h = All-sort (sort_leb key_asc) P _ (All-keep_map P P _ es (λ e _ k. k) h)

any-insert :
    (p : EntryRow → Bool) (le : EntryRow → EntryRow → Bool) (e : EntryRow) (es : List EntryRow)
    → any p (insert le e es) ≡ any p (e ∷ es)
any-insert p le e [] = refl
any-insert p le e (f ∷ es) = ground (arith, any-insert p le e es)

any-sort :
    (p : EntryRow → Bool) (le : EntryRow → EntryRow → Bool) (es : List EntryRow)
    → any p (sort le es) ≡ any p es
unfolding sort
any-sort p le [] = refl
any-sort p le (e ∷ es) = any-insert p le e (sort le es) ∙ ground (arith, any-sort p le es)

length-config_rows : (es : List EntryRow) → length (config_rows es) ≤ length es
length-config_rows es = omega (
  arith,
  length-sort (sort_leb key_asc)
      (keep (λ (e : EntryRow). is_yes (dec_bytes e.class cfg_class) && true) es),
  length-keep-le (λ (e : EntryRow). is_yes (dec_bytes e.class cfg_class) && true) es,
)

pub read_all-rows :
    (is_utf8 : Bytes → Bool) (glob : Bytes → Bytes → Bool) (engine : Engine) (st : State)
    → ((call : Call) → engine call ≡ true)
    → All (IsText is_utf8) st.store.tables.entries
    → length st.store.tables.entries < 2 ^ 63
    → read_all is_utf8 glob engine st ≡ ok (map item_of (config_rows st.store.tables.entries))
unfolding read_all Db.list Sql.list list_rows
read_all-rows is_utf8 glob engine st works text few =
    let es = st.store.tables.entries in
    let whole : take (2 ^ 63 - 1) (config_rows es) ≡ config_rows es =
      take_of_length (2 ^ 63 - 1) (config_rows es)
        (omega (arith, length-take (2 ^ 63 - 1) (config_rows es), length-config_rows es)) in
    rw (works begin, works query, whole)
      (to_items-map is_utf8 st.store.tables (config_rows es)
        (config_rows-All (IsText is_utf8) es text))

-- The row that is found is the only one under its pair.
found_once :
    (p : Bytes × Bytes) (es : List EntryRow) (row : EntryRow)
    → Unique entry_pair es
    → find_entry p es ≡ some row
    → All (λ e. p ≡ entry_pair e → e ≡ row) es
found_once p [] row u h = tt
found_once p (e ∷ es) row u h = elim (Bool-cases (same_pair p (entry_pair e))) [
  | inl s ↦
      let here : e ≡ row = ground arith in
      let same = is_yes→ (dec_pair p (entry_pair e)) s in
      (λ _. here, All-map _ _ es (λ f other q. absurd (other (sym same ∙ q))) u.0)
  | inr n ↦
      let there : find_entry p es ≡ some row = ground arith in
      (λ q. absurd (is_no→ (dec_pair p (entry_pair e)) n q), found_once p es row u.1 there)
]

found_any :
    (key : Bytes) (es : List EntryRow) (row : EntryRow)
    → find_entry (cfg_class, key) es ≡ some row
    → any (λ (e : EntryRow). is_yes (dec_bytes key e.key)) (config_rows es) ≡ true
found_any key es row h = any-sort _ (sort_leb key_asc) _ ∙ in_kept es h
  where
    in_kept :
        (fs : List EntryRow)
        → find_entry (cfg_class, key) fs ≡ some row
        → any
            (λ (e : EntryRow). is_yes (dec_bytes key e.key))
            (keep (λ (e : EntryRow). is_yes (dec_bytes e.class cfg_class) && true) fs)
          ≡ true
    in_kept [] e = cc
    in_kept (f ∷ fs) e = elim (Bool-cases (same_pair (cfg_class, key) (entry_pair f))) [
      | inl s ↦
          let same = is_yes→ (dec_pair (cfg_class, key) (entry_pair f)) s in
          let is_class : is_yes (dec_bytes f.class cfg_class) ≡ true =
            →is_yes (dec_bytes f.class cfg_class) (ap (λ (q : Bytes × Bytes). q.0) (sym same)) in
          let is_key : is_yes (dec_bytes key f.key) ≡ true =
            →is_yes (dec_bytes key f.key) (ap (λ (q : Bytes × Bytes). q.1) same) in
          rw is_class (rw is_key)
      | inr n ↦
          let there : find_entry (cfg_class, key) fs ≡ some row = ground arith in
          elim (Bool-cases (is_yes (dec_bytes f.class cfg_class))) [
            | inl c ↦ rw c (ground (arith, in_kept fs there))
            | inr c ↦ rw c (in_kept fs there)
          ]
    ]

-- Among the config entries, the one that is found is the only one under its key.
pub config_rows-found :
    (key : Bytes) (es : List EntryRow) (row : EntryRow)
    → Unique entry_pair es
    → find_entry (cfg_class, key) es ≡ some row
    → All (λ e. key ≡ e.key → e ≡ row) (config_rows es)
      × (any (λ (e : EntryRow). is_yes (dec_bytes key e.key)) (config_rows es) ≡ true)
config_rows-found key es row u h = (
  All-sort (sort_leb key_asc) _ _ (
      All-keep_map (λ e. (cfg_class, key) ≡ entry_pair e → e ≡ row) (λ e. key ≡ e.key → e ≡ row) _
        es
        (λ e test only same.
          let is_class = is_yes→ (dec_bytes e.class cfg_class) (ground arith) in
          only (ap₂ (λ (a b : Bytes). (a, b)) (sym is_class) same))
        (found_once (cfg_class, key) es row u h)),
  found_any key es row h,
)

-- The keys stay unique.
pub upsert_entry-Unique :
    (row : EntryRow) (old : List EntryRow) (n : ℕ) (new : List EntryRow)
    → upsert_entry row old ≡ some (n, new)
    → Unique entry_pair old
    → Unique entry_pair new
upsert_entry-Unique row old n new e u = elim (upsert_entry-Outcome row old n new e) [
  | inl o ↦ subst (Unique entry_pair) (sym o.result) (
      Unique-snoc entry_pair old row u (
        All-map _ _ old (λ f ne q. is_no→ (dec_pair (entry_pair row) (entry_pair f)) ne (sym q))
          (All-of_find _ old o.absent)))
  | inr (inl o) ↦
      subst (Unique entry_pair) (sym o.result)
        (Unique-map entry_pair (replace_entry row) old (replace_entry-pair row) u)
  | inr (inr o) ↦ subst (Unique entry_pair) (sym o.result) u
]
