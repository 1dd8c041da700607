-- ===== src/Sql/Listing/Selected.antt =====
-- What `Sql::list` of rs/v-m-io-db/src/sql.rs selects, in plain terms: prefixes of keys, times
-- between bounds, and the order of keys and times.
use mathlib.Core.List.{Perm, perm_middle}
use mathlib.Core.List.Perm
use v_m_io.Common.{
  ◌+◌, ◌≡◌, refl, sym, ap, ◌∙◌, Bool, true, not, ◌&&◌, List, [], ◌∷◌, ◌++◌, arith, length, keep,
  All, All-map, All-both, All-keep_self, is_yes, →is_yes, Bool-cases, inl, inr,
}
use v_m_io.Common.Bytes.{Bytes, dec_bytes, starts_with, lex_leb}
use v_m_io.Common.Int.{ℤ, pos, ◌≤ℤ◌, ◌<ℤ◌, i64_max}
use v_m_io.Common.Sort.{IsSorted}
use v_m_io.Sql.Tables.{
  EntryRow, Tables, Bound, included, excluded, unbounded, VmIoDbListFilter, all, key_prefix,
  modified_at_micros_range, VmIoDbListSort, key_asc, key_desc, modified_at_micros_asc,
  modified_at_micros_desc,
}
use v_m_io.Sql.Methods.{filter_test, sort_leb, start_test, end_test, list_rows}
use v_m_io.Sql.Glob.{IsGlob, glob-glob_prefix_pattern}
use v_m_io.Sql.Listing.{Matching, limit_count, list_rows-IsListing}

-- A range without a start begins at the epoch.
abbrev pub After : Bound → ℤ → Type 0
After unbounded m = pos 0 ≤ℤ m
After (included t) m = t ≤ℤ m
After (excluded t) m = t <ℤ m

abbrev pub Before : Bound → ℤ → Type 0
Before unbounded m = m ≤ℤ i64_max
Before (included t) m = m ≤ℤ t
Before (excluded t) m = m <ℤ t

abbrev pub Passes : VmIoDbListFilter → EntryRow → Type 0
Passes all e = Unit {0}
Passes (key_prefix prefix) e = starts_with prefix e.key ≡ true
Passes (modified_at_micros_range start end) e =
    After start e.modified_at_micros × Before end e.modified_at_micros

abbrev pub Wanted : Bytes → VmIoDbListFilter → EntryRow → Type 0
Wanted class filter e = (e.class ≡ class) × Passes filter e

-- Within a class, the first row may come before the second.
abbrev pub Precedes : VmIoDbListSort → EntryRow → EntryRow → Type 0
Precedes key_asc a b = lex_leb a.key b.key ≡ true
Precedes key_desc a b = lex_leb b.key a.key ≡ true
Precedes modified_at_micros_asc a b = a.modified_at_micros ≤ℤ b.modified_at_micros
Precedes modified_at_micros_desc a b = b.modified_at_micros ≤ℤ a.modified_at_micros

abbrev pub Ordered : VmIoDbListSort → List EntryRow → Type 0
Ordered order [] = Unit {0}
Ordered order (a ∷ rows) = All (Precedes order a) rows × Ordered order rows

-- The table is the rows, the wanted ones beyond the limit, and those that are not wanted.
pub record Lists (class : Bytes) (filter : VmIoDbListFilter) (order : VmIoDbListSort) (limit : ℤ)
    (t : Tables) (rows : List EntryRow) : Type 0 where
  pub beyond : List EntryRow
  pub others : List EntryRow
  pub table : Perm ((rows ++ beyond) ++ others) t.entries
  pub wanted : All (Wanted class filter) rows
  pub wanted_beyond : All (Wanted class filter) beyond
  pub unwanted : All (λ e. ¬ Wanted class filter e) others
  pub ordered : Ordered order rows
  pub first : All (λ a. All (Precedes order a) beyond) rows
  pub count : length rows ≡ limit_count limit (length rows + length beyond)

keep-split :
    (p : EntryRow → Bool) (xs : List EntryRow) → Perm (keep p xs ++ keep (λ x. not (p x)) xs) xs
keep-split p [] = Perm.refl _
keep-split p (x ∷ xs) = elim (Bool-cases (p x)) [
  | inl e ↦ rw e (Perm.cons x (keep-split p xs))
  | inr e ↦ rw e (
      Perm.trans (perm_middle (keep p xs) (keep (λ y. not (p y)) xs))
        (Perm.cons x (keep-split p xs)))
]

module _ (glob : Bytes → Bytes → Bool) (g : IsGlob glob) where
  start_test-After :
      (b : Bound) (m : ℤ)
      → (start_test b m ≡ true → After b m) × (After b m → start_test b m ≡ true)
  start_test-After unbounded m = (λ h. ground arith, λ h. ground arith)
  start_test-After (included t) m = (λ h. ground arith, λ h. ground arith)
  start_test-After (excluded t) m = (λ h. ground arith, λ h. ground arith)

  end_test-Before :
      (b : Bound) (m : ℤ) → (end_test b m ≡ true → Before b m) × (Before b m → end_test b m ≡ true)
  end_test-Before unbounded m = (λ h. ground arith, λ h. ground arith)
  end_test-Before (included t) m = (λ h. ground arith, λ h. ground arith)
  end_test-Before (excluded t) m = (λ h. ground arith, λ h. ground arith)

  filter_test→ :
      (filter : VmIoDbListFilter) (e : EntryRow)
      → filter_test glob filter e ≡ true
      → Passes filter e
  filter_test→ all e h = tt
  filter_test→ (key_prefix prefix) e h = sym (glob-glob_prefix_pattern glob g prefix e.key) ∙ h
  filter_test→ (modified_at_micros_range start end) e h = (
    (start_test-After start e.modified_at_micros).0 (ground arith),
    (end_test-Before end e.modified_at_micros).0 (ground arith),
  )

  →filter_test :
      (filter : VmIoDbListFilter) (e : EntryRow)
      → Passes filter e
      → filter_test glob filter e ≡ true
  →filter_test all e h = refl
  →filter_test (key_prefix prefix) e h = glob-glob_prefix_pattern glob g prefix e.key ∙ h
  →filter_test (modified_at_micros_range start end) e h =
      let s = (start_test-After start e.modified_at_micros).1 h.0 in
      rw s ((end_test-Before end e.modified_at_micros).1 h.1)

  module _ (class : Bytes) (filter : VmIoDbListFilter) (order : VmIoDbListSort) where
    abbrev test : EntryRow → Bool
    test e = is_yes (dec_bytes e.class class) && filter_test glob filter e

    -- Rows of one class are ordered as the statement orders them.
    sort_leb-Precedes :
        (a b : EntryRow) → a.class ≡ b.class → sort_leb order a b ≡ true → Precedes order a b
    sort_leb-Precedes a b same h =
        elim order as (λ o. sort_leb o a b ≡ true → Precedes o a b) [
          | key_asc ↦ λ k. rw (→is_yes (dec_bytes a.class b.class) same) at k
          | key_desc ↦ λ k. rw (→is_yes (dec_bytes b.class a.class) (sym same)) at k
          | modified_at_micros_asc ↦ λ k. ground arith
          | modified_at_micros_desc ↦ λ k. ground arith
        ]
          h

    all-Wanted :
        (rows : List EntryRow)
        → All (Matching glob class filter) rows
        → All (Wanted class filter) rows
    all-Wanted rows h = All-map _ _ rows (λ e m. (m.0, filter_test→ filter e m.1)) h

    all_precede :
        (a : EntryRow) (rows : List EntryRow)
        → a.class ≡ class
        → All (Matching glob class filter) rows
        → All (λ b. sort_leb order a b ≡ true) rows
        → All (Precedes order a) rows
    all_precede a rows ca ms h =
        All-map _ _ rows (λ b w. sort_leb-Precedes a b (ca ∙ sym w.0.0) w.1)
          (All-both _ _ rows ms h)

    sorted-Ordered :
        (rows : List EntryRow)
        → All (Matching glob class filter) rows
        → IsSorted (sort_leb order) rows
        → Ordered order rows
    sorted-Ordered [] ms h = tt
    sorted-Ordered (a ∷ rows) ms h =
        (all_precede a rows ms.0.0 ms.1 h.0, sorted-Ordered rows ms.1 h.1)

    not-Wanted : (e : EntryRow) → not (test e) ≡ true → ¬ Wanted class filter e
    not-Wanted e h w =
        let same = →is_yes (dec_bytes e.class class) w.0 in
        let passes = →filter_test filter e w.1 in ground arith

    -- For a GLOB operator with the documented rules: the rows of a listing are of the class and
    -- pass the filter (any; keys with the prefix; modification times between the bounds, where a
    -- range without a start begins at the epoch), stand in the order asked for (keys or
    -- modification times, up or down), are as many as the limit admits or all for a negative
    -- limit, and come before the rows beyond the limit; the table is made up of these, of those
    -- beyond, which pass too, and of rows that do not.
    pub list_rows-Lists :
        (limit : ℤ) (t : Tables)
        → Lists class filter order limit t (list_rows glob class filter order limit t)
    list_rows-Lists limit t =
        let rows = list_rows glob class filter order limit t in
        let (rest, l, count) = list_rows-IsListing glob class filter order t limit in
        let dropped = keep (λ e. not (test e)) t.entries in
        record {
          beyond = rest;
          others = dropped;
          table = Perm.trans (Perm.append_right dropped l.complete) (keep-split test t.entries);
          wanted = all-Wanted rows l.matching;
          wanted_beyond = all-Wanted rest l.rest_matching;
          unwanted = All-keep_self _ _ t.entries not-Wanted;
          ordered = sorted-Ordered rows l.matching l.sorted;
          first =
              All-map _ _ rows (λ a w. all_precede a rest w.0.0 l.rest_matching w.1)
                (All-both _ _ rows l.matching l.first);
          count = count ∙ ap (limit_count limit) (sym l.whole);
        }
