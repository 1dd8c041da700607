-- ===== src/Sql/Listing.antt =====
-- What `Sql::list` of rs/v-m-io-db/src/sql.rs lists.
pub mod Selected
use mathlib.Core.List.{Perm, append-nil}
use v_m_io.Common.{
  ℕ, ◌≡◌, sym, ap, ◌∙◌, subst, Bool, true, false, ◌&&◌, List, [], ◌∷◌, ◌++◌, arith, min, length,
  length-take, take, drop, keep, All, All-take, All-drop, length-append, ◌+◌, All-keep_self,
  take-append-drop, is_yes, is_yes→,
}
use v_m_io.Common.Bytes.{Bytes, dec_bytes, lex_leb_total, lex_leb_trans, lex_leb_antisymm}
use v_m_io.Common.Int.{ℤ, pos, negsuc, lebℤ}
use v_m_io.Common.Sort.{
  sort, IsSorted, sort-IsSorted, sort-perm, All-sort, length-sort, take-IsSorted,
}
use v_m_io.Sql.Tables.{
  EntryRow, Tables, VmIoDbListFilter, VmIoDbListSort, key_asc, key_desc, modified_at_micros_asc,
  modified_at_micros_desc, entry_pair,
}
use v_m_io.Sql.Statements.{pair_leb}
use v_m_io.Sql.Methods.{filter_test, sort_leb, list_rows}

pub pair_leb_total : (p q : Bytes × Bytes) → pair_leb p q ≡ false → pair_leb q p ≡ true
pair_leb_total (a, b) (c, d) h = ground (arith, lex_leb_total a c, lex_leb_total b d)

pub pair_leb_trans :
    (p q r : Bytes × Bytes) → pair_leb p q ≡ true → pair_leb q r ≡ true → pair_leb p r ≡ true
pair_leb_trans (a, b) (c, d) (e, f) h k =
    ground (arith, lex_leb_trans b d f, lex_leb_trans a c e, lex_leb_antisymm a c)

pub lebℤ_total : (a b : ℤ) → lebℤ a b ≡ false → lebℤ b a ≡ true
lebℤ_total a b h = ground arith

pub lebℤ_trans : (a b c : ℤ) → lebℤ a b ≡ true → lebℤ b c ≡ true → lebℤ a c ≡ true
lebℤ_trans a b c h k = ground arith

pub sort_leb_total :
    (order : VmIoDbListSort) (a b : EntryRow)
    → sort_leb order a b ≡ false
    → sort_leb order b a ≡ true
sort_leb_total key_asc a b = pair_leb_total (entry_pair a) (entry_pair b)
sort_leb_total key_desc a b = pair_leb_total (entry_pair b) (entry_pair a)
sort_leb_total modified_at_micros_asc a b = lebℤ_total a.modified_at_micros b.modified_at_micros
sort_leb_total modified_at_micros_desc a b = lebℤ_total b.modified_at_micros a.modified_at_micros

pub sort_leb_trans :
    (order : VmIoDbListSort) (a b c : EntryRow)
    → sort_leb order a b ≡ true
    → sort_leb order b c ≡ true
    → sort_leb order a c ≡ true
sort_leb_trans key_asc a b c h k = pair_leb_trans (entry_pair a) (entry_pair b) (entry_pair c) h k
sort_leb_trans key_desc a b c h k = pair_leb_trans (entry_pair c) (entry_pair b) (entry_pair a) k h
sort_leb_trans modified_at_micros_asc a b c h k =
    lebℤ_trans a.modified_at_micros b.modified_at_micros c.modified_at_micros h k
sort_leb_trans modified_at_micros_desc a b c h k =
    lebℤ_trans c.modified_at_micros b.modified_at_micros a.modified_at_micros k h

-- The rows of the class that pass the filter.
abbrev pub matches : (Bytes → Bytes → Bool) → Bytes → VmIoDbListFilter → Tables → List EntryRow
matches glob class filter t =
    keep (λ (e : EntryRow). is_yes (dec_bytes e.class class) && filter_test glob filter e) t.entries

abbrev pub Matching : (Bytes → Bytes → Bool) → Bytes → VmIoDbListFilter → EntryRow → Type 0
Matching glob class filter e = (e.class ≡ class) × (filter_test glob filter e ≡ true)

abbrev pub limit_count : ℤ → ℕ → ℕ
limit_count (pos n) m = min n m
limit_count (negsuc n) m = m

All-trivial :
    (P : EntryRow → EntryRow → Type 0) (rows : List EntryRow) → All (λ r. All (P r) []) rows
All-trivial P [] = tt
All-trivial P (r ∷ rows) = (tt, All-trivial P rows)

-- A listing is right if it is sorted, holds matching rows of the class only, and together with some
-- rest makes up all of those; no row of the rest comes before a listed one.
pub record IsListing (glob : Bytes → Bytes → Bool) (class : Bytes) (filter : VmIoDbListFilter)
    (order : VmIoDbListSort) (t : Tables) (rows rest : List EntryRow) : Type 0 where
  pub sorted : IsSorted (sort_leb order) rows
  pub matching : All (Matching glob class filter) rows
  pub complete : Perm (rows ++ rest) (matches glob class filter t)
  pub first : All (λ r. All (λ o. sort_leb order r o ≡ true) rest) rows
  pub rest_matching : All (Matching glob class filter) rest
  pub whole : length rows + length rest ≡ length (matches glob class filter t)

module _ (glob : Bytes → Bytes → Bool) (class : Bytes) (filter : VmIoDbListFilter)
    (order : VmIoDbListSort) (t : Tables) where
  matches_test :
      (e : EntryRow)
      → (is_yes (dec_bytes e.class class) && filter_test glob filter e) ≡ true
      → Matching glob class filter e
  matches_test e h = (is_yes→ (dec_bytes e.class class) (ground arith), ground arith)

  sorted_matches : List EntryRow
  sorted_matches = sort (sort_leb order) (matches glob class filter t)

  sorted-Matching : All (Matching glob class filter) sorted_matches
  unfolding sorted_matches
  sorted-Matching =
      All-sort (sort_leb order) _ (matches glob class filter t)
        (All-keep_self _ _ t.entries (λ e h. matches_test e h))

  taken-IsListing :
      (n : ℕ) → IsListing glob class filter order t (take n sorted_matches) (drop n sorted_matches)
  unfolding sorted_matches
  taken-IsListing n =
      let all_sorted =
        sort-IsSorted (sort_leb order) (sort_leb_total order) (sort_leb_trans order)
          (matches glob class filter t) in
      let (sorted, first) = take-IsSorted (sort_leb order) n sorted_matches all_sorted in
      record {
        sorted = sorted;
        matching = All-take _ n sorted_matches (
            All-sort (sort_leb order) _ (matches glob class filter t)
              (All-keep_self _ _ t.entries (λ e h. matches_test e h)));
        complete =
            subst (λ l. Perm l (matches glob class filter t))
              (sym (take-append-drop n sorted_matches))
              (sort-perm (sort_leb order) (matches glob class filter t));
        first = first;
        rest_matching = All-drop _ n sorted_matches sorted-Matching;
        whole =
            sym (length-append (take n sorted_matches) (drop n sorted_matches))
            ∙ ap length (take-append-drop n sorted_matches)
            ∙ length-sort (sort_leb order) (matches glob class filter t);
      }

  all_listed : IsListing glob class filter order t sorted_matches []
  unfolding sorted_matches
  all_listed = record {
    sorted =
        sort-IsSorted (sort_leb order) (sort_leb_total order) (sort_leb_trans order)
          (matches glob class filter t);
    matching = sorted-Matching;
    complete =
        subst (λ l. Perm l (matches glob class filter t)) (sym (append-nil sorted_matches))
          (sort-perm (sort_leb order) (matches glob class filter t));
    first = All-trivial (λ r o. sort_leb order r o ≡ true) sorted_matches;
    rest_matching = tt;
    whole = omega (arith, length-sort (sort_leb order) (matches glob class filter t));
  }

  -- list_rows gives the first matches in the order that was asked, as many as the limit admits,
  -- and all of them for a negative limit.
  pub list_rows-IsListing :
      (limit : ℤ)
      → (rest : List EntryRow) × IsListing glob class filter order t
          (list_rows glob class filter order limit t)
          rest
        × (length (list_rows glob class filter order limit t)
            ≡ limit_count limit (length (matches glob class filter t)))
  unfolding list_rows sorted_matches
  list_rows-IsListing (pos n) = (
    drop n sorted_matches,
    taken-IsListing n,
    length-take n sorted_matches
        ∙ ap (min n) (length-sort (sort_leb order) (matches glob class filter t)),
  )
  list_rows-IsListing (negsuc n) =
      ([], all_listed, length-sort (sort_leb order) (matches glob class filter t))
