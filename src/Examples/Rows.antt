-- ===== src/Examples/Rows.antt =====
-- The theorems on the tables, at concrete rows.
use v_m_io.Common.{◌≡◌, ◌≢◌, refl, none, some, [], ◌∷◌}
use v_m_io.Common.Bytes.{Bytes, ascii, starts_with, dec_pair}
use v_m_io.Common.Int.{ℤ, pos, negsuc}
use native.Mathlib.Decide.{ℕ_discrete}
use v_m_io.Sql.Tables.{EntryRow, ChunkRow, Tables, IsWellFormed, key_prefix, key_desc, entry_pair}
use v_m_io.Sql.Statements.{find_entry, upsert_entry}
use v_m_io.Sql.Methods.{
  working, upsert, upsert_chunk, rm, prune_expired, glob_prefix_pattern, list_rows,
}
use v_m_io.Sql.WellFormed.{methods-IsWellFormed}
use v_m_io.Sql.Glob.{glob-glob_prefix_pattern}
use v_m_io.Sql.Listing.Selected.{Lists, list_rows-Lists}
use v_m_io.Sql.Converge.{upserts_converge}
use v_m_io.Sql.Newest.{seen, find-upsert_entry}
use v_m_io.Examples.Crates.{toy_glob, toy_glob-IsGlob}

abbrev old_cat : EntryRow
old_cat = record {
  class = ascii "img";
  key = ascii "cat";
  modified_at_micros = negsuc 2;
  expires_at_micros = none;
  metadata = none;
}

abbrev new_cat : EntryRow
new_cat = record old_cat { modified_at_micros = pos 4 }

abbrev dog : EntryRow
dog = record old_cat { key = ascii "dog"; modified_at_micros = pos 9 }

abbrev kennel : Tables
kennel = record { entries = dog ∷ []; chunks = [] }

kennel-IsWellFormed : IsWellFormed kennel
kennel-IsWellFormed = record {
  entries_key = (tt, tt);
  modified_unique = (tt, tt);
  chunks_key = tt;
  parents = tt;
}

methods-IsWellFormed_example :
    ((row : EntryRow) → IsWellFormed (upsert working row kennel).1)
    × ((row : ChunkRow) → IsWellFormed (upsert_chunk working row kennel).1)
    × ((p : Bytes × Bytes) → IsWellFormed (rm working p kennel).1)
    × ((now limit : ℤ) → IsWellFormed (prune_expired working now limit kennel).1)
methods-IsWellFormed_example = methods-IsWellFormed working kennel kennel-IsWellFormed

glob-glob_prefix_pattern_example :
    toy_glob (glob_prefix_pattern (ascii "a*[?")) (ascii "a*[?x")
    ≡ starts_with (ascii "a*[?") (ascii "a*[?x")
glob-glob_prefix_pattern_example =
    glob-glob_prefix_pattern toy_glob toy_glob-IsGlob (ascii "a*[?") (ascii "a*[?x")

list_rows-Lists_example :
    Lists
      (ascii "img")
      (key_prefix (ascii "d"))
      key_desc
      (pos 1)
      kennel
      (list_rows toy_glob (ascii "img") (key_prefix (ascii "d")) key_desc (pos 1) kennel)
list_rows-Lists_example =
    list_rows-Lists toy_glob toy_glob-IsGlob (ascii "img") (key_prefix (ascii "d")) key_desc (pos 1)
      kennel

wrote_old : upsert_entry old_cat (dog ∷ []) ≡ some (1, dog ∷ old_cat ∷ [])
unfolding upsert_entry dec_pair ℕ_discrete
wrote_old = refl

wrote_new_on_old : upsert_entry new_cat (dog ∷ old_cat ∷ []) ≡ some (1, dog ∷ new_cat ∷ [])
unfolding upsert_entry dec_pair ℕ_discrete
wrote_new_on_old = refl

wrote_new : upsert_entry new_cat (dog ∷ []) ≡ some (1, dog ∷ new_cat ∷ [])
unfolding upsert_entry dec_pair ℕ_discrete
wrote_new = refl

wrote_old_on_new : upsert_entry old_cat (dog ∷ new_cat ∷ []) ≡ some (0, dog ∷ new_cat ∷ [])
unfolding upsert_entry dec_pair ℕ_discrete
wrote_old_on_new = refl

find-upsert_entry_example :
    find_entry (entry_pair new_cat) (dog ∷ new_cat ∷ [])
    ≡ seen (entry_pair new_cat) new_cat (dog ∷ old_cat ∷ [])
find-upsert_entry_example =
    find-upsert_entry new_cat (dog ∷ old_cat ∷ []) 1 (dog ∷ new_cat ∷ []) wrote_new_on_old
      (entry_pair new_cat)

apart_times : old_cat.modified_at_micros ≢ new_cat.modified_at_micros
apart_times h = cc

upserts_converge_example :
    find_entry (entry_pair dog) (dog ∷ new_cat ∷ [])
    ≡ find_entry (entry_pair dog) (dog ∷ new_cat ∷ [])
upserts_converge_example =
    upserts_converge old_cat new_cat (dog ∷ []) refl apart_times 1 1 1 0 (dog ∷ old_cat ∷ [])
      (dog ∷ new_cat ∷ []) (dog ∷ new_cat ∷ []) (dog ∷ new_cat ∷ []) wrote_old wrote_new_on_old
      wrote_new wrote_old_on_new (entry_pair dog)
