-- ===== src/Sql/Newest.antt =====
-- upsert.sql as the reads of get_entry.sql see it.
use v_m_io.Common.{
  ℕ, ◌≡◌, refl, sym, ap, ◌∙◌, subst, true, false, Option, none, some, List, [], ◌∷◌, ◌++◌, map,
  arith, is_yes→, is_no→, →is_yes, if◌then◌else◌, Bool-cases, inl, inr,
}
use v_m_io.Common.Bytes.{Bytes, dec_pair}
use v_m_io.Common.Int.{ltbℤ}
use v_m_io.Sql.Tables.{EntryRow, entry_pair, same_pair}
use v_m_io.Sql.Statements.{find_entry, replace_entry, upsert_entry}
use v_m_io.Sql.Outcomes.{upsert_entry-Outcome, replace_entry-pair}

-- Which of two versions a reader sees.
abbrev pub newest : Option EntryRow → EntryRow → EntryRow
newest none row = row
newest (some old) row = if ltbℤ old.modified_at_micros row.modified_at_micros then row else old

abbrev pub or_row : Option EntryRow → Option EntryRow → Option EntryRow
or_row none o = o
or_row (some e) o = some e

find-append :
    (p : Bytes × Bytes) (es : List EntryRow) (row : EntryRow)
    → find_entry p (es ++ (row ∷ []))
      ≡ or_row (find_entry p es) (if same_pair p (entry_pair row) then some row else none)
find-append p [] row = refl
find-append p (e ∷ es) row = ground (arith, find-append p es row)

or_none : (o : Option EntryRow) → or_row o none ≡ o
or_none none = refl
or_none (some e) = refl

abbrev replaced : EntryRow → Option EntryRow → Option EntryRow
replaced row none = none
replaced row (some e) = some row

same_pair_sym : (p q : Bytes × Bytes) → same_pair p q ≡ true → same_pair q p ≡ true
same_pair_sym p q h = →is_yes (dec_pair q p) (sym (is_yes→ (dec_pair p q) h))

-- The row that stands at the place of `e`, which has the key `p`.
replaced_here :
    (p : Bytes × Bytes) (e row : EntryRow)
    → same_pair p (entry_pair e) ≡ true
    → some (replace_entry row e) ≡ (if same_pair p (entry_pair row) then some row else some e)
replaced_here p e row s =
    let eq = is_yes→ (dec_pair p (entry_pair e)) s in
    elim (Bool-cases (same_pair p (entry_pair row))) [
      | inl r ↦
          let k : same_pair (entry_pair row) (entry_pair e) ≡ true =
            subst (λ q. same_pair (entry_pair row) q ≡ true) eq
              (same_pair_sym p (entry_pair row) r) in
          rw (r, k)
      | inr r ↦ elim (Bool-cases (same_pair (entry_pair row) (entry_pair e))) [
        | inl k ↦ absurd (
            is_no→ (dec_pair p (entry_pair row)) r
              (eq ∙ sym (is_yes→ (dec_pair (entry_pair row) (entry_pair e)) k)))
        | inr k ↦ rw (r, k)
      ]
    ]

find-here :
    (p : Bytes × Bytes) (e : EntryRow) (es : List EntryRow)
    → same_pair p (entry_pair e) ≡ true
    → find_entry p (e ∷ es) ≡ some e
find-here p e es s = rw s

find-there :
    (p : Bytes × Bytes) (e : EntryRow) (es : List EntryRow)
    → same_pair p (entry_pair e) ≡ false
    → find_entry p (e ∷ es) ≡ find_entry p es
find-there p e es s = rw s

find-replace :
    (p : Bytes × Bytes) (es : List EntryRow) (row : EntryRow)
    → find_entry p (map (replace_entry row) es)
      ≡ (if same_pair p (entry_pair row) then replaced row (find_entry p es) else find_entry p es)
find-replace p [] row = ground arith
find-replace p (e ∷ es) row =
    let same = replace_entry-pair row e in
    elim (Bool-cases (same_pair p (entry_pair e))) [
      | inl s ↦
          let s' : same_pair p (entry_pair (replace_entry row e)) ≡ true = rw same s in
          find-here p (replace_entry row e) (map (replace_entry row) es) s'
          ∙ replaced_here p e row s
          ∙ ap (λ o. if same_pair p (entry_pair row) then replaced row o else o)
              (sym (find-here p e es s))
      | inr s ↦
          let s' : same_pair p (entry_pair (replace_entry row e)) ≡ false = rw same s in
          find-there p (replace_entry row e) (map (replace_entry row) es) s'
          ∙ find-replace p es row
          ∙ ap (λ o. if same_pair p (entry_pair row) then replaced row o else o)
              (sym (find-there p e es s))
    ]

-- A read of `p` after the row was written over what a read of its own key gave.
abbrev pub seen : Bytes × Bytes → EntryRow → List EntryRow → Option EntryRow
seen p row old =
    if same_pair p (entry_pair row)
    then some (newest (find_entry (entry_pair row) old) row)
    else find_entry p old

module _ (p : Bytes × Bytes) (row : EntryRow) (old : List EntryRow) where
  seen-inserted :
      find_entry (entry_pair row) old ≡ none → find_entry p (old ++ (row ∷ [])) ≡ seen p row old
  seen-inserted absent = elim (Bool-cases (same_pair p (entry_pair row))) [
    | inl s ↦
        let eq = is_yes→ (dec_pair p (entry_pair row)) s in
        let none_here : find_entry p old ≡ none = ap (λ q. find_entry q old) eq ∙ absent in
        find-append p old row ∙ rw (none_here, absent, s)
    | inr s ↦ find-append p old row ∙ rw s (or_none (find_entry p old))
  ]

  seen-updated :
      (before : EntryRow)
      → find_entry (entry_pair row) old ≡ some before
      → ltbℤ before.modified_at_micros row.modified_at_micros ≡ true
      → find_entry p (map (replace_entry row) old) ≡ seen p row old
  seen-updated before present newer = elim (Bool-cases (same_pair p (entry_pair row))) [
    | inl s ↦
        let eq = is_yes→ (dec_pair p (entry_pair row)) s in
        let here : find_entry p old ≡ some before = ap (λ q. find_entry q old) eq ∙ present in
        find-replace p old row ∙ rw (here, present, s, newer)
    | inr s ↦ find-replace p old row ∙ rw s
  ]

  seen-superseded :
      (before : EntryRow)
      → find_entry (entry_pair row) old ≡ some before
      → ltbℤ before.modified_at_micros row.modified_at_micros ≡ false
      → find_entry p old ≡ seen p row old
  seen-superseded before present newer = elim (Bool-cases (same_pair p (entry_pair row))) [
    | inl s ↦
        let eq = is_yes→ (dec_pair p (entry_pair row)) s in
        let here : find_entry p old ≡ some before = ap (λ q. find_entry q old) eq ∙ present in
        rw (here, present, s, newer)
    | inr s ↦ rw s
  ]

-- A read after an upsert that violates no constraint gives under the row's key the newer of the
-- row and what was there, and under any other key what was there.
pub find-upsert_entry :
    (row : EntryRow) (old : List EntryRow) (n : ℕ) (new : List EntryRow)
    → upsert_entry row old ≡ some (n, new)
    → (p : Bytes × Bytes) → find_entry p new ≡ seen p row old
find-upsert_entry row old n new h p = elim (upsert_entry-Outcome row old n new h) [
  | inl o ↦ rw o.result (seen-inserted p row old o.absent)
  | inr (inl o) ↦ rw o.result (seen-updated p row old o.before o.present o.newer)
  | inr (inr o) ↦ rw o.result (seen-superseded p row old o.before o.present o.not_newer)
]
