-- ===== src/Sql/Converge.antt =====
-- Two writes of one key by upsert.sql, in either order.
use v_m_io.Common.{
  ℕ, ◌≡◌, ◌≢◌, ◌+◌, refl, sym, ap, ◌∙◌, subst, true, false, Option, none, some, List, arith,
  →is_yes, if◌then◌else◌, Bool-cases, inl, inr, ◌⊎◌,
}
use v_m_io.Common.Bytes.{Bytes, dec_pair}
use v_m_io.Common.Int.{ℤ, ltbℤ, eq_of_parts, pos_part, neg_part}
use v_m_io.Sql.Tables.{EntryRow, entry_pair, same_pair}
use v_m_io.Sql.Statements.{find_entry, upsert_entry}
use v_m_io.Sql.Newest.{newest, find-upsert_entry}

-- Different times are ordered.
apart :
    (x y : ℤ)
    → x ≢ y
    → (ltbℤ x y ≡ true) × (ltbℤ y x ≡ false) ⊎ (ltbℤ x y ≡ false) × (ltbℤ y x ≡ true)
apart x y d =
    let d' : pos_part x + neg_part y ≢ pos_part y + neg_part x = λ h. d (eq_of_parts x y h) in
    ground arith

between : (x y z : ℤ) → ltbℤ x y ≡ true → ltbℤ x z ≡ false → ltbℤ y z ≢ true
between x y z s t h = ground arith

newest_ordered :
    (o a b : EntryRow)
    → ltbℤ a.modified_at_micros b.modified_at_micros ≡ true
    → ltbℤ b.modified_at_micros a.modified_at_micros ≡ false
    → newest (some (newest (some o) a)) b ≡ newest (some (newest (some o) b)) a
newest_ordered o a b h k = elim (Bool-cases (ltbℤ o.modified_at_micros a.modified_at_micros)) [
  | inl s ↦ elim (Bool-cases (ltbℤ o.modified_at_micros b.modified_at_micros)) [
    | inl t ↦ rw (s, t, h, k)
    | inr t ↦
        absurd (between (o.modified_at_micros) a.modified_at_micros b.modified_at_micros s t h)
  ]
  | inr s ↦ elim (Bool-cases (ltbℤ o.modified_at_micros b.modified_at_micros)) [
    | inl t ↦ rw (s, t, k)
    | inr t ↦ rw (s, t, s)
  ]
]

newest_comm :
    (o : Option EntryRow) (a b : EntryRow)
    → a.modified_at_micros ≢ b.modified_at_micros
    → newest (some (newest o a)) b ≡ newest (some (newest o b)) a
newest_comm none a b d = elim (apart a.modified_at_micros b.modified_at_micros d) [
  | inl h ↦ rw (h.0, h.1)
  | inr h ↦ rw (h.0, h.1)
]
newest_comm (some o) a b d = elim (apart a.modified_at_micros b.modified_at_micros d) [
  | inl h ↦ newest_ordered o a b h.0 h.1
  | inr h ↦ sym (newest_ordered o b a h.1 h.0)
]

same_pair_refl : (p : Bytes × Bytes) → same_pair p p ≡ true
same_pair_refl p = →is_yes (dec_pair p p) refl

-- What a reader sees after two writes of one key.
seen_twice :
    (p : Bytes × Bytes) (a b : EntryRow) (old a1 a2 : List EntryRow) (n1 n2 : ℕ)
    → entry_pair a ≡ entry_pair b
    → upsert_entry a old ≡ some (n1, a1)
    → upsert_entry b a1 ≡ some (n2, a2)
    → find_entry p a2 ≡ (
        if same_pair p (entry_pair a)
        then some (newest (some (newest (find_entry (entry_pair a) old) a)) b)
        else find_entry p old)
seen_twice p a b old a1 a2 n1 n2 e ha hb =
    let first = find-upsert_entry a old n1 a1 ha in
    let own : find_entry (entry_pair b) a1 ≡ some (newest (find_entry (entry_pair a) old) a) =
      ap (λ q. find_entry q a1) (sym e)
      ∙ first (entry_pair a)
      ∙ rw (same_pair_refl (entry_pair a)) in
    find-upsert_entry b a1 n2 a2 hb p ∙ elim (Bool-cases (same_pair p (entry_pair a))) [
      | inl s ↦
          let t : same_pair p (entry_pair b) ≡ true = subst (λ q. same_pair p q ≡ true) e s in
          rw (s, t, own)
      | inr s ↦
          let t : same_pair p (entry_pair b) ≡ false = subst (λ q. same_pair p q ≡ false) e s in
          rw (t, first p, s)
    ]

-- Two writes of one key with different times leave in the table of entries, in either order, the
-- same version for every reader, if none of the writes violates a constraint.
pub upserts_converge :
    (a b : EntryRow) (old : List EntryRow)
    → entry_pair a ≡ entry_pair b
    → a.modified_at_micros ≢ b.modified_at_micros
    → (n1 n2 m1 m2 : ℕ) (a1 a2 b1 b2 : List EntryRow) → upsert_entry a old ≡ some (n1, a1)
    → upsert_entry b a1 ≡ some (n2, a2)
    → upsert_entry b old ≡ some (m1, b1)
    → upsert_entry a b1 ≡ some (m2, b2)
    → (p : Bytes × Bytes) → find_entry p a2 ≡ find_entry p b2
upserts_converge a b old e d n1 n2 m1 m2 a1 a2 b1 b2 ha hb hb' ha' p =
    let left = seen_twice p a b old a1 a2 n1 n2 e ha hb in
    let right = seen_twice p b a old b1 b2 m1 m2 (sym e) hb' ha' in
    elim (Bool-cases (same_pair p (entry_pair a))) [
      | inl s ↦
          let t : same_pair p (entry_pair b) ≡ true = subst (λ q. same_pair p q ≡ true) e s in
          let o : find_entry (entry_pair a) old ≡ find_entry (entry_pair b) old =
            ap (λ q. find_entry q old) e in
          let c = newest_comm (find_entry (entry_pair a) old) a b d in
          rw (left, right, s, t, sym o) (ap some c)
      | inr s ↦
          let t : same_pair p (entry_pair b) ≡ false = subst (λ q. same_pair p q ≡ false) e s in
          rw (left, right, s, t)
    ]
