-- ===== src/Sql/Pruning.antt =====
-- What `Sql::prune_expired` of rs/v-m-io-db/src/sql.rs removes, and how much of it.
use mathlib.Core.List.{append-nil}
use v_m_io.Common.{
  ℕ, ◌+◌, ◌≡◌, ◌≢◌, refl, sym, ap, ap₂, ◌∙◌, subst, Bool, true, false, not, List, [], ◌∷◌, ◌++◌,
  arith, min, length, length-take, take, drop, keep, keep-append, keep_none, All, All-any_self,
  All-keep_map, All-map, All-both, All-take, take-append-drop, is_yes→, →is_yes, Bool-cases, inl,
  inr,
}
use v_m_io.Common.Bytes.{Bytes, dec_pair}
use v_m_io.Common.Int.{ℤ, pos}
use v_m_io.Common.Unique.{Unique, Unique-keep}
use v_m_io.Common.Sort.{sort, insert, All-sort, length-sort, length-keep-sort}
use v_m_io.Sql.Tables.{EntryRow, Tables, IsWellFormed, entry_pair, same_pair}
use v_m_io.Sql.Statements.{expired, expiry_leb, expired_batch, in_batch, delete_entries}

-- Every entry stays or goes.
length-keep-not :
    {A : Type 0} (p : A → Bool) (xs : List A)
    → length (keep p xs) + length (keep (λ x. not (p x)) xs) ≡ length xs
length-keep-not p [] = omega arith
length-keep-not p (x ∷ xs) = ground (arith, length-keep-not p xs)

pub delete_entries-length :
    (p : Bytes × Bytes → Bool) (t : Tables)
    → (delete_entries p t).0 + length (delete_entries p t).1.entries ≡ length t.entries
unfolding delete_entries
delete_entries-length p t = length-keep-not (λ e. p (entry_pair e)) t.entries

-- Entries under keys other than `k`.
abbrev Apart : EntryRow → List EntryRow → Type 0
Apart e es = All (λ y. entry_pair e ≢ entry_pair y) es

insert-Apart :
    (e x : EntryRow) (ys : List EntryRow)
    → entry_pair e ≢ entry_pair x
    → Apart e ys
    → Apart e (insert expiry_leb x ys)
insert-Apart e x [] h k = (h, tt)
insert-Apart e x (y ∷ ys) h k = elim (Bool-cases (expiry_leb x y)) [
  | inl b ↦ rw b (h, k)
  | inr b ↦ rw b (k.0, insert-Apart e x ys h k.1)
]

insert-Unique :
    (x : EntryRow) (ys : List EntryRow)
    → Apart x ys
    → Unique entry_pair ys
    → Unique entry_pair (insert expiry_leb x ys)
insert-Unique x [] h u = (tt, tt)
insert-Unique x (y ∷ ys) h u = elim (Bool-cases (expiry_leb x y)) [
  | inl b ↦ rw b (h, u)
  | inr b ↦ rw b (insert-Apart y x ys (λ e. h.0 (sym e)) u.0, insert-Unique x ys h.1 u.1)
]

sort-Unique : (xs : List EntryRow) → Unique entry_pair xs → Unique entry_pair (sort expiry_leb xs)
unfolding sort
sort-Unique [] u = tt
sort-Unique (x ∷ xs) u =
    insert-Unique x (sort expiry_leb xs) (All-sort expiry_leb _ xs u.0) (sort-Unique xs u.1)

-- Of a list without repeated keys, the entries under the keys of its beginning are just those.
any-Apart : (e : EntryRow) (es : List EntryRow) → Apart e es → in_batch es (entry_pair e) ≡ false
any-Apart e [] h = refl
any-Apart e (y ∷ es) h =
    ground (arith, any-Apart e es h.1, is_yes→ (dec_pair (entry_pair e) (entry_pair y)))

keep-All : (p : EntryRow → Bool) (xs : List EntryRow) → All (λ x. p x ≡ true) xs → keep p xs ≡ xs
keep-All p [] h = refl
keep-All p (x ∷ xs) h = rw (h.0, keep-All p xs h.1)

All-append_right : (P : EntryRow → Type 0) (xs ys : List EntryRow) → All P (xs ++ ys) → All P ys
All-append_right P [] ys h = h
All-append_right P (x ∷ xs) ys h = All-append_right P xs ys h.1

rest-apart :
    (es rest : List EntryRow)
    → Unique entry_pair (es ++ rest)
    → All (λ y. in_batch es (entry_pair y) ≡ false) rest
rest-apart [] [] u = tt
rest-apart [] (y ∷ rest) u = (refl, rest-apart [] rest u.1)
rest-apart (e ∷ es) rest u =
    All-map _ _ rest
      (λ y h. ground (
        arith,
        h.1,
        λ (p : same_pair (entry_pair y) (entry_pair e) ≡ true).
            h.0 (sym (is_yes→ (dec_pair (entry_pair y) (entry_pair e)) p)),
      ))
      (All-both _ _ rest (All-append_right _ es rest u.0) (rest-apart es rest u.1))

keep-batch :
    (es rest : List EntryRow)
    → Unique entry_pair (es ++ rest)
    → keep (λ e. in_batch es (entry_pair e)) (es ++ rest) ≡ es
keep-batch es rest u =
    keep-append _ es rest
    ∙ ap₂ (λ a b. a ++ b)
        (keep-All _ es (
          All-any_self (λ (a b : EntryRow). same_pair (entry_pair a) (entry_pair b))
            (λ a. →is_yes (dec_pair (entry_pair a) (entry_pair a)) refl) es))
        (keep_none _ rest (rest-apart es rest u))
    ∙ append-nil es

-- An entry that has not expired is under another key than the expired ones.
live-Apart :
    (p : EntryRow → Bool) (xs : List EntryRow)
    → Unique entry_pair xs
    → All (λ e. p e ≡ false → Apart e (keep p xs)) xs
live-Apart p [] u = tt
live-Apart p (x ∷ xs) u = elim (Bool-cases (p x)) [
  | inl b ↦ rw b (
    (λ h. absurd (ground arith)),
    All-map _ _ xs
        (λ e h live. let both : Apart e (x ∷ keep p xs) = (λ q. h.0 (sym q), h.1 live) in rw b both)
        (All-both _ _ xs u.0 (live-Apart p xs u.1)),
  )
  | inr b ↦ rw b (
    (λ h. All-keep_map _ _ p xs (λ y _ q. q) u.0),
    All-map _ _ xs (λ e h live. rw b (h live)) (live-Apart p xs u.1),
  )
]

module _ (p q : EntryRow → Bool) where
  keep-keep :
      (xs : List EntryRow)
      → All (λ e. p e ≡ false → q e ≡ false) xs
      → length (keep q (keep p xs)) ≡ length (keep q xs)
  keep-keep [] h = refl
  keep-keep (x ∷ xs) h = ground (arith, h.0, keep-keep xs h.1)

  keep-split :
      (xs : List EntryRow)
      → length (keep p (keep (λ x. not (q x)) xs)) + length (keep q (keep p xs))
        ≡ length (keep p xs)
  keep-split [] = omega arith
  keep-split (x ∷ xs) = ground (arith, keep-split xs)

  keep-live :
      (xs : List EntryRow)
      → All (λ e. p e ≡ false → q e ≡ false) xs
      → keep (λ x. not (p x)) (keep (λ x. not (q x)) xs) ≡ keep (λ x. not (p x)) xs
  keep-live [] h = refl
  keep-live (x ∷ xs) h = ground (arith, h.0, keep-live xs h.1)

-- The expired entries, and the others.
abbrev pub expired_of : ℤ → Tables → List EntryRow
expired_of now t = keep (expired now) t.entries

abbrev pub live_of : ℤ → Tables → List EntryRow
live_of now t = keep (λ e. not (expired now e)) t.entries

module _ (now : ℤ) (n : ℕ) (t : Tables) (w : IsWellFormed t) where
  in_it : EntryRow → Bool
  in_it e = in_batch (expired_batch now (pos n) t) (entry_pair e)

  live-out : All (λ e. expired now e ≡ false → in_it e ≡ false) t.entries
  unfolding in_it expired_batch
  live-out =
      All-map _ _ t.entries
        (λ e h live.
          any-Apart e _ (All-take _ n _ (All-sort expiry_leb _ (expired_of now t) (h live))))
        (live-Apart (expired now) t.entries w.entries_key)

  -- Of the expired entries the batch takes as many as its limit admits.
  batch-length : length (keep in_it (expired_of now t)) ≡ min n (length (expired_of now t))
  unfolding in_it expired_batch
  batch-length =
      let all = sort expiry_leb (expired_of now t) in
      let unique =
        sort-Unique (expired_of now t) (Unique-keep entry_pair _ t.entries w.entries_key) in
      let halves = take-append-drop n all in
      sym (length-keep-sort expiry_leb in_it (expired_of now t))
      ∙ ap length (
          subst (λ l. keep in_it l ≡ take n all) halves
            (keep-batch (take n all) (drop n all) (subst (Unique entry_pair) (sym halves) unique)))
      ∙ length-take n all
      ∙ ap (min n) (length-sort expiry_leb (expired_of now t))

  -- A prune takes expired entries only, as many as its limit admits.
  pub pruned_entries :
      ((delete_entries (in_batch (expired_batch now (pos n) t)) t).0
        ≡ min n (length (expired_of now t)))
      × (length (expired_of now (delete_entries (in_batch (expired_batch now (pos n) t)) t).1)
            + (delete_entries (in_batch (expired_batch now (pos n) t)) t).0
          ≡ length (expired_of now t))
      × (live_of now (delete_entries (in_batch (expired_batch now (pos n) t)) t).1 ≡ live_of now t)
  unfolding delete_entries in_it
  pruned_entries =
      let same = keep-keep (expired now) in_it t.entries live-out in
      (
        sym same ∙ batch-length,
        omega (arith, keep-split (expired now) in_it t.entries, same),
        keep-live (expired now) in_it t.entries live-out,
      )
