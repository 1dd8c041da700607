-- ===== src/Sql/WellFormed.antt =====
-- The schema's constraints, over the statements and the methods that write.
use v_m_io.Common.{
  ℕ, ◌≡◌, ◌≢◌, sym, ap, subst, ◌∙◌, Bool, true, false, List, [], ◌∷◌, map, arith, All, All-map,
  All-map_fun, All-both, All-append, All-keep_map, any, any-map, any-append, any-keep-not,
  All-of_any, All-of_find, Bool-cases, inl, inr, is_yes→, is_no→,
}
use v_m_io.Common.Unique.{Unique, Unique-keep, Unique-snoc, Unique-map}
use v_m_io.Common.Bytes.{Bytes, dec_pair}
use v_m_io.Common.Int.{ℤ, eqbℤ, eqbℤ_refl}
use v_m_io.Io.{Result}
use v_m_io.Sql.Tables.{
  EntryRow, ChunkRow, Tables, IsWellFormed, entry_pair, chunk_pair, chunk_key, same_pair,
  dec_chunk_key,
}
use v_m_io.Sql.Statements.{
  takes_modified, replace_entry, replace_chunk, upsert_entry, upsert_chunk_row, delete_entries,
  expired_batch, in_batch,
}
use v_m_io.Sql.Transact.{transact-bind, satisfied-ok}
use v_m_io.Sql.Methods.{
  Engine, called, satisfied, execute, begin, query, commit, upsert, upsert_chunk, rm, prune_expired,
}
use v_m_io.Sql.Outcomes.{
  replace_entry-pair, replace_chunk-key, Outcome, upsert_entry-Outcome, ChunkOutcome,
  upsert_chunk_row-Outcome,
}

abbrev modified : EntryRow → ℤ
modified e = e.modified_at_micros

-- A row that does not clash with `e`, and is not for its key, has another `modified_at_micros`.
no_clash-ne :
    (row e : EntryRow)
    → takes_modified row e ≡ false
    → same_pair (entry_pair row) (entry_pair e) ≡ false
    → modified e ≢ modified row
no_clash-ne row e h s p =
    let same : eqbℤ (modified e) (modified row) ≡ true = rw p (eqbℤ_refl (modified row)) in
    ground arith

module _ (row : EntryRow) where
  replaced_ne :
      (m : ℤ) (e : EntryRow)
      → m ≢ modified row
      → m ≢ modified e
      → m ≢ modified (replace_entry row e)
  replaced_ne m e h k = elim (Bool-cases (same_pair (entry_pair row) (entry_pair e))) [
    | inl s ↦ rw s h
    | inr s ↦ rw s k
  ]

  other_ne :
      (x e : EntryRow)
      → entry_pair row ≡ entry_pair x
      → entry_pair x ≢ entry_pair e
      → takes_modified row e ≡ false
      → modified row ≢ modified (replace_entry row e)
  other_ne x e same other h = elim (Bool-cases (same_pair (entry_pair row) (entry_pair e))) [
    | inl s ↦ absurd (other (sym same ∙ is_yes→ (dec_pair (entry_pair row) (entry_pair e)) s))
    | inr s ↦ rw s (λ p. no_clash-ne row e h s (sym p))
  ]

  replace-modified :
      (xs : List EntryRow)
      → Unique entry_pair xs
      → Unique modified xs
      → All (λ e. takes_modified row e ≡ false) xs
      → Unique modified (map (replace_entry row) xs)
  replace-modified [] k u c = tt
  replace-modified (x ∷ xs) k u c = elim (Bool-cases (same_pair (entry_pair row) (entry_pair x))) [
    | inl s ↦
        let same = is_yes→ (dec_pair (entry_pair row) (entry_pair x)) s in
        rw s (
          All-map_fun _ _ (replace_entry row) xs (λ e h. other_ne x e same h.0 h.1)
              (All-both _ _ xs k.0 c.1),
          replace-modified xs k.1 u.1 c.1,
        )
    | inr s ↦
        let mine = no_clash-ne row x c.0 s in
        rw s (
          All-map_fun _ _ (replace_entry row) xs (λ e h. replaced_ne (modified x) e mine h) u.0,
          replace-modified xs k.1 u.1 c.1,
        )
  ]

HasParent : List EntryRow → ChunkRow → Type 0
HasParent entries c = any (λ e. same_pair (chunk_pair c) (entry_pair e)) entries ≡ true

module _ (t : Tables) (w : IsWellFormed t) where
  upsert_entry-IsWellFormed :
      (row : EntryRow) (n : ℕ) (new : List EntryRow)
      → Outcome row t.entries n new
      → IsWellFormed (record t { entries = new })
  upsert_entry-IsWellFormed row n new (inl o) =
      subst (λ es. IsWellFormed (record t { entries = es })) (sym o.result)
        (record {
          entries_key = Unique-snoc entry_pair t.entries row w.entries_key (
              All-map _ _ t.entries
                (λ e f p. is_no→ (dec_pair (entry_pair row) (entry_pair e)) f (sym p))
                (All-of_find _ t.entries o.absent));
          modified_unique = Unique-snoc modified t.entries row w.modified_unique (
              All-map _ _ t.entries (λ e f. no_clash-ne row e f.0 f.1)
                (All-both _ _ t.entries (All-of_any _ t.entries o.no_clash)
                  (All-of_find _ t.entries o.absent)));
          chunks_key = w.chunks_key;
          parents = All-map _ _ t.chunks (λ c f. any-append _ t.entries (row ∷ []) f) w.parents;
        })
  upsert_entry-IsWellFormed row n new (inr (inl o)) =
      subst (λ es. IsWellFormed (record t { entries = es })) (sym o.result)
        (record {
          entries_key =
              Unique-map entry_pair (replace_entry row) t.entries (replace_entry-pair row)
                w.entries_key;
          modified_unique =
              replace-modified row t.entries w.entries_key w.modified_unique
                (All-of_any _ t.entries o.no_clash);
          chunks_key = w.chunks_key;
          parents =
              All-map _ _ t.chunks
                (λ c f.
                  any-map _ (replace_entry row) t.entries
                    (λ e. ap (same_pair (chunk_pair c)) (replace_entry-pair row e))
                  ∙ f)
                w.parents;
        })
  upsert_entry-IsWellFormed row n new (inr (inr o)) =
      subst (λ es. IsWellFormed (record t { entries = es })) (sym o.result) w

  pub upsert_chunk_row-IsWellFormed :
      (row : ChunkRow) (t' : Tables) → ChunkOutcome row t t' → IsWellFormed t'
  upsert_chunk_row-IsWellFormed row t' (inl o) = subst IsWellFormed (sym o.result) (record {
    entries_key = w.entries_key;
    modified_unique = w.modified_unique;
    chunks_key = Unique-snoc chunk_key t.chunks row w.chunks_key (
        All-map _ _ t.chunks
          (λ c f p. is_no→ (dec_chunk_key (chunk_key row) (chunk_key c)) f (sym p))
          (All-of_find _ t.chunks o.absent));
    parents = All-append _ t.chunks (row ∷ []) w.parents (o.parent, tt);
  })
  upsert_chunk_row-IsWellFormed row t' (inr o) = subst IsWellFormed (sym o.result) (record {
    entries_key = w.entries_key;
    modified_unique = w.modified_unique;
    chunks_key =
        Unique-map chunk_key (replace_chunk row) t.chunks (replace_chunk-key row) w.chunks_key;
    parents =
        All-map_fun _ _ (replace_chunk row) t.chunks
          (λ c f.
            ap (λ k. any (λ e. same_pair k (entry_pair e)) t.entries)
              (ap (λ k. k.0) (replace_chunk-key row c))
            ∙ f)
          w.parents;
  })

  pub delete_entries-IsWellFormed : (p : Bytes × Bytes → Bool) → IsWellFormed (delete_entries p t).1
  unfolding delete_entries
  delete_entries-IsWellFormed p = record {
    entries_key = Unique-keep entry_pair _ t.entries w.entries_key;
    modified_unique = Unique-keep modified _ t.entries w.modified_unique;
    chunks_key = Unique-keep chunk_key _ t.chunks w.chunks_key;
    parents =
        All-keep_map _ _ _ t.chunks
          (λ c kept parent. any-keep-not _ (λ e. p (entry_pair e)) t.entries parent (ground arith))
          w.parents;
  }

abbrev Kept : {A : Type 0} → Result A × Tables → Type 0
Kept r = IsWellFormed r.1

-- Whatever calls of the engine fail, each method that writes keeps the constraints of the schema.
module _ (engine : Engine) (t : Tables) (w : IsWellFormed t) where
  pub upsert-IsWellFormed : (row : EntryRow) → IsWellFormed (upsert engine row t).1
  unfolding upsert
  upsert-IsWellFormed row =
      transact-bind Kept t (λ _. w) (called engine execute) _
        (λ _ _.
          transact-bind Kept t (λ _. w) (satisfied (upsert_entry row t.entries)) _
            (λ a e.
              upsert_entry-IsWellFormed t w row a.0 a.1
                (upsert_entry-Outcome row t.entries a.0 a.1 (satisfied-ok _ _ e))))

  pub upsert_chunk-IsWellFormed : (row : ChunkRow) → IsWellFormed (upsert_chunk engine row t).1
  unfolding upsert_chunk
  upsert_chunk-IsWellFormed row =
      transact-bind Kept t (λ _. w) (called engine begin) _
        (λ _ _.
          transact-bind Kept t (λ _. w) (called engine query) _
            (λ _ _.
              transact-bind Kept t (λ _. w) (called engine execute) _
                (λ _ _.
                  transact-bind Kept t (λ _. w) (satisfied (upsert_chunk_row row t)) _
                    (λ t' e.
                      transact-bind Kept t (λ _. w) (called engine commit) _
                        (λ _ _.
                          upsert_chunk_row-IsWellFormed t w row t'
                            (upsert_chunk_row-Outcome row t t' (satisfied-ok _ _ e)))))))

  pub rm-IsWellFormed : (p : Bytes × Bytes) → IsWellFormed (rm engine p t).1
  unfolding rm
  rm-IsWellFormed p =
      transact-bind Kept t (λ _. w) (called engine begin) _
        (λ _ _.
          transact-bind Kept t (λ _. w) (called engine query) _
            (λ _ _.
              transact-bind Kept t (λ _. w) (called engine execute) _
                (λ _ _.
                  transact-bind Kept t (λ _. w) (called engine commit) _
                    (λ _ _. delete_entries-IsWellFormed t w (same_pair p)))))

  pub prune_expired-IsWellFormed :
      (now limit : ℤ) → IsWellFormed (prune_expired engine now limit t).1
  unfolding prune_expired
  prune_expired-IsWellFormed now limit =
      transact-bind Kept t (λ _. w) (called engine begin) _
        (λ _ _.
          transact-bind Kept t (λ _. w) (called engine query) _
            (λ _ _.
              transact-bind Kept t (λ _. w) (called engine execute) _
                (λ _ _.
                  transact-bind Kept t (λ _. w) (called engine commit) _
                    (λ _ _.
                      delete_entries-IsWellFormed t w (in_batch (expired_batch now limit t))))))

  -- On well-formed tables, each method of Sql that writes keeps the constraints of the schema: the
  -- primary keys, the unique column and the foreign key, whatever calls of the engine fail.
  pub methods-IsWellFormed :
      ((row : EntryRow) → IsWellFormed (upsert engine row t).1)
      × ((row : ChunkRow) → IsWellFormed (upsert_chunk engine row t).1)
      × ((p : Bytes × Bytes) → IsWellFormed (rm engine p t).1)
      × ((now limit : ℤ) → IsWellFormed (prune_expired engine now limit t).1)
  methods-IsWellFormed =
      (upsert-IsWellFormed, upsert_chunk-IsWellFormed, rm-IsWellFormed, prune_expired-IsWellFormed)
