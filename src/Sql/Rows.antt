-- ===== src/Sql/Rows.antt =====
-- Properties of the rows of the two tables, over the methods of `Sql` that write.
use v_m_io.Common.{
  ℕ, ◌≡◌, sym, subst, Bool, some, List, [], ◌∷◌, map, All, All-append, All-map_fun, All-keep_map,
  Bool-cases, inl, inr,
}
use v_m_io.Common.Bytes.{Bytes}
use v_m_io.Common.Int.{ℤ}
use v_m_io.Io.{Result}
use v_m_io.Sql.Tables.{EntryRow, ChunkRow, Tables, entry_pair, same_pair, chunk_key, same_chunk}
use v_m_io.Sql.Statements.{
  replace_entry, replace_chunk, upsert_entry, upsert_chunk_row, delete_entries, expired_batch,
  in_batch,
}
use v_m_io.Sql.Outcomes.{upsert_entry-Outcome, upsert_chunk_row-Outcome}
use v_m_io.Sql.Transact.{transact-bind, satisfied-ok}
use v_m_io.Sql.Methods.{
  Engine, called, satisfied, begin, query, execute, commit, upsert, upsert_chunk, rm, prune_expired,
}

module _ (P : EntryRow → Type 0) where
  replace_entry-All :
      (row : EntryRow)
      → P row
      → (es : List EntryRow) → All P es
      → All P (map (replace_entry row) es)
  replace_entry-All row h es = All-map_fun P P (replace_entry row) es (λ e k.
      elim (Bool-cases (same_pair (entry_pair row) (entry_pair e))) [
        | inl s ↦ rw s h
        | inr s ↦ rw s k
      ])

  pub upsert_entry-All :
      (row : EntryRow) (old : List EntryRow) (n : ℕ) (new : List EntryRow)
      → upsert_entry row old ≡ some (n, new)
      → P row
      → All P old
      → All P new
  upsert_entry-All row old n new e h k = elim (upsert_entry-Outcome row old n new e) [
    | inl o ↦ subst (All P) (sym o.result) (All-append P old (row ∷ []) k (h, tt))
    | inr (inl o) ↦ subst (All P) (sym o.result) (replace_entry-All row h old k)
    | inr (inr o) ↦ subst (All P) (sym o.result) k
  ]

module _ (Q : ChunkRow → Type 0) where
  replace_chunk-All :
      (row : ChunkRow)
      → Q row
      → (cs : List ChunkRow) → All Q cs
      → All Q (map (replace_chunk row) cs)
  replace_chunk-All row h cs = All-map_fun Q Q (replace_chunk row) cs (λ c k.
      elim (Bool-cases (same_chunk (chunk_key row) (chunk_key c))) [
        | inl s ↦ rw s h
        | inr s ↦ rw s k
      ])

-- `P` of every entry and `Q` of every chunk.
abbrev pub Rows : (EntryRow → Type 0) → (ChunkRow → Type 0) → Tables → Type 0
Rows P Q t = All P t.entries × All Q t.chunks

module _ (P : EntryRow → Type 0) (Q : ChunkRow → Type 0) (engine : Engine) (t : Tables) where
  abbrev Kept : {A : Type 0} → Result A × Tables → Type 0
  Kept r = Rows P Q r.1

  module _ (h : Rows P Q t) where
    pub upsert-Rows : (row : EntryRow) → P row → Rows P Q (upsert engine row t).1
    unfolding upsert
    upsert-Rows row p =
        transact-bind Kept t (λ _. h) (called engine execute) _
          (λ _ _.
            transact-bind Kept t (λ _. h) (satisfied (upsert_entry row t.entries)) _
              (λ a e. (upsert_entry-All P row t.entries a.0 a.1 (satisfied-ok _ _ e) p h.0, h.1)))

    upsert_chunk_row-Rows :
        (row : ChunkRow) (t' : Tables) → Q row → upsert_chunk_row row t ≡ some t' → Rows P Q t'
    upsert_chunk_row-Rows row t' q e = elim (upsert_chunk_row-Outcome row t t' e) [
      | inl o ↦ subst (Rows P Q) (sym o.result) (h.0, All-append Q t.chunks (row ∷ []) h.1 (q, tt))
      | inr o ↦ subst (Rows P Q) (sym o.result) (h.0, replace_chunk-All Q row q t.chunks h.1)
    ]

    pub upsert_chunk-Rows : (row : ChunkRow) → Q row → Rows P Q (upsert_chunk engine row t).1
    unfolding upsert_chunk
    upsert_chunk-Rows row q =
        transact-bind Kept t (λ _. h) (called engine begin) _
          (λ _ _.
            transact-bind Kept t (λ _. h) (called engine query) _
              (λ _ _.
                transact-bind Kept t (λ _. h) (called engine execute) _
                  (λ _ _.
                    transact-bind Kept t (λ _. h) (satisfied (upsert_chunk_row row t)) _
                      (λ t' e.
                        transact-bind Kept t (λ _. h) (called engine commit) _
                          (λ _ _. upsert_chunk_row-Rows row t' q (satisfied-ok _ _ e))))))

    pub delete_entries-Rows : (p : Bytes × Bytes → Bool) → Rows P Q (delete_entries p t).1
    unfolding delete_entries
    delete_entries-Rows p = (
      All-keep_map P P _ t.entries (λ e _ k. k) h.0,
      All-keep_map Q Q _ t.chunks (λ c _ k. k) h.1,
    )

    pub rm-Rows : (p : Bytes × Bytes) → Rows P Q (rm engine p t).1
    unfolding rm
    rm-Rows p =
        transact-bind Kept t (λ _. h) (called engine begin) _
          (λ _ _.
            transact-bind Kept t (λ _. h) (called engine query) _
              (λ _ _.
                transact-bind Kept t (λ _. h) (called engine execute) _
                  (λ _ _.
                    transact-bind Kept t (λ _. h) (called engine commit) _
                      (λ _ _. delete_entries-Rows (same_pair p)))))

    pub prune_expired-Rows : (now limit : ℤ) → Rows P Q (prune_expired engine now limit t).1
    unfolding prune_expired
    prune_expired-Rows now limit =
        transact-bind Kept t (λ _. h) (called engine begin) _
          (λ _ _.
            transact-bind Kept t (λ _. h) (called engine query) _
              (λ _ _.
                transact-bind Kept t (λ _. h) (called engine execute) _
                  (λ _ _.
                    transact-bind Kept t (λ _. h) (called engine commit) _
                      (λ _ _. delete_entries-Rows (in_batch (expired_batch now limit t))))))
