-- ===== src/Db/Consistent/Place.antt =====
-- Placing a blob, the first half of `upsert_chunk` in rs/v-m-io-db/src/lib.rs, and the files of
-- the other blobs.
use v_m_io.Common.{
  ℕ, ◌≡◌, ◌≢◌, refl, sym, ap, ap₂, ◌∙◌, subst, Bool, true, false, ◌&&◌, Option, none, some, arith,
  length, ==_iff, take, take_of_length, Bool-cases, inl, inr, ◌⊎◌,
}
use v_m_io.Common.Bytes.{Bytes, dec_path}
use v_m_io.Io.{Result, ok}
use v_m_io.Blob.Layout.{FilePath}
use v_m_io.Blob.Frame.{ChunkId, IsMachine}
use v_m_io.Blob.Disk.{Disk, write-Wrote}
use v_m_io.Sql.Tables.{ChunkRow}
use v_m_io.Db.Store.{VmIoDb}
use v_m_io.Db.Chunks.{ChunkEnv, has_length, place_blob}
use v_m_io.Db.Consistent.{
  IsSound, id_of, cipher_of, path_of, Backed, IsIntact, Backed-frame, path_of_injective,
  plain_unique, length-cipher_of,
}

-- A file of the given length is at the path.
pub has_length→ :
    (n : ℕ) (o : Option Bytes)
    → has_length n o ≡ true
    → (content : Bytes) × (o ≡ some content) × (length content ≡ n)
has_length→ n none h = cc
has_length→ n (some content) h = (content, refl, ground arith)

module _ (db : VmIoDb) (sound : IsSound db) (env : ChunkEnv) (stat : env.stat_works ≡ true)
    (id : ChunkId) (plain : Bytes) (fits : IsMachine id)
    (hash_is : id.hash ≡ db.crypto.sha256 plain) (disk : Disk) where
  abbrev path : FilePath
  path = path_of db id

  abbrev cipher : Bytes
  cipher = cipher_of db id plain

  abbrev placed : Bool × (Result (Unit {0}) × Disk)
  placed = place_blob env path cipher disk

  -- A row at the same place is a row of the same blob, whose file has full length.
  at_path-has_length :
      (row : ChunkRow)
      → Backed db disk row
      → path_of db (id_of row) ≡ path
      → has_length (length cipher) (disk path) ≡ true
  at_path-has_length row b e =
      let same = path_of_injective db sound (id_of row) id b.fits fits e in
      let content = plain_unique db sound (id_of row) id b.plain plain same b.hash_is hash_is in
      let file : disk path ≡ some cipher =
        subst (λ p. disk path ≡ some (cipher_of db id p)) content
          (subst (λ i. disk (path_of db i) ≡ some (cipher_of db i b.plain)) same b.file_is) in
      rw file ((==_iff (length cipher) (length cipher)).1 refl)

  -- What this call wrote lies at the place of no row.
  pub placed-fresh :
      (row : ChunkRow) → Backed db disk row → placed.0 ≡ true → path_of db (id_of row) ≢ path
  unfolding place_blob
  placed-fresh row b wrote e = ground (arith, at_path-has_length row b e)

  pub placed-others : (q : FilePath) → q ≢ path → placed.1.1 q ≡ disk q
  unfolding place_blob
  placed-others q ne =
      elim (Bool-cases (env.stat_works && has_length (length cipher) (disk path))) [
        | inl there ↦ rw there
        | inr absent ↦ rw absent ((write-Wrote disk path cipher env.first env.second).0.others q ne)
      ]

  placed-kept : placed.0 ≡ false → placed.1 ≡ (ok tt, disk)
  unfolding place_blob
  placed-kept e = ground arith

  placed-own : (placed.1.1 path ≡ disk path) ⊎ ((n : ℕ) × (placed.1.1 path ≡ some (take n cipher)))
  unfolding place_blob
  placed-own = elim (Bool-cases (env.stat_works && has_length (length cipher) (disk path))) [
    | inl there ↦ inl (rw there)
    | inr absent ↦ rw absent (write-Wrote disk path cipher env.first env.second).0.own
  ]

  pub placed-Backed : (row : ChunkRow) → Backed db disk row → Backed db placed.1.1 row
  placed-Backed row b = elim (Bool-cases placed.0) [
    | inl wrote ↦ Backed-frame db disk placed.1.1 row (placed-others _ (placed-fresh row b wrote)) b
    | inr kept ↦
        Backed-frame db disk placed.1.1 row
          (ap (λ (r : Result (Unit {0}) × Disk). r.1 (path_of db (id_of row))) (placed-kept kept)) b
  ]

  -- A prefix of the blob that has the blob's length is the blob.
  own-cipher :
      IsIntact db disk
      → (content : Bytes) → placed.1.1 path ≡ some content
      → length content ≡ length plain
      → content ≡ cipher
  own-cipher h content e l = elim placed-own [
    | inl same ↦ h.at_place id plain content fits hash_is (sym same ∙ e) l
    | inr (n, torn) ↦
        let is_prefix : content ≡ take n cipher = cc in
        let full : length (take n cipher) ≡ length cipher =
          ap length (sym is_prefix) ∙ l ∙ sym (length-cipher_of db sound id plain) in
        is_prefix ∙ take_of_length n cipher full
  ]

  pub placed-IsIntact : IsIntact db disk → IsIntact db placed.1.1
  placed-IsIntact h = record {
    at_place = λ id' plain' content fits' hash_is' e l. elim (dec_path (path_of db id') path) [
      | yes same ↦
          let ids = path_of_injective db sound id' id fits' fits same in
          let plains = plain_unique db sound id' id plain' plain ids hash_is' hash_is in
          own-cipher h content (subst (λ q. placed.1.1 q ≡ some content) same e)
            (l ∙ ap length plains)
          ∙ sym (ap₂ (cipher_of db) ids plains)
      | no other ↦ h.at_place id' plain' content fits' hash_is' (sym (placed-others _ other) ∙ e) l
    ];
  }

  -- When placing works, the blob is there.
  pub placed-file : IsIntact db disk → placed.1.0 ≡ ok tt → placed.1.1 path ≡ some cipher
  unfolding place_blob
  placed-file h done =
      elim (Bool-cases (env.stat_works && has_length (length cipher) (disk path))) [
        | inl there ↦
            let (content, file, len) = has_length→ (length cipher) (disk path) (ground arith) in
            let is_blob =
              h.at_place id plain content fits hash_is file
                (len ∙ length-cipher_of db sound id plain) in
            rw there (file ∙ ap some is_blob)
        | inr absent ↦
            rw absent ((write-Wrote disk path cipher env.first env.second).1 (rw absent at done))
      ]
