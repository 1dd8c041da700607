-- ===== src/Db/Consistent/Cleanup.antt =====
-- `cleanup_dir` of rs/v-m-io-db/src/lib.rs, over any listing of the directories, and the blobs
-- that no row refers to.
use v_m_io.Common.{
  ℕ, ◌+◌, ◌≡◌, ◌≢◌, refl, sym, ◌∙◌, subst, Bool, true, false, ◌&&◌, Option, none, some, [], ◌∷◌,
  ◌++◌, All-map, All-both, All-any_self, Bool-cases, inl, inr, ◌⊎◌, is_yes, is_yes→, →is_yes,
  if◌then◌else◌, ◌==◌,
}
use v_m_io.Common.Bytes.{Bytes, dec_bytes, dec_path}
use v_m_io.Io.{Result, ok, err}
use v_m_io.Blob.Layout.{FilePath, id_path_injective, parse_name, shard_depth}
use v_m_io.Blob.Disk.{Disk}
use v_m_io.Sql.Tables.{Tables, ChunkRow}
use v_m_io.Sql.Statements.{blob_id_row}
use v_m_io.Sql.Methods.{Engine, called, query}
use v_m_io.Sql.Methods as Sql
use v_m_io.Db.Store.{VmIoDb, Store, blob_path, remove_file}
use v_m_io.Db.Prune.{
  Item, unreadable, file, dir, Listing, end, broken, item, cleanup_blob, cleanup_file, and_then,
  enters, cleanup_item, cleanup_dir,
}
use v_m_io.Db.Consistent.{
  IsSound, IsConsistent, id_of, path_of, Backed, IsIntact-shrink, Backed-frame,
}
use v_m_io.Db.Consistent.Settle.{remove_file_ne}

-- At `q` a file may have gone, if a blob's place is there and no row names that blob; nothing
-- else has changed.
pub record Stray (db : VmIoDb) (t : Tables) (disk disk' : Disk) (q : FilePath) : Type 0 where
  pub id : Bytes
  pub place : q ≡ blob_path db id
  pub unreferenced : blob_id_row id t ≡ false
  pub gone : disk' q ≡ none

abbrev pub Swept : VmIoDb → Tables → Disk → Disk → Type 0
Swept db t disk disk' = (q : FilePath) → (disk' q ≡ disk q) ⊎ Stray db t disk disk' q

module _ (db : VmIoDb) (t : Tables) where
  Swept-refl : (disk : Disk) → Swept db t disk disk
  Swept-refl disk q = inl refl

  Swept-trans : (a b c : Disk) → Swept db t a b → Swept db t b c → Swept db t a c
  Swept-trans a b c h k q = elim (k q) [
    | inr stray ↦ inr (record {
      id = stray.id;
      place = stray.place;
      unreferenced = stray.unreferenced;
      gone = stray.gone;
    })
    | inl same ↦ elim (h q) [
      | inl same' ↦ inl (same ∙ same')
      | inr stray ↦ inr (record {
        id = stray.id;
        place = stray.place;
        unreferenced = stray.unreferenced;
        gone = same ∙ stray.gone;
      })
    ]
  ]

module _ (db : VmIoDb) (engine : Engine) (removable : FilePath → Bool) (t : Tables) where
  reaped-Swept :
      (id : Bytes) (path : FilePath) (disk : Disk)
      → blob_path db id ≡ path
      → blob_id_row id t ≡ false
      → Swept db t disk (remove_file removable path disk)
  reaped-Swept id path disk place free q = elim (dec_path q path) [
    | no other ↦ inl (remove_file_ne removable path q disk other)
    | yes here ↦ elim (Bool-cases (removable path)) [
      | inr stuck ↦ inl (rw stuck)
      | inl works ↦ inr (record {
        id = id;
        place = here ∙ sym place;
        unreferenced = free;
        gone = rw (works, →is_yes (dec_path q path) here);
      })
    ]
  ]

  cleanup_blob-Swept :
      (path : FilePath) (name : Option Bytes) (disk : Disk)
      → Swept db t disk (cleanup_blob db engine removable t path name disk).1
  unfolding Sql.blob_id_exists
  cleanup_blob-Swept path none disk = Swept-refl db t disk
  cleanup_blob-Swept path (some id) disk =
      elim (Bool-cases (is_yes (dec_path (blob_path db id) path))) [
        | inr other ↦ rw other (Swept-refl db t disk)
        | inl here ↦ rw here (elim (Bool-cases (engine query)) [
          | inr fails ↦ rw fails (Swept-refl db t disk)
          | inl works ↦ rw works (elim (Bool-cases (blob_id_row id t)) [
            | inl used ↦ rw used (Swept-refl db t disk)
            | inr free ↦
                rw free
                  (reaped-Swept id path disk (is_yes→ (dec_path (blob_path db id) path) here) free)
          ])
        ])
      ]

  cleanup_file-Swept :
      (here : FilePath) (depth : ℕ) (name : Option Bytes) (stale : Bool) (disk : Disk)
      → Swept db t disk (cleanup_file db engine removable t here depth name stale disk).1
  cleanup_file-Swept here depth none stale disk = Swept-refl db t disk
  cleanup_file-Swept here depth (some name) stale disk =
      elim (Bool-cases ((depth == shard_depth) && stale)) [
        | inl e ↦ rw e (cleanup_blob-Swept (here ++ (name ∷ [])) (parse_name db.hex name) disk)
        | inr e ↦ rw e (Swept-refl db t disk)
      ]

  and_then-Swept :
      (disk : Disk) (r : Result (Unit {0}) × Disk) (rest : Disk → Result (Unit {0}) × Disk)
      → Swept db t disk r.1
      → ((d : Disk) → Swept db t d (rest d).1)
      → Swept db t disk (and_then r rest).1
  and_then-Swept disk (ok u, d) rest h k = Swept-trans db t disk d (rest d).1 h (k d)
  and_then-Swept disk (err e, d) rest h k = h

  if-Swept :
      (disk : Disk) (b : Bool) (r : Result (Unit {0}) × Disk)
      → Swept db t disk r.1
      → Swept db t disk (if b then r else (ok tt, disk)).1
  if-Swept disk true r h = h
  if-Swept disk false r h = Swept-refl db t disk

  mutual
    unfolding cleanup_item cleanup_dir

    cleanup_item-Swept :
        (i : Item) (here : FilePath) (depth : ℕ) (disk : Disk)
        → Swept db t disk (cleanup_item db engine removable t i here depth disk).1
    cleanup_item-Swept unreadable here depth disk = Swept-refl db t disk
    cleanup_item-Swept (file name stale) here depth disk =
        cleanup_file-Swept here depth name stale disk
    cleanup_item-Swept (dir none stale listing) here depth disk = Swept-refl db t disk
    cleanup_item-Swept (dir (some name) stale listing) here depth disk =
        if-Swept disk (enters depth name) _
          (cleanup_dir-Swept_all listing (here ++ (name ∷ [])) (depth + 1) disk)

    cleanup_dir-Swept_all :
        (listing : Listing) (here : FilePath) (depth : ℕ) (disk : Disk)
        → Swept db t disk (cleanup_dir db engine removable t listing here depth disk).1
    cleanup_dir-Swept_all end here depth disk = Swept-refl db t disk
    cleanup_dir-Swept_all broken here depth disk = Swept-refl db t disk
    cleanup_dir-Swept_all (item i listing) here depth disk =
        and_then-Swept disk (cleanup_item db engine removable t i here depth disk) _
          (cleanup_item-Swept i here depth disk) (cleanup_dir-Swept_all listing here depth)

  -- A pass of cleanup_dir, whatever the directories list and whatever the engine and the removals
  -- answer, changes no file but those at the place of a blob id that no row refers to, and those
  -- are gone.
  pub cleanup_dir-Swept :
      (listing : Listing) (here : FilePath) (depth : ℕ) (disk : Disk)
      → Swept db t disk (cleanup_dir db engine removable t listing here depth disk).1
  cleanup_dir-Swept listing here depth disk = cleanup_dir-Swept_all listing here depth disk

Swept-shrink :
    (db : VmIoDb) (t : Tables) (disk disk' : Disk) (q : FilePath) (content : Bytes)
    → Swept db t disk disk'
    → disk' q ≡ some content
    → disk q ≡ some content
Swept-shrink db t disk disk' q content h e = elim (h q) [
  | inl same ↦ sym same ∙ e
  | inr stray ↦ let gone : disk' q ≡ none = stray.gone in cc
]

-- A sweep takes the blob of no row.
Swept-Backed :
    (db : VmIoDb) (sound : IsSound db) (t : Tables) (disk disk' : Disk)
    → Swept db t disk disk'
    → (r : ChunkRow) → Backed db disk r
    → ((id : Bytes) → blob_id_row id t ≡ false → id ≢ r.blob_id)
    → Backed db disk' r
Swept-Backed db sound t disk disk' h r b named = elim (h (path_of db (id_of r))) [
  | inl same ↦ Backed-frame db disk disk' r same b
  | inr stray ↦ absurd (
      named stray.id stray.unreferenced (
        sym (id_path_injective db.hex sound.hex_injective db.root_dir _ _ stray.place)
        ∙ sym b.blob_is))
]

-- With sound crates, a pass of cleanup_dir over any listing keeps the store consistent, whatever
-- the engine and the removals answer.
pub cleanup_dir-IsConsistent :
    (db : VmIoDb) (sound : IsSound db) (engine : Engine) (removable : FilePath → Bool)
    (listing : Listing) (here : FilePath) (depth : ℕ) (s : Store)
    → IsConsistent db s
    → IsConsistent db
        (record s { disk = (cleanup_dir db engine removable s.tables listing here depth s.disk).1 })
unfolding blob_id_row
cleanup_dir-IsConsistent db sound engine removable listing here depth s c =
    let disk' = (cleanup_dir db engine removable s.tables listing here depth s.disk).1 in
    let swept = cleanup_dir-Swept db engine removable s.tables listing here depth s.disk in
    record {
      tables = c.tables;
      backed =
          All-map _ _ s.tables.chunks
            (λ r b. Swept-Backed db sound s.tables s.disk disk' swept r b.0 (λ id free e.
              let listed : blob_id_row r.blob_id s.tables ≡ true = b.1 in
              let free' : blob_id_row r.blob_id s.tables ≡ false =
                subst (λ (i : Bytes). blob_id_row i s.tables ≡ false) e free in
              cc))
            (All-both _ _ s.tables.chunks c.backed (
              All-any_self (λ (a b : ChunkRow). is_yes (dec_bytes a.blob_id b.blob_id))
                (λ a. →is_yes (dec_bytes a.blob_id a.blob_id) refl) s.tables.chunks));
      intact =
          IsIntact-shrink db s.disk disk'
            (λ q content. Swept-shrink db s.tables s.disk disk' q content swept) c.intact;
    }
