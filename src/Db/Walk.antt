-- ===== src/Db/Walk.antt =====
-- `cleanup_dir` of rs/v-m-io-db/src/lib.rs and `id_path` of rs/v-m-io-db/src/blob.rs: the walk of the
-- one along the paths of the other.
use mathlib.Core.List.{append_assoc}
use v_m_io.Common.{
  ℕ, ◌+◌, ◌<◌, ◌≡◌, refl, sym, ap, ◌∙◌, subst, Bool, true, false, none, some, List, [], ◌∷◌, ◌++◌,
  length, All, is_yes, →is_yes,
}
use v_m_io.Common.Bytes.{Bytes, dec_path}
use v_m_io.Io.{Result, ok, err}
use v_m_io.Blob.Layout.{
  FilePath, IsHex, shards, id_path, parse_name, shards-IsShardName, root_append_injective,
}
use v_m_io.Blob.Disk.{Disk, set_file, set_file_self}
use v_m_io.Sql.Tables.{Tables}
use v_m_io.Sql.Statements.{blob_id_row}
use v_m_io.Sql.Methods.{Engine, query}
use v_m_io.Sql.Methods as Sql
use v_m_io.Db.Store.{VmIoDb, blob_path}
use v_m_io.Db.Prune.{file, dir, Listing, end, item, and_then, enters, cleanup_item, cleanup_dir}

-- What the directories list if there is nothing in them but one old file, at the given components
-- below the root.
abbrev pub lone_file : List Bytes → Listing
lone_file [] = end
lone_file (name ∷ []) = item (file (some name) true) end
lone_file (name ∷ next ∷ below) = item (dir (some name) false (lone_file (next ∷ below))) end

module _ (db : VmIoDb) (engine : Engine) (removable : FilePath → Bool) (t : Tables) where
  and_then-end :
      (r : Result (Unit {0}) × Disk) (here : FilePath) (depth : ℕ)
      → (and_then r (cleanup_dir db engine removable t end here depth)).1 ≡ r.1
  unfolding cleanup_dir
  and_then-end (ok u, disk) here depth = refl
  and_then-end (err e, disk) here depth = refl

  -- A directory with a shard name is entered above the depth of the files.
  entered :
      (name : Bytes) (listing : Listing) (here : FilePath) (depth : ℕ) (disk : Disk)
      → enters depth name ≡ true
      → (cleanup_dir db engine removable t
          (item (dir (some name) false listing) end)
          here
          depth
          disk).1
        ≡ (cleanup_dir db engine removable t listing (here ++ (name ∷ [])) (depth + 1) disk).1
  unfolding cleanup_item cleanup_dir
  entered name listing here depth disk e = rw e (and_then-end _ here depth)

  -- An old file at the place of a blob that no row refers to is removed.
  removed_at :
      (id name : Bytes) (here : FilePath) (disk : Disk)
      → parse_name db.hex name ≡ some id
      → blob_path db id ≡ here ++ (name ∷ [])
      → engine query ≡ true
      → blob_id_row id t ≡ false
      → removable (blob_path db id) ≡ true
      → (cleanup_dir db engine removable t (item (file (some name) true) end) here 3 disk).1
          (blob_path db id)
        ≡ none
  unfolding cleanup_item cleanup_dir Sql.blob_id_exists
  removed_at id name here disk parsed place asks free removes =
      let at_place : is_yes (dec_path (blob_path db id) (here ++ (name ∷ []))) ≡ true =
        →is_yes (dec_path (blob_path db id) (here ++ (name ∷ []))) place in
      let gone : removable (here ++ (name ∷ [])) ≡ true =
        subst (λ p. removable p ≡ true) place removes in
      let self = set_file_self disk (here ++ (name ∷ [])) none in
      rw (parsed, at_place, asks, free, gone)
        (subst (λ q. set_file disk (here ++ (name ∷ [])) none q ≡ none) (sym place) self)

  -- Three directories and a file, one joined after the other.
  joined :
      (root : FilePath) (a b c name : Bytes)
      → root ++ (a ∷ b ∷ c ∷ name ∷ [])
        ≡ (((root ++ (a ∷ [])) ++ (b ∷ [])) ++ (c ∷ [])) ++ (name ∷ [])
  joined root a b c name = sym (
      append_assoc ((root ++ (a ∷ [])) ++ (b ∷ [])) (c ∷ []) (name ∷ [])
      ∙ append_assoc (root ++ (a ∷ [])) (b ∷ []) (c ∷ name ∷ [])
      ∙ append_assoc root (a ∷ []) (b ∷ c ∷ name ∷ []))

  below_root :
      (id : Bytes) (below : List Bytes)
      → blob_path db id ≡ db.root_dir ++ below
      → shards (db.hex.encode id) ++ (db.hex.encode id ∷ []) ≡ below
  unfolding id_path
  below_root id below e = root_append_injective db.root_dir _ _ e

  -- For an id of 32 bytes, each below 256, and an encoder with the documented behaviour: if the
  -- directories list nothing but one old file, at the place that id_path gives the id, and no row
  -- refers to the id, then cleanup_dir, with a query and a removal that work, walks down to the
  -- file and removes it.
  pub cleanup_dir-reaches :
      IsHex db.hex
      → (id : Bytes) → length id ≡ 32
      → All (λ b. b < 256) id
      → engine query ≡ true
      → blob_id_row id t ≡ false
      → removable (blob_path db id) ≡ true
      → (below : List Bytes) → blob_path db id ≡ db.root_dir ++ below
      → (disk : Disk)
      → (cleanup_dir db engine removable t (lone_file below) db.root_dir 0 disk).1 (blob_path db id)
        ≡ none
  cleanup_dir-reaches w id len small asks free removes below path disk =
      let hex : Bytes = db.hex.encode id in
      let names = shards-IsShardName db.hex w id len in
      let root = db.root_dir in
      let place : blob_path db id ≡ root ++ (shards hex ++ (hex ∷ [])) =
        path ∙ ap (λ l. root ++ l) (sym (below_root id below path)) in
      subst
        (λ l.
          (cleanup_dir db engine removable t (lone_file l) root 0 disk).1 (blob_path db id) ≡ none)
        (below_root id below path)
        (ap (λ (d : Disk). d (blob_path db id))
            (entered _ _ root 0 disk names.0
              ∙ entered _ _ _ 1 disk names.1.0
              ∙ entered _ _ _ 2 disk names.1.1.0)
          ∙ removed_at id hex _ disk (w.decode-encode id len small) (place ∙ joined root _ _ _ hex)
              asks free removes)
