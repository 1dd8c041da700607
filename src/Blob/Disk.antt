-- ===== src/Blob/Disk.antt =====
-- The files under the root directory, as the store's calls see them, and `blob::write` of
-- rs/v-m-io-db/src/blob.rs. What the operating system answers is an input: directories are not
-- kept, a missing one shows as the answer `not_found`.
use v_m_io.Common.{
  ℕ, ◌≡◌, ◌≢◌, refl, Bool, true, false, Option, some, List, [], ◌∷◌, arith, take, length,
  if◌then◌else◌, is_yes, →is_yes, take-length, subst, inl, inr, ◌⊎◌,
}
use v_m_io.Common.Bytes.{Bytes, dec_path}
use v_m_io.Io.{Result, ok, err, file_system, shard_removed}
use v_m_io.Blob.Layout.{FilePath}

abbrev pub Disk : Type 0
Disk = FilePath → Option Bytes

abbrev pub set_file : Disk → FilePath → Option Bytes → Disk
set_file disk path content q = if is_yes (dec_path q path) then content else disk q

-- The answer to `tokio::fs::write`. A write that fails once the file is open has truncated it and
-- leaves a prefix of the data.
pub data WriteAnswer : Type 0 where
  written : WriteAnswer
  not_found : WriteAnswer
  refused : WriteAnswer
  torn : ℕ → WriteAnswer

-- One round: does `create_dir_all` succeed, and how does the write end?
pub record Round : Type 0 where
  pub dirs_made : Bool
  pub answer : WriteAnswer

-- One round, given what the rounds after it would do: only `not_found` goes on to them.
unfoldable pub round_step :
    Bool
    → WriteAnswer
    → Disk
    → FilePath
    → Bytes
    → Result (Unit {0}) × Disk
    → Result (Unit {0}) × Disk
round_step false answer disk path content rest = (err file_system, disk)
round_step true written disk path content rest = (ok tt, set_file disk path (some content))
round_step true not_found disk path content rest = rest
round_step true refused disk path content rest = (err file_system, disk)
round_step true (torn n) disk path content rest =
    (err file_system, set_file disk path (some (take n content)))

-- The loop, over the rounds that the system answers; after the last one the call gives up.
unfoldable pub write_rounds : List Round → Disk → FilePath → Bytes → Result (Unit {0}) × Disk
unfolding round_step
write_rounds [] disk path content = (err shard_removed, disk)
write_rounds (r ∷ rounds) disk path content =
    round_step r.dirs_made r.answer disk path content (write_rounds rounds disk path content)

-- `for _ in 0..2`
unfoldable pub write : Round → Round → Disk → FilePath → Bytes → Result (Unit {0}) × Disk
unfolding write_rounds
write first second = write_rounds (first ∷ second ∷ [])

-- What a write of `content` at `path` may have done to the files: none but the one at `path` has
-- changed, and that one is as it was or holds a prefix of the content.
pub record Wrote (disk : Disk) (path : FilePath) (content : Bytes) (disk' : Disk) : Type 0 where
  pub others : (q : FilePath) → q ≢ path → disk' q ≡ disk q
  pub own : (disk' path ≡ disk path) ⊎ ((n : ℕ) × (disk' path ≡ some (take n content)))

pub set_file_self : (disk : Disk) (p : FilePath) (o : Option Bytes) → set_file disk p o p ≡ o
set_file_self disk p o = rw (→is_yes (dec_path p p) refl)

pub set_file_ne :
    (disk : Disk) (p q : FilePath) (o : Option Bytes) → q ≢ p → set_file disk p o q ≡ disk q
set_file_ne disk p q o h = ground arith

set_file-Wrote :
    (disk : Disk) (path : FilePath) (content : Bytes) (n : ℕ)
    → Wrote disk path content (set_file disk path (some (take n content)))
set_file-Wrote disk path content n = record {
  others = λ q h. set_file_ne disk path q _ h;
  own = inr (n, set_file_self disk path _);
}

Wrote-refl : (disk : Disk) (path : FilePath) (content : Bytes) → Wrote disk path content disk
Wrote-refl disk path content = record { others = λ q h. refl; own = inl refl }

module _ (disk : Disk) (path : FilePath) (content : Bytes) where
  round_step-Wrote :
      (made : Bool) (a : WriteAnswer) (rest : Result (Unit {0}) × Disk)
      → Wrote disk path content rest.1
      → Wrote disk path content (round_step made a disk path content rest).1
  unfolding round_step
  round_step-Wrote false a rest h = Wrote-refl disk path content
  round_step-Wrote true written rest h =
      subst (λ c. Wrote disk path content (set_file disk path (some c))) (take-length content)
        (set_file-Wrote disk path content (length content))
  round_step-Wrote true not_found rest h = h
  round_step-Wrote true refused rest h = Wrote-refl disk path content
  round_step-Wrote true (torn n) rest h = set_file-Wrote disk path content n

  round_step-ok :
      (made : Bool) (a : WriteAnswer) (rest : Result (Unit {0}) × Disk)
      → (rest.0 ≡ ok tt → rest.1 path ≡ some content)
      → (round_step made a disk path content rest).0 ≡ ok tt
      → (round_step made a disk path content rest).1 path ≡ some content
  unfolding round_step
  round_step-ok false a rest h e = cc
  round_step-ok true written rest h e = set_file_self disk path (some content)
  round_step-ok true not_found rest h e = h e
  round_step-ok true refused rest h e = cc
  round_step-ok true (torn n) rest h e = cc

  write_rounds-Wrote :
      (rounds : List Round) → Wrote disk path content (write_rounds rounds disk path content).1
  unfolding write_rounds
  write_rounds-Wrote [] = Wrote-refl disk path content
  write_rounds-Wrote (r ∷ rounds) =
      round_step-Wrote r.dirs_made r.answer _ (write_rounds-Wrote rounds)

  write_rounds-ok :
      (rounds : List Round)
      → (write_rounds rounds disk path content).0 ≡ ok tt
      → (write_rounds rounds disk path content).1 path ≡ some content
  unfolding write_rounds
  write_rounds-ok [] e = cc
  write_rounds-ok (r ∷ rounds) e = round_step-ok r.dirs_made r.answer _ (write_rounds-ok rounds) e

  -- Whatever the system answers, write changes no file but its own, leaves that one as it was or
  -- with a prefix of the content, and when it succeeds the file holds the content.
  pub write-Wrote :
      (first second : Round)
      → Wrote disk path content (write first second disk path content).1
        × ((write first second disk path content).0 ≡ ok tt
            → (write first second disk path content).1 path ≡ some content)
  unfolding write
  write-Wrote first second =
      (write_rounds-Wrote (first ∷ second ∷ []), write_rounds-ok (first ∷ second ∷ []))
