-- ===== src/Wal/File.antt =====
-- `FileWAL` (internal/wal/wal.go and segment.go). A directory is the file of the hard state and the
-- segment files. A segment file stands under its number: its name is the number by twenty digits, so
-- the order of the names is that of the numbers. Disk operations succeed; a file that is written and
-- renamed is replaced in one step. The codec of raftpb and its entries are parameters. Of an
-- operation that fails only the error is kept.
pub mod Records
pub mod Writer
pub mod Methods
pub mod Mirror
pub mod Writing
pub mod Layouts
pub mod Looping
pub mod Removing
pub mod Splitting
pub mod Starting
pub mod Incremental
pub mod Rewriting
pub mod Overlapping
pub mod Appending
pub mod Truncating
pub mod Prefix
use stellmap_service.Base.{
  ℕ, zero, suc, Bool, ◌&&◌, List, [], ◌∷◌, ◌++◌, Option, none, some, ltb, ◌==◌, if◌then◌else◌,
  length, take, drop, Result, ok, err,
}
use stellmap_service.Text.{Bytes}
use stellmap_service.Storage.Uint64.{put_big_endian, big_endian}
use stellmap_service.Raftnode.Ready.{HardState}

-- `short_read` is `io.EOF` or `io.ErrUnexpectedEOF`, out of a record.
pub data WalError : Type 0 where
  not_open not_exist short_read undecodable gap empty_boundary exhausted : WalError

pub record Codec (E : Type 0) : Type 0 where
  pub encode_state : HardState → Bytes
  pub decode_state : Bytes → Option HardState
  pub encode_entry : E → Bytes
  pub decode_entry : Bytes → Option E

-- the path follows from the number
pub record Segment : Type 0 where
  pub id : ℕ
  pub first_index : ℕ
  pub last_index : ℕ

abbrev pub SegmentFiles : Type 0
SegmentFiles = List (ℕ × Bytes)

pub record Directory : Type 0 where
  pub hard_state : Option Bytes
  pub segment_files : SegmentFiles

pub record FileWal (E : Type 0) : Type 0 where
  pub state : HardState
  pub entries : List E
  pub segments : List Segment
  pub opened : Bool

unfoldable pub no_state : HardState
no_state = record { term = 0; vote = 0; commit = 0 }

unfoldable pub is_empty_hard_state : HardState → Bool
is_empty_hard_state s = s.term == 0 && s.vote == 0 && s.commit == 0

-- the files
unfoldable pub file_content : ℕ → SegmentFiles → Option Bytes
file_content id [] = none
file_content id ((j, bs) ∷ fs) = if j == id then some bs else file_content id fs

-- `os.O_CREATE|os.O_TRUNC`, and `os.Rename` onto the file
unfoldable pub put_file : ℕ → Bytes → SegmentFiles → SegmentFiles
put_file id bs [] = (id, bs) ∷ []
put_file id bs ((j, cs) ∷ fs) =
    let later = (j, cs) ∷ put_file id bs fs in
    if id == j then (id, bs) ∷ fs else if ltb id j then (id, bs) ∷ (j, cs) ∷ fs else later

-- `os.O_APPEND`
unfoldable pub extend_file : ℕ → Bytes → SegmentFiles → SegmentFiles
extend_file id bs [] = []
extend_file id bs ((j, cs) ∷ fs) =
    if j == id then (j, cs ++ bs) ∷ fs else (j, cs) ∷ extend_file id bs fs

unfoldable pub remove_file : ℕ → SegmentFiles → SegmentFiles
remove_file id [] = []
remove_file id ((j, cs) ∷ fs) =
    let rest = remove_file id fs in if j == id then rest else (j, cs) ∷ rest

unfoldable pub remove_segments : List Segment → SegmentFiles → SegmentFiles
unfolding remove_file
remove_segments [] fs = fs
remove_segments (s ∷ ss) fs = remove_segments ss (remove_file s.id fs)

-- the length in four bytes, and the record
unfoldable pub framed : Bytes → Bytes
framed record_bytes = put_big_endian 4 (length record_bytes) ++ record_bytes

module _ {E : Type 0} (codec : Codec E) where
  unfoldable pub cons_entry : Option E → Result WalError (List E) → Result WalError (List E)
  cons_entry none rest = err undecodable
  cons_entry (some e) (ok es) = ok (e ∷ es)
  cons_entry (some e) (err x) = err x

  -- The loop of `readSegment`, with fuel. A length that is cut off ends the file, a record that is
  -- cut off is an error.
  unfoldable pub read_records : ℕ → Bytes → Result WalError (List E)
  unfolding cons_entry
  read_records zero bs = err exhausted
  read_records (suc fuel) bs =
      let size = big_endian 0 (take 4 bs) in
      let rest =
        cons_entry (codec.decode_entry (take size (drop 4 bs)))
          (read_records fuel (drop size (drop 4 bs))) in
      if ltb (length bs) 4
      then ok []
      else if ltb (length (drop 4 bs)) size
      then err short_read
      else rest

  unfoldable pub read_segment : Bytes → Result WalError (List E)
  unfolding read_records
  read_segment bs = read_records (suc (length bs)) bs
