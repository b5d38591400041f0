-- ===== src/Tests/Recovering.antt =====
-- A log on the disk: a segment with two entries, and what a restart finds behind its operations.
use stellmap_service.Base.{
  ℕ, ◌+◌, ◌^◌, ◌<◌, ◌≡◌, refl, true, List, [], ◌∷◌, ◌++◌, map, Option, none, some, arith, ltb, ◌==◌,
  if◌then◌else◌, length, take, Result, ok, err, ◌>>=◌,
}
use stellmap_service.Storage.Uint64.{put_big_endian}
use stellmap_service.Text.{Bytes}
use stellmap_service.Raftnode.Ready.{HardState}
use stellmap_service.Wal.{merge_entries}
use stellmap_service.Wal.Merge.{Run}
use stellmap_service.Wal.File.{
  WalError, short_read, Codec, Segment, Directory, FileWal, framed, read_segment,
}
use stellmap_service.Wal.File.Methods.{
  append, truncate_prefix, open_wal, load, new_file_wal, with_state, records_of, load_state,
}
use stellmap_service.Wal.File.Records.{IsLawful, read_segment-torn}
use stellmap_service.Wal.File.Mirror.{Part, segments_of, files_of, IsMirror}
use stellmap_service.Wal.File.Layouts.{IsIndex}
use stellmap_service.Wal.File.Prefix.{append-load, truncate_prefix-load}

data Entry : Type 0 where
  one two other three four : Entry

abbrev index : Entry → ℕ
index one = 1
index two = 2
index other = 2
index three = 3
index four = 4

abbrev encode_state : HardState → Bytes
encode_state s = s.term ∷ s.vote ∷ s.commit ∷ []

abbrev decode_state : Bytes → Option HardState
decode_state (t ∷ v ∷ c ∷ []) = some (record { term = t; vote = v; commit = c })
decode_state bs = none

abbrev encode_entry : Entry → Bytes
encode_entry one = 1 ∷ 0 ∷ []
encode_entry two = 2 ∷ 0 ∷ []
encode_entry other = 2 ∷ 1 ∷ []
encode_entry three = 3 ∷ 0 ∷ []
encode_entry four = 4 ∷ 0 ∷ []

abbrev decode_entry : Bytes → Option Entry
decode_entry (i ∷ variant ∷ []) =
    if i == 1
    then some one
    else if i == 2
    then (if variant == 0 then some two else some other)
    else if i == 3
    then some three
    else some four
decode_entry bs = none

abbrev codec : Codec Entry
codec = record {
  encode_state = encode_state;
  decode_state = decode_state;
  encode_entry = encode_entry;
  decode_entry = decode_entry;
}

decoded : (e : Entry) → decode_entry (encode_entry e) ≡ some e
decoded one = refl
decoded two = refl
decoded other = refl
decoded three = refl
decoded four = refl

short : (e : Entry) → length (encode_entry e) < 2 ^ 32
short one = omega arith
short two = omega arith
short other = omega arith
short three = omega arith
short four = omega arith

lawful : IsLawful codec
lawful = record {
  decode-encode_state = λ s. refl;
  decode-encode_entry = decoded;
  length-encode_entry = short;
}

above : (e : Entry) → 0 < index e
above one = omega arith
above two = omega arith
above other = omega arith
above three = omega arith
above four = omega arith

below : (e : Entry) → index e + 1 < 2 ^ 64
below one = omega arith
below two = omega arith
below other = omega arith
below three = omega arith
below four = omega arith

bounds : IsIndex index
bounds = record { positive = above; small = below }

abbrev layout : List (Part Entry)
layout = (1, one, two ∷ []) ∷ []

abbrev state : HardState
state = record { term = 1; vote = 1; commit = 1 }

abbrev wal : FileWal Entry
wal = record {
  state = state;
  entries = one ∷ two ∷ [];
  segments = segments_of index layout;
  opened = true;
}

abbrev directory : Directory
directory = record { hard_state = some (encode_state state); segment_files = files_of codec layout }

mirror : IsMirror codec index wal directory
unfolding load_state
mirror = record {
  layout = layout;
  files_same = refl;
  segments_same = refl;
  entries_same = refl;
  ordered = (tt, tt);
  state_same = refl;
}

wal-Run : Run index 1 wal.entries
wal-Run = (refl, (refl, tt))

abbrev newer : HardState
newer = record { term = 2; vote = 1; commit = 1 }

append-load_example :
    (append codec index 12 wal newer (other ∷ three ∷ []) directory
      >>= (λ v. open_wal codec index new_file_wal v.1 >>= load))
    ≡ ok ((with_state newer wal).state, merge_entries index wal.entries (other ∷ three ∷ []))
append-load_example =
    append-load codec index 12 bounds lawful 1 other (three ∷ []) newer wal directory mirror refl
      wal-Run (refl, (refl, tt)) (omega arith) (omega arith) (omega arith, (omega arith, tt))

truncate_prefix-load_example :
    (truncate_prefix codec index 12 wal 2 directory
      >>= (λ v. open_wal codec index new_file_wal v.1 >>= load))
    ≡ ok (state, two ∷ [])
truncate_prefix-load_example =
    truncate_prefix-load codec index 12 bounds lawful 2 1 wal directory mirror refl wal-Run

read_segment-torn_example :
    read_segment codec (records_of codec (one ∷ []) ++ take 5 (framed (encode_entry two)))
    ≡ (if ltb 5 4 then ok (one ∷ []) else err short_read)
unfolding framed put_big_endian
read_segment-torn_example = read_segment-torn codec lawful (one ∷ []) two 5 (omega arith)

-- The overwritten entry and the next one stand in a second segment, where the limit is eight.
rolled_over : Result WalError (List (ℕ × ℕ))
unfolding append
rolled_over = do
  (v, d) ← append codec index 8 wal newer (other ∷ three ∷ []) directory
  ok (map (λ (s : Segment). (s.first_index, s.last_index)) v.segments)

ranges : rolled_over ≡ ok ((1, 1) ∷ (2, 2) ∷ (3, 3) ∷ [])
unfolding rolled_over merge_entries put_big_endian
ranges = refl
