-- ===== src/Wal/File/Writing.antt =====
-- `appendEntriesIncremental` keeps the files and the segments one.
use stellmap_service.Base.{
  ℕ, ◌+◌, ◌-◌, ◌%◌, ◌^◌, ◌<◌, ◌≡◌, ◌⊎◌, inl, inr, refl, ap, ◌∙◌, false, ◌&&◌, List, [], ◌∷◌, ◌++◌,
  Option, none, some, arith, ltb, ◌==◌, if◌then◌else◌, ==_refl, Bool-cases, length, All, Result, ok,
  ◌>>=◌,
}
use mathlib.Core.Option
use stellmap_service.Text.{Bytes}
use stellmap_service.Wal.File.{
  WalError, Codec, Segment, SegmentFiles, file_content, put_file, extend_file, framed,
}
use stellmap_service.Wal.File.Writer.{
  Writer, optional, create_segment, started, reach_index, append_record, rolled, write_entry,
}
use stellmap_service.Wal.File.Mirror.{Part, Ordered, segment_for, segments_of, files_of}

abbrev pub optional_part : {E : Type 0} → Option (Part E) → List (Part E)
optional_part none = []
optional_part (some p) = p ∷ []

-- all files have smaller numbers
abbrev pub Below : ℕ → SegmentFiles → Type 0
Below n fs = All (λ f. f.0 < n) fs

file_content_last :
    (n : ℕ) (bs : Bytes) (fs : SegmentFiles)
    → Below n fs
    → file_content n (fs ++ (n, bs) ∷ []) ≡ some bs
unfolding file_content
file_content_last n bs [] b = rw (==_refl n) refl
file_content_last n bs ((j, cs) ∷ fs) (h, b) =
    let ne : (j == n) ≡ false = ground arith in rw ne (file_content_last n bs fs b)

put_file_last :
    (n : ℕ) (bs : Bytes) (fs : SegmentFiles) → Below n fs → put_file n bs fs ≡ fs ++ (n, bs) ∷ []
unfolding put_file
put_file_last n bs [] b = refl
put_file_last n bs ((j, cs) ∷ fs) (h, b) =
    let ne : (n == j) ≡ false = ground arith in
    let ge : ltb n j ≡ false = ground arith in
    rw (ne, ge) (ap (◌∷◌ (j, cs)) (put_file_last n bs fs b))

extend_file_last :
    (n : ℕ) (bs cs : Bytes) (fs : SegmentFiles)
    → Below n fs
    → extend_file n bs (fs ++ (n, cs) ∷ []) ≡ fs ++ (n, cs ++ bs) ∷ []
unfolding extend_file
extend_file_last n bs cs [] b = rw (==_refl n) refl
extend_file_last n bs cs ((j, ds) ∷ fs) (h, b) =
    let ne : (j == n) ≡ false = ground arith in
    rw ne (ap (◌∷◌ (j, ds)) (extend_file_last n bs cs fs b))

module _ {E : Type 0} (codec : Codec E) (index : E → ℕ) (limit : ℕ) where
  -- the writer with a new segment that holds one entry
  abbrev pub in_new : E → Writer → Writer
  in_new e w = record {
    front = w.front ++ optional w.last_segment;
    last_segment = some (record { id = w.next_id; first_index = index e; last_index = index e });
    next_id = (w.next_id + 1) % 2 ^ 64;
    files = w.files ++ (w.next_id, framed (codec.encode_entry e)) ∷ [];
  }

  reach_created :
      (i id l : ℕ)
      → reach_index i (record { id = id; first_index = i; last_index = l })
        ≡ record { id = id; first_index = i; last_index = i }
  unfolding reach_index
  reach_created i id l =
      ap (λ (k : ℕ). record { id = id; first_index = k; last_index = i }) (ground arith)

  append_record_at :
      (i : ℕ) (bs cs : Bytes) (fs : SegmentFiles) (w : Writer) (s : Segment)
      → w.files ≡ fs ++ (s.id, cs) ∷ []
      → Below s.id fs
      → append_record i bs w (some s)
        ≡ ok (record w {
          last_segment = some (reach_index i s);
          files = fs ++ (s.id, cs ++ framed bs) ∷ [];
        })
  unfolding append_record
  append_record_at i bs cs fs w s h b =
      let found : file_content s.id w.files ≡ some cs =
        ap (file_content s.id) h ∙ file_content_last s.id cs fs b in
      rw (append_record, found)
        (ap
          (λ (files : SegmentFiles).
            ok (record w { last_segment = some (reach_index i s); files = files }))
          (ap (extend_file s.id (framed bs)) h ∙ extend_file_last s.id (framed bs) cs fs b))

  rolled_at :
      (i size : ℕ) (cs : Bytes) (fs : SegmentFiles) (w : Writer) (s : Segment)
      → w.files ≡ fs ++ (s.id, cs) ∷ []
      → Below s.id fs
      → rolled limit i size w (some s)
        ≡ ok (if ltb 0 (length cs) && ltb limit (length cs + size) then create_segment i w else w)
  unfolding rolled
  rolled_at i size cs fs w s h b =
      let found : file_content s.id w.files ≡ some cs =
        ap (file_content s.id) h ∙ file_content_last s.id cs fs b in
      rw (rolled, found) refl

  files-create_segment :
      (i : ℕ) (w : Writer)
      → Below w.next_id w.files
      → (create_segment i w).files ≡ w.files ++ (w.next_id, []) ∷ []
  unfolding create_segment
  files-create_segment i w b = put_file_last w.next_id [] w.files b

  -- the loop's body behind the test for a last segment
  append_at_end : E → Writer → Result WalError Writer
  append_at_end e w = append_record (index e) (codec.encode_entry e) w w.last_segment

  append_at_end_new :
      (e : E) (w : Writer)
      → Below w.next_id w.files
      → append_at_end e (create_segment (index e) w) ≡ ok (in_new e w)
  unfolding append_at_end create_segment
  append_at_end_new e w b =
      append_record_at (index e) (codec.encode_entry e) [] w.files (create_segment (index e) w)
        (record {
          id = w.next_id;
          first_index = index e;
          last_index = (index e + (2 ^ 64 - 1)) % 2 ^ 64;
        })
        (files-create_segment (index e) w b) b
      ∙ ap (λ (s : Segment). ok (record (in_new e w) { last_segment = some s }))
          (reach_created (index e) w.next_id ((index e + (2 ^ 64 - 1)) % 2 ^ 64))

  -- the loop's body with a writer that has a last segment
  body : E → Writer → Result WalError Writer
  body e w =
      rolled limit (index e) (4 + length (codec.encode_entry e)) w w.last_segment
      >>= append_at_end e

  -- without a last segment
  pub write_entry_first :
      (e : E) (w : Writer)
      → w.last_segment ≡ none
      → Below w.next_id w.files
      → write_entry codec index limit e w ≡ ok (in_new e w)
  unfolding write_entry started create_segment append_at_end body
  write_entry_first e w h b =
      let r =
        rolled_at (index e) (4 + length (codec.encode_entry e)) [] w.files
          (create_segment (index e) w)
          (record {
            id = w.next_id;
            first_index = index e;
            last_index = (index e + (2 ^ 64 - 1)) % 2 ^ 64;
          })
          (files-create_segment (index e) w b) b in
      ap (λ (l : Option Segment). body e (started (index e) w l)) h
      ∙ ap (λ (m : Result WalError Writer). m >>= append_at_end e) r
      ∙ append_at_end_new e w b

  -- the writer with the entry in its last segment
  abbrev pub in_last : E → Segment → SegmentFiles → Bytes → Writer → Writer
  in_last e s fs cs w = record w {
    last_segment = some (reach_index (index e) s);
    files = fs ++ (s.id, cs ++ framed (codec.encode_entry e)) ∷ [];
  }

  -- with a last segment: into a new one, or into this one
  pub write_entry_next :
      (e : E) (w : Writer) (s : Segment) (fs : SegmentFiles) (cs : Bytes)
      → w.last_segment ≡ some s
      → w.files ≡ fs ++ (s.id, cs) ∷ []
      → Below s.id fs
      → Below w.next_id w.files
      → (write_entry codec index limit e w ≡ ok (in_new e w))
        ⊎ (write_entry codec index limit e w ≡ ok (in_last e s fs cs w))
  unfolding write_entry started append_at_end body
  write_entry_next e w s fs cs h same low b =
      let size : ℕ = 4 + length (codec.encode_entry e) in
      let opening = ap (λ (l : Option Segment). body e (started (index e) w l)) h in
      let r = ap (rolled limit (index e) size w) h ∙ rolled_at (index e) size cs fs w s same low in
      elim (Bool-cases (ltb 0 (length cs) && ltb limit (length cs + size))) [
        | inl full ↦ inl (
            opening
            ∙ ap (λ (m : Result WalError Writer). m >>= append_at_end e) (rw full at r)
            ∙ append_at_end_new e w b)
        | inr fits ↦ inr (
            opening
            ∙ ap (λ (m : Result WalError Writer). m >>= append_at_end e) (rw fits at r)
            ∙ ap (append_record (index e) (codec.encode_entry e) w) h
            ∙ append_record_at (index e) (codec.encode_entry e) cs fs w s same low)
      ]

  -- The writer's segments and files are those of a layout, the last segment its last part, and new
  -- segments get larger numbers.
  pub record Writes (w : Writer) (ps : List (Part E)) (last : Option (Part E)) : Type 0 where
    pub front_same : w.front ≡ segments_of index ps
    pub last_same : w.last_segment ≡ Option.map (segment_for index) last
    pub files_same : w.files ≡ files_of codec (ps ++ optional_part last)
    pub below : All (λ p. p.0 < w.next_id) (ps ++ optional_part last)
    pub ordered : Ordered (ps ++ optional_part last)
