-- ===== src/App/Stream.antt =====
-- The lines of a replication stream (`runReplicationStream` and `parseRevision` of
-- internal/app/replication.go), on the bytes of the body of the response, and the scanner that cuts
-- them into lines. `fmt.Sscanf` is a parameter; so is whether the application of an event succeeds.
pub mod RoundTrip
use stellmap_service.Base.{
  ℕ, zero, suc, ◌+◌, ◌-◌, ◌*◌, ◌/◌, ◌%◌, ◌^◌, ◌≤◌, ◌<◌, ◌≡◌, ◌≢◌, ◌↔◌, ◌⊎◌, inl, inr, refl, sym, ap,
  ap₂, ◌∙◌, subst, fun_ext, Bool, true, false, not, ◌&&◌, ◌||◌, List, [], ◌∷◌, ◌++◌, map, reverse,
  append-nil, append_assoc, reverse-append, reverse-reverse, Option, none, some, arith, ltb, leb,
  ◌==◌, if◌then◌else◌, ==_refl, ==→eq, Bool-cases, Option-cases, &&-true, length, take, drop,
  get_last?, select, any, All, length-append, length-drop, take-append-drop, select-append,
  length-select, All-append, ℤ, pos, negsuc, pos_part, neg_part, sub_ℕ, ◌+ℤ◌, ◌≤ℤ◌, int_leb,
  IsInt64, wrap_int64, wrap_int64_of_IsInt64, wrap_int64-IsInt64, Result, ok, err, ◌>>=◌,
  bind-eq-ok,
}
use stellmap_service.Text.{cons_head, Bytes, codes, eqb, trim, trim_prefix, has_prefix}

pub record ReplicationSseEvent : Type 0 where
  pub id : Bytes
  pub event : Bytes
  pub payload : Bytes

abbrev pub no_event : ReplicationSseEvent
no_event = record { id = []; event = []; payload = [] }

-- an event that is handed to `applyReplicationEvent`
pub record Applied : Type 0 where
  pub kind : Bytes
  pub revision : ℕ
  pub payload : Bytes

pub data StreamError : Type 0 where
  bad_revision apply_failed too_long : StreamError

pub record Stream : Type 0 where
  pub current : ReplicationSseEvent
  pub current_revision : ℕ
  pub applied : List Applied

abbrev pub is_nil : Bytes → Bool
is_nil [] = true
is_nil (b ∷ bs) = false

-- The buffer of the scanner: a line fits with the byte behind it.
abbrev pub max_line : ℕ
max_line = 10 * 1024 * 1024

-- `bufio.ScanLines`: what follows the last newline is a line if it is not empty
unfoldable pub scan_lines : Bytes → List Bytes
scan_lines [] = []
scan_lines (b ∷ bs) = let rest = scan_lines bs in if b == 10 then [] ∷ rest else cons_head b rest

-- a carriage return, in front of a line that is given from back to front
abbrev pub drop_front_cr : Bytes → Bytes
drop_front_cr [] = []
drop_front_cr (b ∷ bs) = if b == 13 then bs else b ∷ bs

abbrev pub drop_cr : Bytes → Bytes
drop_cr line = reverse (drop_front_cr (reverse line))

unfoldable pub parse_revision : (Bytes → Option ℕ) → Bytes → Option ℕ
parse_revision scan raw = scan (trim raw)

-- one of the three fields, or a line that is passed over
unfoldable pub read_field : Bytes → ReplicationSseEvent → ReplicationSseEvent
read_field line e =
    if has_prefix line (codes ":")
    then e
    else if has_prefix line (codes "id:")
    then record e { id = trim (trim_prefix line (codes "id:")) }
    else if has_prefix line (codes "event:")
    then record e { event = trim (trim_prefix line (codes "event:")) }
    else if has_prefix line (codes "data:")
    then record e { payload = trim (trim_prefix line (codes "data:")) }
    else e

module _ (scan : Bytes → Option ℕ) (applies : Applied → Bool) where
  -- an event with its revision: those that are not newer are passed over
  unfoldable pub apply_new : Option ℕ → Stream → Result StreamError Stream
  apply_new none s = err bad_revision
  apply_new (some revision) s =
      let a : Applied = record {
        kind = s.current.event;
        revision = revision;
        payload = s.current.payload;
      } in
      if ltb s.current_revision revision
      then if applies a
        then ok (record {
          current = no_event;
          current_revision = revision;
          applied = s.applied ++ a ∷ [];
        })
        else err apply_failed
      else ok (record s { current = no_event })

  -- an empty line ends an event
  unfoldable pub end_event : Stream → Result StreamError Stream
  unfolding apply_new parse_revision
  end_event s =
      if not (is_nil s.current.event) && not (is_nil s.current.payload)
      then apply_new (parse_revision scan s.current.id) s
      else ok (record s { current = no_event })

  unfoldable pub read_line : Bytes → Stream → Result StreamError Stream
  unfolding end_event read_field
  read_line [] s = end_event s
  read_line (b ∷ bs) s = ok (record s { current = read_field (b ∷ bs) s.current })

  -- the loop on the lines; one that does not fit the buffer ends it
  unfoldable pub read_lines : List Bytes → Stream → Result StreamError Stream
  unfolding read_line
  read_lines [] s = ok s
  read_lines (line ∷ lines) s =
      let rest = read_line (drop_cr line) s >>= read_lines lines in
      if leb max_line (length line) then err too_long else rest

  unfoldable pub run_replication_stream : Bytes → Stream → Result StreamError Stream
  unfolding read_lines scan_lines
  run_replication_stream body s = read_lines (scan_lines body) s
