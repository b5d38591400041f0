-- ===== src/Wal/File/Records.antt =====
-- What `readSegment` makes of whole and of cut records.
use stellmap_service.Base.{
  ℕ, zero, suc, ◌+◌, ◌^◌, ◌≤◌, ◌<◌, ◌≡◌, ◌≢◌, inl, inr, refl, sym, ap, ◌∙◌, true, false, List, [],
  ◌∷◌, ◌++◌, append-nil, append_assoc, Option, none, some, arith, ltb, if◌then◌else◌, Bool-cases,
  length, take, drop, length-append, length-drop, Result, ok, err,
}
use stellmap_service.Text.{Bytes}
use stellmap_service.Storage.Uint64.{put_big_endian, big_endian, big_endian-put_big_endian}
use stellmap_service.Raftnode.Ready.{HardState}
use stellmap_service.Wal.File.{
  WalError, exhausted, short_read, Codec, framed, cons_entry, read_records, read_segment,
}
use stellmap_service.Wal.File.Methods.{records_of}

-- What raftpb promises of its codec. The bound is the one of the length prefix.
pub record IsLawful {E : Type 0} (codec : Codec E) : Type 0 where
  pub decode-encode_state : (s : HardState) → codec.decode_state (codec.encode_state s) ≡ some s
  pub decode-encode_entry : (e : E) → codec.decode_entry (codec.encode_entry e) ≡ some e
  pub length-encode_entry : (e : E) → length (codec.encode_entry e) < 2 ^ 32

pub take-append : {A : Type 0} (xs ys : List A) → take (length xs) (xs ++ ys) ≡ xs
take-append [] ys = refl
take-append (x ∷ xs) ys = ap (◌∷◌ x) (take-append xs ys)

pub drop-append : {A : Type 0} (xs ys : List A) → drop (length xs) (xs ++ ys) ≡ ys
drop-append [] ys = refl
drop-append (x ∷ xs) ys = drop-append xs ys

length-take_lt : {A : Type 0} (n : ℕ) (xs : List A) → n < length xs → length (take n xs) ≡ n
length-take_lt zero xs h = refl
length-take_lt (suc n) [] h = absurd (omega arith)
length-take_lt (suc n) (x ∷ xs) h = omega (arith, length-take_lt n xs (omega arith))

-- The four bytes of a length below 2 ^ 32.
size_read : (n : ℕ) → n < 2 ^ 32 → big_endian 0 (put_big_endian 4 n) ≡ n
size_read n h = big_endian-put_big_endian 4 n (omega arith)

module _ {E : Type 0} (codec : Codec E) where
  cons_entry-exhausted :
      (o : Option E) (r : Result WalError (List E))
      → r ≢ err exhausted
      → cons_entry codec o r ≢ err exhausted
  unfolding cons_entry
  cons_entry-exhausted none r h e = cc
  cons_entry-exhausted (some x) (ok es) h e = cc
  cons_entry-exhausted (some x) (err y) h e = h e

  read_records_enough :
      (fuel : ℕ) (bs : Bytes) → length bs < fuel → read_records codec fuel bs ≢ err exhausted
  unfolding read_records
  read_records_enough zero bs b = absurd (omega arith)
  read_records_enough (suc fuel) bs b =
      let size = big_endian 0 (take 4 bs) in
      elim (Bool-cases (ltb (length bs) 4)) [
        | inl short ↦ rw short (λ e. cc)
        | inr long ↦ elim (Bool-cases (ltb (length (drop 4 bs)) size)) [
          | inl torn ↦ rw (long, torn) (λ e. cc)
          | inr whole ↦
              let four : length (drop 4 bs) + 4 ≡ length bs = ground (arith, length-drop 4 bs) in
              let less : length (drop size (drop 4 bs)) < fuel =
                omega (arith, length-drop size (drop 4 bs)) in
              rw (long, whole) (cons_entry-exhausted _ _ (read_records_enough fuel _ less))
        ]
      ]

  -- The fuel of `readSegment` is enough for every file.
  read_segment_enough : (bs : Bytes) → read_segment codec bs ≢ err exhausted
  unfolding read_segment
  read_segment_enough bs = read_records_enough (suc (length bs)) bs (omega arith)

module _ {E : Type 0} (codec : Codec E) (lawful : IsLawful codec) where
  abbrev after_entries : List E → Result WalError (List E) → Result WalError (List E)
  after_entries es (ok xs) = ok (es ++ xs)
  after_entries es (err x) = err x

  cons_entry-after :
      (e : E) (es : List E) (r : Result WalError (List E))
      → cons_entry codec (some e) (after_entries es r) ≡ after_entries (e ∷ es) r
  unfolding cons_entry
  cons_entry-after e es (ok xs) = refl
  cons_entry-after e es (err x) = refl

  -- A record whose length is read, with what stands behind the length.
  read_sized :
      (fuel n : ℕ) (bs : Bytes)
      → n < 2 ^ 32
      → read_records codec (suc fuel) (put_big_endian 4 n ++ bs) ≡ (
          if ltb (length bs) n
          then err short_read
          else cons_entry codec
              (codec.decode_entry (take n bs))
              (read_records codec fuel (drop n bs)))
  unfolding read_records put_big_endian
  read_sized fuel n bs h =
      let long : ltb (suc (suc (suc (suc (length bs))))) 4 ≡ false = ground arith in
      rw (long, size_read n h) refl

  read_framed :
      (fuel : ℕ) (e : E) (bs : Bytes)
      → read_records codec (suc fuel) (framed (codec.encode_entry e) ++ bs)
        ≡ cons_entry codec (some e) (read_records codec fuel bs)
  unfolding framed
  read_framed fuel e bs =
      let r : Bytes = codec.encode_entry e in
      let whole : ltb (length (r ++ bs)) (length r) ≡ false = ground (arith, length-append r bs) in
      ap (read_records codec (suc fuel)) (append_assoc (put_big_endian 4 (length r)) r bs)
      ∙ read_sized fuel (length r) (r ++ bs) (lawful.length-encode_entry e)
      ∙ rw (whole, take-append r bs, drop-append r bs, lawful.decode-encode_entry e) refl

  read_records_of :
      (es : List E) (fuel : ℕ) (bs : Bytes) (r : Result WalError (List E))
      → ((f : ℕ) → 0 < f → read_records codec f bs ≡ r)
      → length es < fuel
      → read_records codec fuel (records_of codec es ++ bs) ≡ after_entries es r
  unfolding records_of
  read_records_of [] fuel bs (ok xs) h b = h fuel (omega arith)
  read_records_of [] fuel bs (err x) h b = h fuel (omega arith)
  read_records_of (e ∷ es) zero bs r h b = absurd (omega arith)
  read_records_of (e ∷ es) (suc fuel) bs r h b =
      ap (read_records codec (suc fuel))
        (append_assoc (framed (codec.encode_entry e)) (records_of codec es) bs)
      ∙ read_framed fuel e (records_of codec es ++ bs)
      ∙ ap (cons_entry codec (some e)) (read_records_of es fuel bs r h (omega arith))
      ∙ cons_entry-after e es r

  length-records_of : (es : List E) → length es ≤ length (records_of codec es)
  unfolding records_of framed put_big_endian
  length-records_of [] = omega arith
  length-records_of (e ∷ es) =
      let r : Bytes = codec.encode_entry e in
      omega (arith, length-append r (records_of codec es), length-records_of es)

  read_behind :
      (es : List E) (bs : Bytes) (r : Result WalError (List E))
      → ((f : ℕ) → 0 < f → read_records codec f bs ≡ r)
      → read_segment codec (records_of codec es ++ bs) ≡ after_entries es r
  unfolding read_segment
  read_behind es bs r h =
      read_records_of es (suc (length (records_of codec es ++ bs))) bs r h
        (omega (arith, length-append (records_of codec es) bs, length-records_of es))

  read_short : (bs : Bytes) → length bs < 4 → (f : ℕ) → 0 < f → read_records codec f bs ≡ ok []
  unfolding read_records
  read_short bs h zero p = absurd (omega arith)
  read_short bs h (suc f) p = let short : ltb (length bs) 4 ≡ true = ground arith in rw short refl

  -- A segment file reads as the entries that were written to it.
  pub read_segment-records_of : (es : List E) → read_segment codec (records_of codec es) ≡ ok es
  read_segment-records_of es =
      ap (read_segment codec) (sym (append-nil (records_of codec es)))
      ∙ read_behind es [] (ok []) (read_short [] (omega arith))
      ∙ ap ok (append-nil es)

  read_torn :
      (e : E) (cut : ℕ)
      → cut < length (codec.encode_entry e)
      → (f : ℕ) → 0 < f
      → read_records codec f
          (put_big_endian 4 (length (codec.encode_entry e)) ++ take cut (codec.encode_entry e))
        ≡ err short_read
  read_torn e cut h zero p = absurd (omega arith)
  read_torn e cut h (suc f) p =
      let r : Bytes = codec.encode_entry e in
      let torn : ltb (length (take cut r)) (length r) ≡ true =
        ground (arith, length-take_lt cut r h) in
      read_sized f (length r) (take cut r) (lawful.length-encode_entry e) ∙ rw torn refl

  -- A segment file whose last record reached the disk only in part: where its length is cut off,
  -- the file reads as the entries in front of it; where its length is whole, the file cannot be
  -- read.
  pub read_segment-torn :
      (es : List E) (e : E) (cut : ℕ)
      → cut < length (framed (codec.encode_entry e))
      → read_segment codec (records_of codec es ++ take cut (framed (codec.encode_entry e)))
        ≡ (if ltb cut 4 then ok es else err short_read)
  unfolding framed put_big_endian
  read_segment-torn es e (suc (suc (suc (suc cut)))) h =
      read_behind es _ (err short_read) (read_torn e cut (omega arith)) ∙ ground arith
  read_segment-torn es e cut h =
      read_behind es _ (ok []) (read_short _ (omega arith)) ∙ ap ok (append-nil es)
