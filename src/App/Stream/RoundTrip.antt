-- ===== src/App/Stream/RoundTrip.antt =====
-- What the server writes of a watch is what the replicating member reads.
use stellmap_service.Base.{
  ℕ, ◌+◌, ◌^◌, ◌<◌, ◌≡◌, ◌≢◌, refl, sym, ap, ◌∙◌, subst, Bool, true, false, List, [], ◌∷◌, ◌++◌,
  reverse, append-nil, append_assoc, reverse-append, reverse-reverse, Option, none, some, arith,
  ltb, leb, length, All, Result, ok,
}
use stellmap_service.Text.{Bytes, codes, trim, trim_prefix, has_prefix, last_width}
use stellmap_service.Text.Trim.{last_width_cr, IsTrimmed, trim_of_IsTrimmed, trim-IsTrimmed}
use stellmap_service.Storage.Uint64.{format_uint}
use stellmap_service.Storage.Digits.{
  trim-format_uint, trim-blank, AreDigits, format_uint-AreDigits, length-format_uint,
}
use stellmap_service.Transport.Sse.{write_sse_event, write_sse_ping}
use stellmap_service.App.Stream.{
  is_nil, ReplicationSseEvent, no_event, Applied, Stream, StreamError, read_field, read_line,
  end_event, apply_new, parse_revision, run_replication_stream, max_line, scan_lines, read_lines,
  drop_cr, drop_front_cr,
}
use stellmap_service.Text.Split.{Lacks}

-- What the server writes: events, and pings in between.
abbrev pub sent : List (Option Applied) → Bytes
sent [] = []
sent (none ∷ xs) = write_sse_ping ++ sent xs
sent (some a ∷ xs) = write_sse_event a.revision a.kind a.payload ++ sent xs

abbrev pub events : List (Option Applied) → List Applied
events [] = []
events (none ∷ xs) = events xs
events (some a ∷ xs) = a ∷ events xs

-- An event that its lines can hold: kind and payload are trimmed, not empty and without a newline,
-- and fit the buffer of the scanner with the names of their fields.
pub record IsWritable (a : Applied) : Type 0 where
  pub kind_trimmed : IsTrimmed a.kind
  pub kind_given : a.kind ≢ []
  pub kind_in_line : Lacks 10 a.kind
  pub kind_fits : 7 + length a.kind < max_line
  pub payload_trimmed : IsTrimmed a.payload
  pub payload_given : a.payload ≢ []
  pub payload_in_line : Lacks 10 a.payload
  pub payload_fits : 6 + length a.payload < max_line
  pub revision_fits : a.revision < 2 ^ 64

-- The revisions grow, above `low`.
abbrev Newer : ℕ → List Applied → Type 0
Newer low [] = Unit
Newer low (a ∷ rest) = (low < a.revision) × Newer a.revision rest

read_id :
    (n : ℕ) (e : ReplicationSseEvent)
    → read_field (codes "id: " ++ format_uint n) e ≡ record e { id = format_uint n }
unfolding read_field trim_prefix has_prefix
read_id n e =
    ap (λ (s : Bytes). record e { id = s }) (trim-blank (format_uint n) ∙ trim-format_uint n)

read_event :
    (kind : Bytes) (e : ReplicationSseEvent)
    → IsTrimmed kind
    → read_field (codes "event: " ++ kind) e ≡ record e { event = kind }
unfolding read_field trim_prefix has_prefix
read_event kind e h =
    ap (λ (s : Bytes). record e { event = s }) (trim-blank kind ∙ trim_of_IsTrimmed kind h)

read_payload :
    (payload : Bytes) (e : ReplicationSseEvent)
    → IsTrimmed payload
    → read_field (codes "data: " ++ payload) e ≡ record e { payload = payload }
unfolding read_field trim_prefix has_prefix
read_payload payload e h =
    ap (λ (s : Bytes). record e { payload = s }) (trim-blank payload ∙ trim_of_IsTrimmed payload h)

scan_lines-append :
    (line rest : Bytes) → Lacks 10 line → scan_lines (line ++ (10 ∷ rest)) ≡ line ∷ scan_lines rest
unfolding scan_lines
scan_lines-append [] rest h = refl
scan_lines-append (b ∷ line) rest (h, hs) = rw h (rw (scan_lines-append line rest hs))

drop_front_cr_kept :
    (r q : Bytes) → last_width r ≡ 0 → drop_front_cr q ≡ q → drop_front_cr (r ++ q) ≡ r ++ q
drop_front_cr_kept [] q h k = k
drop_front_cr_kept (c ∷ r) q h k = rw (last_width_cr c r h) refl

-- A line keeps its end where its value is trimmed.
drop_cr_kept :
    (name value : Bytes)
    → IsTrimmed value
    → drop_front_cr (reverse name) ≡ reverse name
    → drop_cr (name ++ value) ≡ name ++ value
drop_cr_kept name value h k =
    ap (λ (r : Bytes). reverse (drop_front_cr r)) (reverse-append name value)
    ∙ ap reverse (drop_front_cr_kept (reverse value) (reverse name) h.back k)
    ∙ ap reverse (sym (reverse-append name value))
    ∙ reverse-reverse (name ++ value)

written_lines :
    (x y z rest : Bytes)
    → (x ++ (10 ∷ (y ++ (10 ∷ (z ++ (10 ∷ 10 ∷ [])))))) ++ rest
      ≡ x ++ (10 ∷ (y ++ (10 ∷ (z ++ (10 ∷ 10 ∷ rest)))))
written_lines x y z rest =
    append_assoc x _ rest
    ∙ ap (λ (b : Bytes). x ++ (10 ∷ b))
        (append_assoc y _ rest
          ∙ ap (λ (b : Bytes). y ++ (10 ∷ b)) (append_assoc z (10 ∷ 10 ∷ []) rest))

Lacks-AreDigits : (s : Bytes) → AreDigits s → Lacks 10 s
Lacks-AreDigits [] a = tt
Lacks-AreDigits (b ∷ s) ((h, q), a) = (ground arith, Lacks-AreDigits s a)

module _ (scan : Bytes → Option ℕ)
    (scans : (n : ℕ) → n < 2 ^ 64 → scan (format_uint n) ≡ some n) where
  abbrev accepts : Applied → Bool
  accepts a = true

  event_ended :
      (a : Applied) (rev : ℕ) (done : List Applied)
      → IsWritable a
      → rev < a.revision
      → end_event scan accepts (record {
        current = record { id = format_uint a.revision; event = a.kind; payload = a.payload };
        current_revision = rev;
        applied = done;
      })
        ≡ ok
            (record { current = no_event; current_revision = a.revision; applied = done ++ a ∷ [] })
  unfolding end_event parse_revision apply_new
  event_ended a rev done w newer =
      let named : is_nil a.kind ≡ false = filled a.kind w.kind_given in
      let given : is_nil a.payload ≡ false = filled a.payload w.payload_given in
      let number : scan (trim (format_uint a.revision)) ≡ some a.revision =
        ap scan (trim-format_uint a.revision) ∙ scans a.revision w.revision_fits in
      let fresh : ltb rev a.revision ≡ true = ground arith in
      rw (named, given, number, apply_new, fresh) refl
    where
      filled : (s : Bytes) → s ≢ [] → is_nil s ≡ false
      filled [] ne = absurd (ne refl)
      filled (b ∷ bs) ne = refl

  abbrev run : Bytes → Stream → Result StreamError Stream
  run = run_replication_stream scan accepts

  one_line :
      (line rest : Bytes) (s s' : Stream)
      → Lacks 10 line
      → length line < max_line
      → drop_cr line ≡ line
      → read_line scan accepts line s ≡ ok s'
      → run (line ++ (10 ∷ rest)) s ≡ run rest s'
  unfolding run_replication_stream read_lines
  one_line line rest s s' whole fits kept h =
      let room : leb max_line (length line) ≡ false = ground arith in
      ap (λ (ls : List Bytes). read_lines scan accepts ls s) (scan_lines-append line rest whole)
      ∙ rw (room, kept, h) refl

  ping_read :
      (rev : ℕ) (done : List Applied) (rest : Bytes)
      → run
          (write_sse_ping ++ rest)
          (record { current = no_event; current_revision = rev; applied = done })
        ≡ run rest (record { current = no_event; current_revision = rev; applied = done })
  unfolding write_sse_ping read_line read_field end_event has_prefix
  ping_read rev done rest =
      let s : Stream = record { current = no_event; current_revision = rev; applied = done } in
      one_line (codes ": ping") (10 ∷ rest) s s (refl, (refl, (refl, (refl, (refl, (refl, tt))))))
        (omega arith) refl refl
      ∙ one_line [] rest s s tt (omega arith) refl refl

  event_read :
      (a : Applied) (rev : ℕ) (done : List Applied) (rest : Bytes)
      → IsWritable a
      → rev < a.revision
      → run
          (write_sse_event a.revision a.kind a.payload ++ rest)
          (record { current = no_event; current_revision = rev; applied = done })
        ≡ run rest
            (record { current = no_event; current_revision = a.revision; applied = done ++ a ∷ [] })
  unfolding write_sse_event read_line
  event_read a rev done rest w newer =
      let n = format_uint a.revision in
      let id_line : Bytes = codes "id: " ++ n in
      let event_line : Bytes = codes "event: " ++ a.kind in
      let payload_line : Bytes = codes "data: " ++ a.payload in
      let e1 : ReplicationSseEvent = record { id = n; event = []; payload = [] } in
      let e2 : ReplicationSseEvent = record { id = n; event = a.kind; payload = [] } in
      let e3 : ReplicationSseEvent = record { id = n; event = a.kind; payload = a.payload } in
      let in_state : ReplicationSseEvent → Stream =
        λ e. record { current = e; current_revision = rev; applied = done } in
      let digits = format_uint-AreDigits a.revision in
      let trimmed : IsTrimmed n =
        subst IsTrimmed (trim-format_uint a.revision) (trim-IsTrimmed n) in
      let size = length-format_uint a.revision in
      ap (λ (b : Bytes). run b (in_state no_event))
        (written_lines id_line event_line payload_line rest)
      ∙ one_line id_line _ (in_state no_event) (in_state e1)
          (refl, (refl, (refl, (refl, Lacks-AreDigits n digits)))) (omega (arith, size))
          (drop_cr_kept (codes "id: ") n trimmed refl)
          (ap (λ (e : ReplicationSseEvent). ok (in_state e)) (read_id a.revision no_event))
      ∙ one_line event_line _ (in_state e1) (in_state e2)
          (refl, (refl, (refl, (refl, (refl, (refl, (refl, w.kind_in_line)))))))
          (let f = w.kind_fits in omega (arith, f))
          (drop_cr_kept (codes "event: ") a.kind w.kind_trimmed refl)
          (ap (λ (e : ReplicationSseEvent). ok (in_state e)) (read_event a.kind e1 w.kind_trimmed))
      ∙ one_line payload_line _ (in_state e2) (in_state e3)
          (refl, (refl, (refl, (refl, (refl, (refl, w.payload_in_line))))))
          (let f = w.payload_fits in omega (arith, f))
          (drop_cr_kept (codes "data: ") a.payload w.payload_trimmed refl)
          (ap (λ (e : ReplicationSseEvent). ok (in_state e))
            (read_payload a.payload e2 w.payload_trimmed))
      ∙ one_line [] rest (in_state e3) _ tt (omega arith) refl (event_ended a rev done w newer)

  -- A watch that the server writes, with pings anywhere between its events, is read by the
  -- replicating member from the bytes as the same events in the same order. Their revisions grow
  -- above the one it has and fit a `uint64`, and applying them succeeds; their kinds and payloads are not empty, have
  -- no newline and no white space at their ends, and each line is shorter than the ten mebibytes
  -- of the scanner's buffer.
  pub run_replication_stream-sent :
      (xs : List (Option Applied)) (rev : ℕ) (done : List Applied)
      → All IsWritable (events xs)
      → Newer rev (events xs)
      → (last : ℕ) × (run_replication_stream scan accepts
            (sent xs)
            (record { current = no_event; current_revision = rev; applied = done })
          ≡ ok
              (record { current = no_event; current_revision = last; applied = done ++ events xs }))
  unfolding run_replication_stream scan_lines read_lines
  run_replication_stream-sent [] rev done a n = (rev, rw append-nil refl)
  run_replication_stream-sent (none ∷ xs) rev done a n =
      let (last, h) = run_replication_stream-sent xs rev done a n in
      (last, ping_read rev done (sent xs) ∙ h)
  run_replication_stream-sent (some x ∷ xs) rev done (w, a) (newer, n) =
      let (last, h) = run_replication_stream-sent xs x.revision (done ++ x ∷ []) a n in
      (
        last,
        event_read x rev done (sent xs) w newer
            ∙ h
            ∙ ap
                (λ (l : List Applied).
                  ok (record { current = no_event; current_revision = last; applied = l }))
                (append_assoc done (x ∷ []) (events xs)),
      )
