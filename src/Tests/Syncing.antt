-- ===== src/Tests/Syncing.antt =====
-- A round of the cleanup, the events of a batch, and a replication stream.
use stellmap_service.Base.{
  ℕ, ◌+◌, ◌^◌, ◌≤◌, ◌<◌, ◌≡◌, refl, ap, Bool, true, false, List, [], ◌∷◌, ◌++◌, map, Option, none,
  some, arith, length, All, pos, ok,
}
use stellmap_service.Text.{Bytes, codes, first_width, last_width}
use stellmap_service.Storage
use stellmap_service.Storage.{Command, Kv}
use stellmap_service.App.Stream.RoundTrip.{IsWritable, sent, run_replication_stream-sent}
use stellmap_service.Storage.Uint64.{format_uint, decimal_value, decimal_value-format_uint}
use stellmap_service.Tests.Registration.{registered}
use stellmap_service.Registry.Types.{Value}
use stellmap_service.Registry.Watch.{WatchHub, new_watch_hub, replay_since}
use stellmap_service.Registry.Watch.History.{later_than}
use stellmap_service.Raftnode.Ready.{Entry, entry_normal, leader}
use stellmap_service.Raftnode.Node.{Status}
use stellmap_service.App.Cleanup.{
  clean_items, clean_items_lem, expired_commands, Begins, is_registry_cleanup_leader,
}
use stellmap_service.App.Events.{publish_entries, publish_entries_replay, events_of}
use stellmap_service.App.Stream.{Applied, no_event, run_replication_stream, scan_lines, drop_cr}

abbrev pub leading : Status
leading = record {
  node_id = 1;
  cluster_id = 1;
  leader_id = 1;
  role = leader;
  applied_index = 0;
  commit_index = 0;
  started = true;
  stopped = false;
}

abbrev nothing_decoded : Bytes → Option Value
nothing_decoded bs = none

abbrev expired_decoded : Bytes → Option Value
expired_decoded bs = some registered

abbrev one_instance : List (Kv × Status × Bool)
one_instance = (record { key = codes "/registry/a"; value = [] }, leading, false) ∷ []

clean_items_lem_example :
    Begins
      (clean_items expired_decoded (pos 2000000) (pos 3) 0 one_instance).0
      (expired_commands expired_decoded (pos 2000000) (map (λ i. i.0) one_instance))
    × (0 + length one_instance ≤ 3
        → All (λ i. (is_registry_cleanup_leader i.1 ≡ true) × (i.2 ≡ false)) one_instance
        → clean_items expired_decoded (pos 2000000) (pos 3) 0 one_instance
          ≡ (expired_commands expired_decoded (pos 2000000) (map (λ i. i.0) one_instance), false))
clean_items_lem_example = clean_items_lem expired_decoded (pos 2000000) 3 0 one_instance

abbrev delete_decoded : Bytes → Option Command
delete_decoded bs = some (record {
  operation = Storage.delete;
  key = codes "/registry/n/s/" ++ bs;
  value = [];
  prefix = [];
})

abbrev batch : List Entry
batch =
    record { index = 4; term = 1; entry_type = entry_normal; payload = codes "i" }
    ∷ record { index = 5; term = 1; entry_type = entry_normal; payload = codes "j" }
    ∷ []

publish_entries_replay_example :
    (h' : WatchHub) × (publish_entries delete_decoded nothing_decoded (some new_watch_hub) batch
      ≡ some h')
    × (replay_since h'.history 3 ≡ (events_of delete_decoded nothing_decoded batch, true)
        → events_of delete_decoded nothing_decoded batch
          ≡ later_than 3 (events_of delete_decoded nothing_decoded batch))
publish_entries_replay_example =
    publish_entries_replay delete_decoded nothing_decoded batch 3 (omega arith, (omega arith, tt))

scan_digits : (n : ℕ) → n < 2 ^ 64 → some (decimal_value 0 (format_uint n)) ≡ some n
scan_digits n h = ap some (decimal_value-format_uint n h)

abbrev upsert_9 : Applied
upsert_9 = record { kind = codes "upsert"; revision = 9; payload = codes "x" }

upsert_9-IsWritable : IsWritable upsert_9
unfolding first_width last_width
upsert_9-IsWritable = record {
  kind_trimmed = record { front = refl; back = refl };
  kind_given = λ e. cc e;
  kind_in_line = (refl, (refl, (refl, (refl, (refl, (refl, tt))))));
  kind_fits = omega arith;
  payload_trimmed = record { front = refl; back = refl };
  payload_given = λ e. cc e;
  payload_in_line = (refl, tt);
  payload_fits = omega arith;
  revision_fits = omega arith;
}

run_replication_stream-sent_example :
    (last : ℕ) × (run_replication_stream
        (λ s. some (decimal_value 0 s))
        (λ a. true)
        (sent (none ∷ some upsert_9 ∷ []))
        (record { current = no_event; current_revision = 2; applied = [] })
      ≡ ok (record { current = no_event; current_revision = last; applied = upsert_9 ∷ [] }))
run_replication_stream-sent_example =
    run_replication_stream-sent (λ s. some (decimal_value 0 s)) scan_digits
      (none ∷ some upsert_9 ∷ []) 2 [] (upsert_9-IsWritable, tt) (omega arith, tt)

-- A carriage return in front of the newline is no part of the line, and the last line needs no
-- newline.
lines_scanned :
    scan_lines (codes "id:" ++ (13 ∷ 10 ∷ 10 ∷ codes "x"))
    ≡ (codes "id:" ++ (13 ∷ [])) ∷ [] ∷ codes "x" ∷ []
unfolding scan_lines
lines_scanned = refl

return_dropped : drop_cr (codes "id:" ++ (13 ∷ [])) ≡ codes "id:"
return_dropped = refl
