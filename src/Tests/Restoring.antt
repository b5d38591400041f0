-- ===== src/Tests/Restoring.antt =====
-- The Pebble store over a database in memory: commands, a scan, numbers, and a snapshot restored.
use stellmap_service.Text.{Bytes, eqb, codes}
use stellmap_service.Storage.Pebble.Engine.{set, remove, IsPlain, in_bounds}
use stellmap_service.Storage.Order.{lt_bytes}
use stellmap_service.Storage.Memory.{sort_strings, insert_sorted, new_memory_state_machine, apply}
use stellmap_service.Storage.Uint64.{
  format_uint, put_decimal, encode_uint64, decode_uint64, put_big_endian, big_endian,
}
use stellmap_service.Tests.Database.{
  write_entries, Entries, content_of, map_database, map_database-IsDatabase,
}
use stellmap_service.Tests.Encoding.{
  put_string, read_string, put_member, read_member, put_members, read_members, put_items,
  read_items, read_payload, plain_json, plain_json-IsJson,
}
use stellmap_service.Storage.Pebble.{
  get_number, set_number, list_member_addresses, decode_members, sort_members, insert_member,
  member_prefix_end, sort_items, insert_item, collect_items, decode_snapshot_payload, payload_of,
  remove_data, remove_all, set_items, set_members, member_address_key, commit_writes, apply_writes,
  PebbleStore, apply_command, is_meta_key, applied_index, set_applied_index, applied_term,
  scan_store, snapshot, restore, require_db, opened, found_number, meta_applied_index_key,
}
use stellmap_service.Storage.Pebble.Laws.{store_content, held, Agrees, apply_command-Agrees}
use stellmap_service.Storage.Pebble.Metadata.{
  held_in, applied_index-set_applied_index, scan_store_lem,
}
use stellmap_service.Base.{
  ℕ, ◌≡◌, refl, sym, ◌∙◌, subst, false, not, ◌&&◌, List, [], ◌∷◌, map, none, some, arith,
  if◌then◌else◌, All, pos, ok,
}
use stellmap_service.GoMap.{lookup, insert}
use stellmap_service.Storage.{Command, Kv, put, MemberAddress}
use stellmap_service.Storage.Memory.Scan.{Ascending}
use stellmap_service.Storage.Memory.Scan.Complete.{find_item}
use stellmap_service.Storage.Pebble.Restore.{restore-snapshot, held_by}

abbrev empty_store : PebbleStore Entries
empty_store = record { db = some ([], tt) }

abbrev write_a : Command
write_a = record { operation = put; key = codes "/registry/a"; value = codes "1"; prefix = [] }

abbrev closed : PebbleStore Entries
closed = record { db = none }

abbrev key_a : Bytes
key_a = codes "/registry/a"

-- the store behind `write_a`
abbrev store_a : PebbleStore Entries
store_a = record { db = some (write_entries (set key_a (codes "1") ∷ []) ([], tt)) }

apply_command_a : apply_command map_database empty_store write_a ≡ ok (store_a, 1)
unfolding apply_command require_db opened commit_writes apply_writes
apply_command_a = refl

empty-Agrees :
    Agrees map_database content_of map_database-IsDatabase new_memory_state_machine empty_store
unfolding store_content held lookup new_memory_state_machine
empty-Agrees key clean = refl

apply_command-Agrees_example :
    Agrees map_database content_of map_database-IsDatabase
      (apply new_memory_state_machine write_a).0
      store_a
apply_command-Agrees_example =
    apply_command-Agrees map_database content_of map_database-IsDatabase new_memory_state_machine
      empty_store write_a empty-Agrees apply_command_a

abbrev member_7 : MemberAddress
member_7 = record { node_id = 7; http_addr = codes "h:1"; grpc_addr = codes "g:2"; admin_addr = [] }

-- the second store holds another key
abbrev store_b : PebbleStore Entries
store_b = record { db = some (write_entries (set (codes "/registry/b") (codes "2") ∷ []) ([], tt)) }

-- the first store with the address of a member
abbrev store_c : PebbleStore Entries
store_c = record {
  db = some (
      write_entries
        (set key_a (codes "1")
          ∷ set (codes "__meta__/members/7") (plain_json.encode_member member_7)
          ∷ [])
        ([], tt));
}

members_c : list_member_addresses map_database plain_json store_c ≡ ok (member_7 ∷ [])
unfolding list_member_addresses require_db opened decode_members sort_members insert_member lookup
    insert eqb lt_bytes sort_strings insert_sorted member_prefix_end put_member put_string
    read_member read_string
members_c = refl

abbrev written_c : Bytes
written_c =
    plain_json.encode_payload (record { key = key_a; value = codes "1" } ∷ []) (member_7 ∷ [])

snapshot_c : snapshot map_database plain_json store_c ≡ ok written_c
unfolding snapshot scan_store collect_items is_meta_key list_member_addresses require_db opened
    decode_members sort_members insert_member sort_items insert_item lookup insert eqb lt_bytes
    sort_strings insert_sorted member_prefix_end put_member put_string read_member read_string
snapshot_c = refl

abbrev restored : PebbleStore Entries
restored = record {
  db = some (
      write_entries
        (remove (codes "/registry/b")
          ∷ set key_a (codes "1")
          ∷ set (codes "__meta__/members/7") (plain_json.encode_member member_7)
          ∷ [])
        (write_entries (set (codes "/registry/b") (codes "2") ∷ []) ([], tt)));
}

restored_b : restore map_database plain_json store_b written_c ≡ ok restored
unfolding restore require_db opened decode_snapshot_payload payload_of remove_data remove_all
    set_items set_members member_address_key format_uint put_decimal is_meta_key lookup insert eqb
    lt_bytes sort_strings insert_sorted member_prefix_end put_member put_string read_member
    read_string read_payload read_items read_members put_items put_members
restored_b = refl

members-IsPlain :
    (ms : List MemberAddress)
    → list_member_addresses map_database plain_json store_c ≡ ok ms
    → All IsPlain ms
members-IsPlain ms h =
    let same : member_7 ∷ [] ≡ ms = let q = sym members_c ∙ h in cc q in
    subst (λ l. All IsPlain l) same
      (
        (
          (omega arith, (omega arith, (omega arith, tt))),
          (omega arith, (omega arith, (omega arith, tt))),
          tt,
        ),
        tt,
      )

key_a_plain : is_meta_key key_a ≡ false
unfolding is_meta_key eqb
key_a_plain = refl

restore-snapshot_example :
    held_by map_database content_of plain_json map_database-IsDatabase plain_json-IsJson restored
      key_a
    ≡ held_by map_database content_of plain_json map_database-IsDatabase plain_json-IsJson store_c
        key_a
restore-snapshot_example =
    restore-snapshot map_database content_of plain_json map_database-IsDatabase plain_json-IsJson
      store_c store_b members-IsPlain snapshot_c restored_b key_a key_a_plain

scan_c :
    scan_store map_database store_c none none (pos 0)
    ≡ ok (record { key = key_a; value = codes "1" } ∷ [])
unfolding scan_store collect_items is_meta_key require_db opened lookup insert eqb lt_bytes
    sort_strings insert_sorted
scan_c = refl

scan_store_lem_example :
    Ascending (map (λ (i : Kv). i.key) (record { key = key_a; value = codes "1" } ∷ []))
    × (pos 0 ≡ pos 0
        → (key : Bytes)
        → find_item key (record { key = key_a; value = codes "1" } ∷ []) ≡ (
            if in_bounds none none key && not (is_meta_key key)
            then held_in map_database content_of map_database-IsDatabase store_c key
            else none))
scan_store_lem_example =
    scan_store_lem map_database content_of map_database-IsDatabase store_c none none (pos 0) scan_c

abbrev five : ℕ
five = 5

abbrev zero_term : ℕ
zero_term = 0

-- the first store at index 5
abbrev store_5 : PebbleStore Entries
store_5 = record {
  db = some (
      write_entries (set meta_applied_index_key (encode_uint64 5) ∷ [])
        (write_entries (set key_a (codes "1") ∷ []) ([], tt)));
}

set_5 : set_applied_index map_database store_a 5 ≡ ok store_5
unfolding set_applied_index set_number require_db opened
set_5 = refl

index_5 : applied_index map_database store_5 ≡ ok 5
unfolding applied_index get_number require_db opened found_number lookup insert eqb encode_uint64
    put_big_endian decode_uint64 big_endian
index_5 = refl

term_0 : applied_term map_database store_a ≡ ok 0
unfolding applied_term get_number require_db opened found_number lookup insert eqb
term_0 = refl

term_5 : applied_term map_database store_5 ≡ ok 0
unfolding applied_term get_number require_db opened found_number lookup insert eqb
term_5 = refl

applied_index-set_applied_index_example :
    (five ≡ five)
    × (zero_term ≡ zero_term)
    × ((key : Bytes)
        → is_meta_key key ≡ false
        → held_in map_database content_of map_database-IsDatabase store_5 key
          ≡ held_in map_database content_of map_database-IsDatabase store_a key)
applied_index-set_applied_index_example =
    applied_index-set_applied_index map_database content_of map_database-IsDatabase store_a 5
      (omega arith) set_5 index_5 term_0 term_5
