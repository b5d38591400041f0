-- ===== src/Storage/Pebble.antt =====
-- `PebbleStore` (internal/storage/pebble.go). Pebble itself is an interface, `Database`, and so is
-- the JSON of package encoding/json; what the store relies on is said in Storage.Pebble.Engine.
pub mod Engine
pub mod Prefix
pub mod Laws
pub mod Snapshot
pub mod Restore
pub mod Metadata
use stellmap_service.Base.{
  ℕ, zero, suc, ◌+◌, ◌-◌, ◌*◌, ◌/◌, ◌%◌, ◌^◌, ◌≤◌, ◌<◌, ◌≡◌, ◌≢◌, ◌↔◌, ◌⊎◌, inl, inr, refl, sym, ap,
  ap₂, ◌∙◌, subst, fun_ext, Bool, true, false, not, ◌&&◌, ◌||◌, List, [], ◌∷◌, ◌++◌, map, reverse,
  append-nil, append_assoc, reverse-append, reverse-reverse, Option, none, some, arith, ltb, leb,
  ◌==◌, if◌then◌else◌, ==_refl, ==→eq, Bool-cases, Option-cases, &&-true, length, take, drop,
  get_last?, select, any, All, length-append, length-drop, take-append-drop, select-append,
  length-select, All-append, ℤ, pos, negsuc, pos_part, neg_part, sub_ℕ, ◌+ℤ◌, ◌≤ℤ◌, int_leb,
  IsInt64, wrap_int64, wrap_int64_of_IsInt64, wrap_int64-IsInt64, Result, ok, err, ◌>>=◌,
  bind-eq-ok,
}
use stellmap_service.Text.{Bytes, eqb, codes}
use stellmap_service.Storage.{
  Operation, put, delete, delete_prefix, other, Command, Kv, MemberAddress,
}
use stellmap_service.Storage.Order.{lt_bytes}
use stellmap_service.Storage.Uint64.{encode_uint64, decode_uint64, format_uint}
use stellmap_service.Storage.Pebble.Engine.{
  Database, Json, StoreError, store_not_open, zero_node_id, bad_payload, bad_member, Write, set,
  remove, remove_range,
}

abbrev meta_prefix : Bytes
meta_prefix = codes "__meta__/"

abbrev pub meta_applied_index_key : Bytes
meta_applied_index_key = codes "__meta__/applied_index"

abbrev pub meta_applied_term_key : Bytes
meta_applied_term_key = codes "__meta__/applied_term"

abbrev pub meta_members_prefix : Bytes
meta_members_prefix = codes "__meta__/members/"

unfoldable pub is_meta_key : Bytes → Bool
is_meta_key key = leb 9 (length key) && eqb (take 9 key) meta_prefix

unfoldable pub member_address_key : ℕ → Bytes
member_address_key node_id = meta_members_prefix ++ format_uint node_id

unfoldable pub member_prefix_end : Bytes
member_prefix_end = meta_members_prefix ++ 0xFF ∷ []

-- the loop of `Scan` over the iterator, with the number of items so far
unfoldable pub collect_items : ℤ → ℕ → List (Bytes × Bytes) → List Kv
unfolding is_meta_key
collect_items limit n [] = []
collect_items limit n ((key, value) ∷ es) =
    let skipped = collect_items limit n es in
    let more = collect_items limit (n + 1) es in
    let item : Kv = record { key = key; value = value } in
    if is_meta_key key
    then skipped
    else if not (int_leb limit (pos 0)) && int_leb limit (pos (n + 1))
    then item ∷ []
    else item ∷ more

-- the writes of the batch that `Apply` commits, `none` for an unknown operation
unfoldable pub apply_writes : Operation → Command → Option (List Write)
apply_writes put cmd = some (set cmd.key cmd.value ∷ [])
apply_writes delete cmd = some (remove cmd.key ∷ [])
apply_writes delete_prefix cmd = some (remove_range cmd.prefix (cmd.prefix ++ 0xFF ∷ []) ∷ [])
apply_writes (other _) cmd = none

-- the insertion of `sort.Slice` by the key
unfoldable pub insert_item : Kv → List Kv → List Kv
insert_item i [] = i ∷ []
insert_item i (j ∷ js) = if lt_bytes j.key i.key then j ∷ insert_item i js else i ∷ j ∷ js

unfoldable pub sort_items : List Kv → List Kv
unfolding insert_item
sort_items [] = []
sort_items (i ∷ is) = insert_item i (sort_items is)

-- the insertion of `sort.Slice` by the node id
unfoldable pub insert_member : MemberAddress → List MemberAddress → List MemberAddress
insert_member m [] = m ∷ []
insert_member m (n ∷ ns) = if ltb n.node_id m.node_id then n ∷ insert_member m ns else m ∷ n ∷ ns

unfoldable pub sort_members : List MemberAddress → List MemberAddress
unfolding insert_member
sort_members [] = []
sort_members (m ∷ ms) = insert_member m (sort_members ms)

-- the deletions of the first loop of `Restore`
unfoldable pub remove_data : List (Bytes × Bytes) → List Write
unfolding is_meta_key
remove_data [] = []
remove_data ((key, value) ∷ es) =
    let rest = remove_data es in if is_meta_key key then rest else remove key ∷ rest

unfoldable pub remove_all : List (Bytes × Bytes) → List Write
remove_all [] = []
remove_all ((key, value) ∷ es) = remove key ∷ remove_all es

unfoldable pub set_items : List Kv → List Write
set_items [] = []
set_items (i ∷ is) = set i.key i.value ∷ set_items is

-- `path` is left out; `db` is `none` before `Open` and after `Close`
pub record PebbleStore (D : Type 0) : Type 0 where
  pub db : Option D

unfoldable pub opened : {D : Type 0} → Option D → Result StoreError D
opened none = err store_not_open
opened (some d) = ok d

unfoldable pub require_db : {D : Type 0} → PebbleStore D → Result StoreError D
unfolding opened
require_db s = opened s.db

-- `pebble.ErrNotFound` reads as no bytes, or as zero
unfoldable found_bytes : Option Bytes → Bytes
found_bytes none = []
found_bytes (some value) = value

unfoldable pub found_number : Option Bytes → ℕ
found_number none = 0
found_number (some value) = decode_uint64 value

module _ (json : Json) where
  unfoldable pub set_members : List MemberAddress → List Write
  unfolding member_address_key
  set_members [] = []
  set_members (m ∷ ms) = set (member_address_key m.node_id) (json.encode_member m) ∷ set_members ms

  -- the loop over the iterator
  unfoldable pub decode_members : List (Bytes × Bytes) → Result StoreError (List MemberAddress)
  decode_members [] = ok []
  decode_members ((key, value) ∷ es) = elim (json.decode_member value) [
    | none ↦ err bad_member
    | some m ↦ do ms ← decode_members es; ok (m ∷ ms)
  ]

  -- the older form is tried where the newer one does not parse
  unfoldable pub payload_of :
      Option (List Kv × List MemberAddress)
      → Option (List Kv)
      → Result StoreError (List Kv × List MemberAddress)
  payload_of (some payload) items = ok payload
  payload_of none (some items) = ok (items, [])
  payload_of none none = err bad_payload

  unfoldable pub decode_snapshot_payload : Bytes → Result StoreError (List Kv × List MemberAddress)
  unfolding payload_of
  decode_snapshot_payload bytes = payload_of (json.decode_payload bytes) (json.decode_items bytes)

module _ {D : Type 0} (pebble : Database D) where
  -- `MkdirAll` and `pebble.Open`, unless the store is open
  unfoldable open_store : PebbleStore D → Result StoreError (PebbleStore D)
  open_store s = elim s.db [
    | some d ↦ ok s
    | none ↦ do d ← pebble.open_database; ok (record { db = some d })
  ]

  -- the store behind `Close`, which drops the handle also when the closing fails
  unfoldable close_store : PebbleStore D → PebbleStore D
  close_store s = record { db = none }

  -- the commit behind the switch, which an unknown operation skips
  unfoldable pub commit_writes :
      PebbleStore D → D → Option (List Write) → Result StoreError (PebbleStore D × ℕ)
  commit_writes s d none = ok (s, 0)
  commit_writes s d (some ws) = do d' ← pebble.commit d ws; ok (record { db = some d' }, 1)

  -- the new store and `Modified`
  unfoldable pub apply_command : PebbleStore D → Command → Result StoreError (PebbleStore D × ℕ)
  unfolding require_db apply_writes commit_writes
  apply_command s cmd = do d ← require_db s; commit_writes s d (apply_writes cmd.operation cmd)

  -- a missing key reads as no bytes
  unfoldable get_key : PebbleStore D → Bytes → Result StoreError Bytes
  unfolding require_db found_bytes
  get_key s key = do d ← require_db s; found ← pebble.get d key; ok (found_bytes found)

  unfoldable pub scan_store :
      PebbleStore D → Option Bytes → Option Bytes → ℤ → Result StoreError (List Kv)
  unfolding require_db collect_items
  scan_store s start end limit = do
    d ← require_db s
    es ← pebble.iterate d start end
    ok (collect_items limit 0 es)

  -- a number under a key of the metadata, zero if there is none
  unfoldable pub get_number : PebbleStore D → Bytes → Result StoreError ℕ
  unfolding require_db found_number
  get_number s key = do d ← require_db s; found ← pebble.get d key; ok (found_number found)

  unfoldable pub set_number : PebbleStore D → Bytes → ℕ → Result StoreError (PebbleStore D)
  unfolding require_db
  set_number s key n = do
    d ← require_db s
    d' ← pebble.commit d (set key (encode_uint64 n) ∷ [])
    ok (record { db = some d' })

  unfoldable pub applied_index : PebbleStore D → Result StoreError ℕ
  unfolding get_number
  applied_index s = get_number s meta_applied_index_key

  unfoldable pub set_applied_index : PebbleStore D → ℕ → Result StoreError (PebbleStore D)
  unfolding set_number
  set_applied_index s n = set_number s meta_applied_index_key n

  unfoldable pub applied_term : PebbleStore D → Result StoreError ℕ
  unfolding get_number
  applied_term s = get_number s meta_applied_term_key

  unfoldable pub set_applied_term : PebbleStore D → ℕ → Result StoreError (PebbleStore D)
  unfolding set_number
  set_applied_term s n = set_number s meta_applied_term_key n

  module _ (json : Json) where
    unfoldable set_member_address :
        PebbleStore D → MemberAddress → Result StoreError (PebbleStore D)
    unfolding require_db
    set_member_address s m = do
      d ← require_db s
      if m.node_id == 0 then err zero_node_id else do
        d' ← pebble.commit d (set (member_address_key m.node_id) (json.encode_member m) ∷ [])
        ok (record { db = some d' })

    unfoldable delete_member_address : PebbleStore D → ℕ → Result StoreError (PebbleStore D)
    unfolding require_db
    delete_member_address s node_id = do
      d ← require_db s
      if node_id == 0 then err zero_node_id else do
        d' ← pebble.commit d (remove (member_address_key node_id) ∷ [])
        ok (record { db = some d' })

    unfoldable pub list_member_addresses : PebbleStore D → Result StoreError (List MemberAddress)
    unfolding require_db decode_members sort_members member_prefix_end
    list_member_addresses s = do
      d ← require_db s
      es ← pebble.iterate d (some meta_members_prefix) (some member_prefix_end)
      ms ← decode_members json es
      ok (sort_members ms)

    unfoldable pub snapshot : PebbleStore D → Result StoreError Bytes
    unfolding scan_store list_member_addresses sort_items
    snapshot s = do
      items ← scan_store s none none (pos 0)
      members ← list_member_addresses s
      ok (json.encode_payload (sort_items items) (sort_members members))

    unfoldable pub restore : PebbleStore D → Bytes → Result StoreError (PebbleStore D)
    unfolding require_db decode_snapshot_payload remove_data remove_all set_items set_members
    restore s raw = do
      d ← require_db s
      payload ← decode_snapshot_payload json raw
      es ← pebble.iterate d none none
      members ← pebble.iterate d (some meta_members_prefix) (some member_prefix_end)
      d' ← pebble.commit d (
          remove_data es
          ++ (remove_all members ++ (set_items payload.0 ++ set_members json payload.1)))
      ok (record { db = some d' })
