-- ===== src/Storage/Pebble/Engine.antt =====
-- What the store asks of Pebble and of encoding/json, as their documentation says it.
use stellmap_service.Base.{
  ◌<◌, ◌≡◌, Bool, true, not, ◌&&◌, List, [], ◌∷◌, map, Option, none, some, if◌then◌else◌, All,
  Result, ok,
}
use stellmap_service.Text.{Bytes, eqb}
use stellmap_service.GoMap.{lookup}
use stellmap_service.Storage.{Kv, MemberAddress}
use stellmap_service.Storage.Order.{lt_bytes}
use stellmap_service.Storage.Memory.Scan.{Ascending}
use stellmap_service.Storage.Memory.Laws.{Content}

pub data StoreError : Type 0 where
  store_not_open zero_node_id bad_payload bad_member io_error : StoreError

-- one write of a batch
pub data Write : Type 0 where
  set : Bytes → Bytes → Write
  remove : Bytes → Write
  remove_range : Bytes → Bytes → Write

-- `commit` is a batch that is committed as one, or a single `Set` or `Delete`; `iterate` is what an
-- iterator with the two bounds visits.
pub record Database (D : Type 0) : Type 0 where
  pub open_database : Result StoreError D
  pub get : D → Bytes → Result StoreError (Option Bytes)
  pub iterate : D → Option Bytes → Option Bytes → Result StoreError (List (Bytes × Bytes))
  pub commit : D → List Write → Result StoreError D

-- the lower bound is inclusive, the upper one exclusive
abbrev pub in_bounds : Option Bytes → Option Bytes → Bytes → Bool
in_bounds none none key = true
in_bounds (some low) none key = not (lt_bytes key low)
in_bounds none (some high) key = lt_bytes key high
in_bounds (some low) (some high) key = not (lt_bytes key low) && lt_bytes key high

abbrev pub write_one : Write → Content → Content
write_one (set k v) f key = if eqb k key then some v else f key
write_one (remove k) f key = if eqb k key then none else f key
write_one (remove_range low high) f key =
    if not (lt_bytes key low) && lt_bytes key high then none else f key

-- the later writes of a batch win
abbrev pub write_all : List Write → Content → Content
write_all [] f = f
write_all (w ∷ ws) f = write_all ws (write_one w f)

-- What a database holds, and that the four operations agree with it when they succeed.
pub record IsDatabase {D : Type 0} (pebble : Database D) (content : D → Content) : Type 0 where
  pub get-content :
      (d : D) (key : Bytes) {found : Option Bytes}
      → pebble.get d key ≡ ok found
      → found ≡ content d key
  pub iterate-content :
      (d : D) (low high : Option Bytes) {es : List (Bytes × Bytes)}
      → pebble.iterate d low high ≡ ok es
      → (key : Bytes) → lookup key es ≡ (if in_bounds low high key then content d key else none)
  pub iterate-Ascending :
      (d : D) (low high : Option Bytes) {es : List (Bytes × Bytes)}
      → pebble.iterate d low high ≡ ok es
      → Ascending (map (λ e. e.0) es)
  pub commit-content :
      (d : D) (ws : List Write) {d' : D}
      → pebble.commit d ws ≡ ok d'
      → (key : Bytes) → content d' key ≡ write_all ws (content d) key

-- `encoding/json` on the two values that the store encodes. `decode_items` reads the older form of
-- a snapshot.
pub record Json : Type 0 where
  pub encode_member : MemberAddress → Bytes
  pub decode_member : Bytes → Option MemberAddress
  pub encode_payload : List Kv → List MemberAddress → Bytes
  pub decode_payload : Bytes → Option (List Kv × List MemberAddress)
  pub decode_items : Bytes → Option (List Kv)

abbrev IsAscii : Bytes → Type 0
IsAscii = All (λ b. b < 128)

abbrev pub IsPlain : MemberAddress → Type 0
IsPlain m = IsAscii m.http_addr × IsAscii m.grpc_addr × IsAscii m.admin_addr

-- Strings survive if they are valid UTF-8, of which ASCII is enough here; byte slices are written
-- in base 64 and survive in any case.
pub record IsJson (json : Json) : Type 0 where
  pub decode_member-encode_member :
      (m : MemberAddress) → IsPlain m → json.decode_member (json.encode_member m) ≡ some m
  pub decode_payload-encode_payload :
      (items : List Kv) (members : List MemberAddress)
      → All IsPlain members
      → json.decode_payload (json.encode_payload items members) ≡ some (items, members)
