-- ===== src/Tests/Encoding.antt =====
-- An encoding of members and items in place of JSON, which has the laws that the store asks for. Each
-- string stands behind its length.
use stellmap_service.Base.{
  ℕ, zero, suc, ◌≡◌, refl, ap, List, [], ◌∷◌, ◌++◌, Option, none, some, length, take, drop,
}
use stellmap_service.Text.{Bytes}
use stellmap_service.Storage.{Kv, MemberAddress}
use stellmap_service.Storage.Pebble.Engine.{Json, IsJson}

unfoldable pub put_string : Bytes → Bytes → Bytes
put_string s rest = length s ∷ (s ++ rest)

-- a string, and what is behind it
unfoldable pub read_string : Bytes → Bytes × Bytes
read_string [] = ([], [])
read_string (n ∷ bs) = (take n bs, drop n bs)

read_string-put_string : (s rest : Bytes) → read_string (put_string s rest) ≡ (s, rest)
unfolding put_string read_string
read_string-put_string [] rest = refl
read_string-put_string (b ∷ s) rest =
    let ih = read_string-put_string s rest in ap (λ (p : Bytes × Bytes). (b ∷ p.0, p.1)) ih

unfoldable pub put_member : MemberAddress → Bytes → Bytes
put_member m rest =
    m.node_id ∷ put_string m.http_addr (put_string m.grpc_addr (put_string m.admin_addr rest))

unfoldable pub read_member : Bytes → MemberAddress × Bytes
read_member [] = (record { node_id = 0; http_addr = []; grpc_addr = []; admin_addr = [] }, [])
read_member (n ∷ bs) =
    let (http, bs1) = read_string bs in
    let (grpc, bs2) = read_string bs1 in
    let (admin, bs3) = read_string bs2 in
    (record { node_id = n; http_addr = http; grpc_addr = grpc; admin_addr = admin }, bs3)

read_member-put_member :
    (m : MemberAddress) (rest : Bytes) → read_member (put_member m rest) ≡ (m, rest)
unfolding put_member read_member
read_member-put_member m rest = rw (
  read_string-put_string m.http_addr (put_string m.grpc_addr (put_string m.admin_addr rest)),
  read_string-put_string m.grpc_addr (put_string m.admin_addr rest),
  read_string-put_string m.admin_addr rest,
)

unfoldable pub put_members : List MemberAddress → Bytes → Bytes
put_members [] rest = rest
put_members (m ∷ ms) rest = put_member m (put_members ms rest)

unfoldable pub read_members : ℕ → Bytes → List MemberAddress
read_members zero bs = []
read_members (suc n) bs = let (m, rest) = read_member bs in m ∷ read_members n rest

read_members-put_members :
    (ms : List MemberAddress) (rest : Bytes) → read_members (length ms) (put_members ms rest) ≡ ms
unfolding put_members read_members
read_members-put_members [] rest = refl
read_members-put_members (m ∷ ms) rest =
    rw (read_member-put_member m (put_members ms rest))
      (ap (◌∷◌ m) (read_members-put_members ms rest))

unfoldable pub put_items : List Kv → Bytes → Bytes
put_items [] rest = rest
put_items (i ∷ is) rest = put_string i.key (put_string i.value (put_items is rest))

unfoldable pub read_items : ℕ → Bytes → List Kv × Bytes
read_items zero bs = ([], bs)
read_items (suc n) bs =
    let (key, bs1) = read_string bs in
    let (value, bs2) = read_string bs1 in
    let (is, rest) = read_items n bs2 in (record { key = key; value = value } ∷ is, rest)

read_items-put_items :
    (is : List Kv) (rest : Bytes) → read_items (length is) (put_items is rest) ≡ (is, rest)
unfolding put_items read_items
read_items-put_items [] rest = refl
read_items-put_items (i ∷ is) rest = rw (
  read_string-put_string i.key (put_string i.value (put_items is rest)),
  read_string-put_string i.value (put_items is rest),
  read_items-put_items is rest,
)

unfoldable pub read_payload : Bytes → Option (List Kv × List MemberAddress)
read_payload (a ∷ b ∷ bs) = let (is, rest) = read_items a bs in some (is, read_members b rest)
read_payload _ = none

abbrev pub plain_json : Json
plain_json = record {
  encode_member = λ m. put_member m [];
  decode_member = λ bs. some (read_member bs).0;
  encode_payload = λ is ms. length is ∷ length ms ∷ put_items is (put_members ms []);
  decode_payload = read_payload;
  decode_items = λ bs. none;
}

read_payload-put :
    (is : List Kv) (ms : List MemberAddress)
    → read_payload (length is ∷ length ms ∷ put_items is (put_members ms [])) ≡ some (is, ms)
unfolding read_payload
read_payload-put is ms =
    rw (read_items-put_items is (put_members ms []), read_members-put_members ms [])

pub plain_json-IsJson : IsJson plain_json
plain_json-IsJson = record {
  decode_member-encode_member =
      λ m h. ap (λ (r : MemberAddress × Bytes). some r.0) (read_member-put_member m []);
  decode_payload-encode_payload = λ is ms h. read_payload-put is ms;
}
