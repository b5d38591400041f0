-- ===== src/Runtime/AddressBook.antt =====
-- internal/runtime/address_book.go. A map from node ids to addresses is the list of its entries;
-- the lock makes each method one step.
use stellmap_service.Base.{
  ℕ, ◌≡◌, inl, inr, refl, ap, ◌∙◌, not, ◌&&◌, List, [], ◌∷◌, arith, ◌==◌, if◌then◌else◌, Bool-cases,
}
use stellmap_service.Text.{Bytes, eqb}

abbrev pub AddressMap : Type 0
AddressMap = List (ℕ × Bytes)

-- `m[id]`, where a missing id reads as the empty address
unfoldable pub address : ℕ → AddressMap → Bytes
address id [] = []
address id ((j, a) ∷ m) = if j == id then a else address id m

-- `m[id] = addr`
unfoldable pub put_address : ℕ → Bytes → AddressMap → AddressMap
put_address id addr [] = (id, addr) ∷ []
put_address id addr ((j, a) ∷ m) =
    if j == id then (id, addr) ∷ m else (j, a) ∷ put_address id addr m

-- `delete(m, id)`
unfoldable pub delete_address : ℕ → AddressMap → AddressMap
delete_address id [] = []
delete_address id ((j, a) ∷ m) =
    let rest = delete_address id m in if j == id then rest else (j, a) ∷ rest

-- the loop that copies a map into `copied`
unfoldable copy_into : AddressMap → AddressMap → AddressMap
unfolding put_address
copy_into copied [] = copied
copy_into copied ((id, addr) ∷ m) = copy_into (put_address id addr copied) m

pub record AddressBook : Type 0 where
  pub http_by_id : AddressMap
  pub grpc_by_id : AddressMap
  pub admin_by_id : AddressMap

unfoldable new_address_book : AddressMap → AddressMap → AddressMap → AddressBook
unfolding copy_into
new_address_book http grpc admin = record {
  http_by_id = copy_into [] http;
  grpc_by_id = copy_into [] grpc;
  admin_by_id = copy_into [] admin;
}

unfoldable pub http_addr : ℕ → AddressBook → Bytes
http_addr id b = address id b.http_by_id

unfoldable pub grpc_addr : ℕ → AddressBook → Bytes
grpc_addr id b = address id b.grpc_by_id

unfoldable pub admin_addr : ℕ → AddressBook → Bytes
admin_addr id b = address id b.admin_by_id

-- `if addr != "" { m[id] = addr }`
unfoldable pub set_address : ℕ → Bytes → AddressMap → AddressMap
set_address id addr m = if not (eqb addr []) then put_address id addr m else m

unfoldable pub set : ℕ → Bytes → Bytes → Bytes → AddressBook → AddressBook
unfolding set_address
set id http grpc admin b = record {
  http_by_id = set_address id http b.http_by_id;
  grpc_by_id = set_address id grpc b.grpc_by_id;
  admin_by_id = set_address id admin b.admin_by_id;
}

unfoldable pub delete : ℕ → AddressBook → AddressBook
delete id b = record {
  http_by_id = delete_address id b.http_by_id;
  grpc_by_id = delete_address id b.grpc_by_id;
  admin_by_id = delete_address id b.admin_by_id;
}

unfoldable snapshot_http : AddressBook → AddressMap
snapshot_http b = copy_into [] b.http_by_id

unfoldable snapshot_grpc : AddressBook → AddressMap
snapshot_grpc b = copy_into [] b.grpc_by_id

unfoldable snapshot_admin : AddressBook → AddressMap
snapshot_admin b = copy_into [] b.admin_by_id

address-put_address :
    (id j : ℕ) (addr : Bytes) (m : AddressMap)
    → address j (put_address id addr m) ≡ (if id == j then addr else address j m)
unfolding address put_address
address-put_address id j addr [] = refl
address-put_address id j addr ((i, a) ∷ m) = ground (arith, address-put_address id j addr m)

address-delete_address :
    (id j : ℕ) (m : AddressMap)
    → address j (delete_address id m) ≡ (if id == j then [] else address j m)
unfolding address delete_address
address-delete_address id j [] = ground arith
address-delete_address id j ((i, a) ∷ m) = ground (arith, address-delete_address id j m)

pub address-set_address :
    (id j : ℕ) (addr : Bytes) (m : AddressMap)
    → address j (set_address id addr m)
      ≡ (if id == j && not (eqb addr []) then addr else address j m)
unfolding set_address
address-set_address id j addr m = ground (arith, address-put_address id j addr m)

-- What the book holds for a node: its three addresses.
abbrev pub addresses : ℕ → AddressBook → Bytes × Bytes × Bytes
addresses id b = (http_addr id b, grpc_addr id b, admin_addr id b)

abbrev updated : Bytes → Bytes → Bytes
updated new old = if eqb new [] then old else new

triple :
    {a a' b b' c c' : Bytes}
    → a ≡ a'
    → b ≡ b'
    → c ≡ c'
    → ◌≡◌ {A = Bytes × Bytes × Bytes} (a, b, c) (a', b', c')
triple {a} {a'} {b} {b'} {c} {c'} p q r =
    ap (λ (x : Bytes). (x, b, c)) p
    ∙ ap (λ (x : Bytes). (a', x, c)) q
    ∙ ap (λ (x : Bytes). (a', b', x)) r

updated_lem : (new old : Bytes) → (if not (eqb new []) then new else old) ≡ updated new old
updated_lem new old = ground arith

-- `Set` replaces those addresses of its node that are given and keeps all others; `Delete` empties
-- the three addresses of its node and keeps all others.
set-delete-addresses :
    (id j : ℕ) (http grpc admin : Bytes) (b : AddressBook)
    → (addresses j (set id http grpc admin b) ≡ (
        if id == j
        then (
          updated http (http_addr j b),
          updated grpc (grpc_addr j b),
          updated admin (admin_addr j b),
        )
        else addresses j b))
      × (addresses j (delete id b) ≡ (if id == j then ([], [], []) else addresses j b))
unfolding set delete http_addr grpc_addr admin_addr
set-delete-addresses id j http grpc admin b =
    let h = address-set_address id j http b.http_by_id in
    let g = address-set_address id j grpc b.grpc_by_id in
    let a = address-set_address id j admin b.admin_by_id in
    let h' = address-delete_address id j b.http_by_id in
    let g' = address-delete_address id j b.grpc_by_id in
    let a' = address-delete_address id j b.admin_by_id in
    elim (Bool-cases (id == j)) [
      | inl same ↦
          rw (h, g, a, h', g', a', same)
            (
              triple (updated_lem http (address j b.http_by_id))
                  (updated_lem grpc (address j b.grpc_by_id))
                  (updated_lem admin (address j b.admin_by_id)),
              refl,
            )
      | inr other ↦ rw (h, g, a, h', g', a', other) (refl, refl)
    ]
