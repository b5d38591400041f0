-- ===== src/App/Members.antt =====
-- `restorePersistedMemberAddresses` (internal/app/app.go): the address book after a restart.
use stellmap_service.Base.{
  ℕ, ◌≡◌, inl, inr, refl, sym, ◌∙◌, Bool, not, ◌&&◌, List, [], ◌∷◌, arith, ◌==◌, if◌then◌else◌,
  ==→eq, Bool-cases,
}
use stellmap_service.Text.{Bytes, eqb}
use stellmap_service.Text.Split.{eqb_iff}
use stellmap_service.Storage.{MemberAddress}
use stellmap_service.Runtime.AddressBook
use stellmap_service.Runtime.AddressBook.{
  AddressMap, AddressBook, address, set_address, set, address-set_address,
}

-- the address that the book has, or the persisted one where it has none
unfoldable pub or_persisted : Bytes → Bytes → Bytes
or_persisted current persisted = if eqb current [] then persisted else current

-- the body of the loop
unfoldable pub restore_member_address : MemberAddress → AddressBook → AddressBook
unfolding or_persisted set
restore_member_address m b =
    if m.node_id == 0
    then b
    else set m.node_id (or_persisted (AddressBook.http_addr m.node_id b) m.http_addr)
        (or_persisted (AddressBook.grpc_addr m.node_id b) m.grpc_addr)
        (or_persisted (AddressBook.admin_addr m.node_id b) m.admin_addr) b

-- with what the store lists, where that does not fail
unfoldable pub restore_persisted_member_addresses : List MemberAddress → AddressBook → AddressBook
unfolding restore_member_address
restore_persisted_member_addresses [] b = b
restore_persisted_member_addresses (m ∷ ms) b =
    restore_persisted_member_addresses ms (restore_member_address m b)

-- the first address that is not empty, or the empty one
abbrev pub first_given : List Bytes → Bytes
first_given [] = []
first_given (a ∷ more) = let rest = first_given more in if eqb a [] then rest else a

-- a persisted entry for a node; 0 is no node
abbrev is_of : ℕ → MemberAddress → Bool
is_of id m = m.node_id == id && not (m.node_id == 0)

abbrev pub persisted_for : ℕ → (MemberAddress → Bytes) → List MemberAddress → List Bytes
persisted_for id f [] = []
persisted_for id f (m ∷ ms) =
    let rest = persisted_for id f ms in if is_of id m then f m ∷ rest else rest

or_persisted_kept :
    (current a : Bytes)
    → (if not (eqb (or_persisted current a) []) then or_persisted current a else current)
      ≡ or_persisted current a
unfolding or_persisted
or_persisted_kept current a = elim (Bool-cases (eqb current [])) [
  | inr given ↦ rw (given, given) refl
  | inl blank ↦ elim (Bool-cases (eqb a [])) [
    | inr persisted ↦ rw (blank, persisted) refl
    | inl none_too ↦
        rw (blank, none_too) ((eqb_iff current []).0 blank ∙ sym ((eqb_iff a []).0 none_too))
  ]
]

address-or_persisted :
    (id j : ℕ) (a : Bytes) (m : AddressMap)
    → address j (set_address id (or_persisted (address id m) a) m)
      ≡ (if id == j then or_persisted (address j m) a else address j m)
address-or_persisted id j a m = elim (Bool-cases (id == j)) [
  | inr other ↦ address-set_address id j (or_persisted (address id m) a) m ∙ rw other refl
  | inl same ↦
      let e : id ≡ j = ==→eq id j same in
      address-set_address id j (or_persisted (address id m) a) m
      ∙ rw (same, e) (or_persisted_kept (address j m) a)
]

first_given-or_persisted :
    (current a : Bytes) (more : List Bytes)
    → first_given (or_persisted current a ∷ more) ≡ first_given (current ∷ a ∷ more)
unfolding or_persisted
first_given-or_persisted current a more = elim (Bool-cases (eqb current [])) [
  | inl blank ↦ rw blank refl
  | inr given ↦ rw given (rw given refl)
]

first_one : (a : Bytes) → a ≡ first_given (a ∷ [])
first_one a = elim (Bool-cases (eqb a [])) [
  | inl blank ↦ rw blank ((eqb_iff a []).0 blank)
  | inr given ↦ rw given refl
]

-- a loop that changes one of the three maps the way the body does
filled :
    (c : ℕ → AddressBook → Bytes) (f : MemberAddress → Bytes) (j : ℕ)
    → ((m : MemberAddress) (b : AddressBook)
        → c j (restore_member_address m b)
          ≡ (if is_of j m then or_persisted (c j b) (f m) else c j b))
    → (ms : List MemberAddress) (b : AddressBook)
    → c j (restore_persisted_member_addresses ms b) ≡ first_given (c j b ∷ persisted_for j f ms)
unfolding restore_persisted_member_addresses
filled c f j step [] b = first_one (c j b)
filled c f j step (m ∷ ms) b =
    filled c f j step ms (restore_member_address m b) ∙ elim (Bool-cases (is_of j m)) [
      | inl own ↦ rw (step m b, own) (first_given-or_persisted (c j b) (f m) (persisted_for j f ms))
      | inr other ↦ rw (step m b, other) refl
    ]

http_step :
    (j : ℕ) (m : MemberAddress) (b : AddressBook)
    → AddressBook.http_addr j (restore_member_address m b) ≡ (
        if is_of j m
        then or_persisted (AddressBook.http_addr j b) m.http_addr
        else AddressBook.http_addr j b)
unfolding restore_member_address set AddressBook.http_addr
http_step j m b = elim (Bool-cases (m.node_id == 0)) [
  | inl zero_node ↦ rw zero_node (ground arith)
  | inr real ↦ rw real (ground (arith, address-or_persisted m.node_id j m.http_addr b.http_by_id))
]

grpc_step :
    (j : ℕ) (m : MemberAddress) (b : AddressBook)
    → AddressBook.grpc_addr j (restore_member_address m b) ≡ (
        if is_of j m
        then or_persisted (AddressBook.grpc_addr j b) m.grpc_addr
        else AddressBook.grpc_addr j b)
unfolding restore_member_address set AddressBook.grpc_addr
grpc_step j m b = elim (Bool-cases (m.node_id == 0)) [
  | inl zero_node ↦ rw zero_node (ground arith)
  | inr real ↦ rw real (ground (arith, address-or_persisted m.node_id j m.grpc_addr b.grpc_by_id))
]

admin_step :
    (j : ℕ) (m : MemberAddress) (b : AddressBook)
    → AddressBook.admin_addr j (restore_member_address m b) ≡ (
        if is_of j m
        then or_persisted (AddressBook.admin_addr j b) m.admin_addr
        else AddressBook.admin_addr j b)
unfolding restore_member_address set AddressBook.admin_addr
admin_step j m b = elim (Bool-cases (m.node_id == 0)) [
  | inl zero_node ↦ rw zero_node (ground arith)
  | inr real ↦ rw real (ground (arith, address-or_persisted m.node_id j m.admin_addr b.admin_by_id))
]

-- After the persisted addresses are restored the book has, for every node but 0, of each of the three
-- addresses the one that it had before, or where this is empty the first one persisted for the node
-- that is not empty. The addresses of node 0 stay as they were.
pub restore_persisted_member_addresses_lem :
    (ms : List MemberAddress) (b : AddressBook) (j : ℕ)
    → (AddressBook.http_addr j (restore_persisted_member_addresses ms b)
        ≡ first_given (AddressBook.http_addr j b ∷ persisted_for j (λ m. m.http_addr) ms))
      × (AddressBook.grpc_addr j (restore_persisted_member_addresses ms b)
          ≡ first_given (AddressBook.grpc_addr j b ∷ persisted_for j (λ m. m.grpc_addr) ms))
      × (AddressBook.admin_addr j (restore_persisted_member_addresses ms b)
          ≡ first_given (AddressBook.admin_addr j b ∷ persisted_for j (λ m. m.admin_addr) ms))
restore_persisted_member_addresses_lem ms b j = (
  filled AddressBook.http_addr (λ m. m.http_addr) j (http_step j) ms b,
  filled AddressBook.grpc_addr (λ m. m.grpc_addr) j (grpc_step j) ms b,
  filled AddressBook.admin_addr (λ m. m.admin_addr) j (admin_step j) ms b,
)
