-- ===== src/Tests/Addressing.antt =====
-- An address book of two nodes.
use stellmap_service.Base.{◌≡◌, refl, List, [], ◌∷◌}
use stellmap_service.Text.{codes, eqb}
use stellmap_service.Storage.{MemberAddress}
use stellmap_service.App.Members.{
  or_persisted, restore_member_address, restore_persisted_member_addresses, first_given,
  persisted_for, restore_persisted_member_addresses_lem,
}
use stellmap_service.Runtime.AddressBook.{
  put_address, address, AddressBook, addresses, http_addr, grpc_addr, admin_addr, set,
}

abbrev book : AddressBook
book = record {
  http_by_id = (1, codes "a:80") ∷ (2, codes "b:80") ∷ [];
  grpc_by_id = (1, codes "a:90") ∷ [];
  admin_by_id = [];
}

abbrev persisted : List MemberAddress
persisted =
    record { node_id = 2; http_addr = codes "old:80"; grpc_addr = codes "b:90"; admin_addr = [] }
    ∷ record { node_id = 0; http_addr = codes "z"; grpc_addr = []; admin_addr = [] }
    ∷ []

restore_persisted_member_addresses_lem_example :
    (http_addr 2 (restore_persisted_member_addresses persisted book)
      ≡ first_given (http_addr 2 book ∷ persisted_for 2 (λ m. m.http_addr) persisted))
    × (grpc_addr 2 (restore_persisted_member_addresses persisted book)
        ≡ first_given (grpc_addr 2 book ∷ persisted_for 2 (λ m. m.grpc_addr) persisted))
    × (admin_addr 2 (restore_persisted_member_addresses persisted book)
        ≡ first_given (admin_addr 2 book ∷ persisted_for 2 (λ m. m.admin_addr) persisted))
restore_persisted_member_addresses_lem_example =
    restore_persisted_member_addresses_lem persisted book 2

restored_grpc :
    addresses 2 (restore_persisted_member_addresses persisted book)
    ≡ (codes "b:80", codes "b:90", [])
unfolding restore_persisted_member_addresses restore_member_address or_persisted set http_addr
    grpc_addr admin_addr eqb address put_address
restored_grpc = refl

later_node : addresses 2 (set 2 [] (codes "b:90") [] book) ≡ (codes "b:80", codes "b:90", [])
unfolding set http_addr grpc_addr admin_addr eqb address put_address
later_node = refl
