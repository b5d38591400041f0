-- ===== src/Storage/Pebble/Snapshot.antt =====
-- A snapshot that is restored: the content comes back, and the metadata is handled apart.
use stellmap_service.Base.{
  ℕ, ◌≡◌, inl, inr, refl, sym, ap, ◌∙◌, true, false, List, [], ◌∷◌, ◌++◌, none, arith, Bool-cases,
}
use stellmap_service.Text.{Bytes, eqb}
use stellmap_service.Text.Split.{eqb_iff}
use stellmap_service.GoMap.{lookup}
use stellmap_service.Storage.{MemberAddress}
use stellmap_service.Storage.Memory.Laws.{Content}
use stellmap_service.Storage.Pebble.Engine.{Json, Write, set, remove, write_one, write_all}
use stellmap_service.Storage.Pebble.{
  is_meta_key, remove_data, remove_all, set_members, member_address_key,
}

pub write_all-append :
    (ws us : List Write) (f : Content) → write_all (ws ++ us) f ≡ write_all us (write_all ws f)
write_all-append [] us f = refl
write_all-append (w ∷ ws) us f = write_all-append ws us (write_one w f)

pub remove_all-none :
    (es : List (Bytes × Bytes)) (f : Content) (key : Bytes)
    → f key ≡ none
    → write_all (remove_all es) f key ≡ none
unfolding remove_all
remove_all-none [] f key h = h
remove_all-none ((j, v) ∷ es) f key h =
    remove_all-none es (write_one (remove j) f) key (ground arith)

remove_data-none :
    (es : List (Bytes × Bytes)) (f : Content) (key : Bytes)
    → f key ≡ none
    → write_all (remove_data es) f key ≡ none
unfolding remove_data
remove_data-none [] f key h = h
remove_data-none ((j, v) ∷ es) f key h = elim (Bool-cases (is_meta_key j)) [
  | inl meta ↦ rw meta (remove_data-none es f key h)
  | inr plain ↦ rw plain (remove_data-none es (write_one (remove j) f) key (ground arith))
]

-- Removing what an iterator over everything visits leaves nothing under any key of the data.
pub remove_data-content :
    (es : List (Bytes × Bytes)) (f : Content) (key : Bytes)
    → is_meta_key key ≡ false
    → lookup key es ≡ f key
    → write_all (remove_data es) f key ≡ none
unfolding remove_data lookup
remove_data-content [] f key h q = sym q
remove_data-content ((j, v) ∷ es) f key h q = elim (Bool-cases (eqb j key)) [
  | inl same ↦
      let p : j ≡ key = (eqb_iff j key).0 same in
      let plain : is_meta_key j ≡ false = ap is_meta_key p ∙ h in
      rw plain (remove_data-none es (write_one (remove j) f) key (rw same))
  | inr other ↦ elim (Bool-cases (is_meta_key j)) [
    | inl meta ↦ rw meta (remove_data-content es f key h (rw other at q))
    | inr plain ↦
        let kept : write_one (remove j) f key ≡ f key = rw other in
        rw plain
          (remove_data-content es (write_one (remove j) f) key h ((rw other at q) ∙ sym kept))
  ]
]

-- The members are kept under keys of the metadata.
is_meta_key-member_address_key : (n : ℕ) → is_meta_key (member_address_key n) ≡ true
unfolding is_meta_key member_address_key eqb
is_meta_key-member_address_key n = ground arith

pub set_members-content :
    (json : Json) (ms : List MemberAddress) (f : Content) (key : Bytes)
    → is_meta_key key ≡ false
    → write_all (set_members json ms) f key ≡ f key
unfolding set_members
set_members-content json [] f key h = refl
set_members-content json (m ∷ ms) f key h =
    let other : eqb (member_address_key m.node_id) key ≡ false =
      elim (Bool-cases (eqb (member_address_key m.node_id) key)) [
        | inl e ↦
            let p = (eqb_iff (member_address_key m.node_id) key).0 e in
            absurd
              (let q = ap is_meta_key p in let r = is_meta_key-member_address_key m.node_id in cc)
        | inr e ↦ e
      ] in
    set_members-content json ms
      (write_one (set (member_address_key m.node_id) (json.encode_member m)) f) key h
    ∙ rw other
