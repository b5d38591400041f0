-- ===== src/Registry/StringMap/Clone.antt =====
-- What `CloneStringMap` keeps, and that a second clone changes nothing.
use stellmap_service.Base.{
  ◌≡◌, ◌≢◌, refl, sym, ap, ◌∙◌, false, [], ◌∷◌, ◌++◌, append_assoc, append-nil, Option, none, some,
  arith, if◌then◌else◌, Bool-cases, inl, inr,
}
use stellmap_service.Text.{Bytes, eqb, trim}
use stellmap_service.Text.Split.{eqb_iff, eqb→eq}
use stellmap_service.Text.Trim.{IsTrimmed, trim-IsTrimmed, trim_of_IsTrimmed}
use stellmap_service.Registry.Types.{StringMap}
use stellmap_service.Registry.StringMap.{clone_into, clone_string_map}
use stellmap_service.GoMap.{lookup, insert, lookup-insert}

-- The value of the last entry whose trimmed key is `k`.
abbrev last_value : Bytes → StringMap → Option Bytes → Option Bytes
last_value k [] found = found
last_value k ((j, v) ∷ m) found = last_value k m (if eqb (trim j) k then some (trim v) else found)

lookup-clone_into :
    (k : Bytes) (cloned m : StringMap)
    → eqb k [] ≡ false
    → lookup k (clone_into cloned m) ≡ last_value k m (lookup k cloned)
unfolding clone_into
lookup-clone_into k cloned [] h = refl
lookup-clone_into k cloned ((j, v) ∷ m) h = elim (Bool-cases (eqb (trim j) [])) [
  | inl e ↦
      let ne : eqb (trim j) k ≡ false =
        ground (arith, eqb_iff (trim j) [], eqb_iff (trim j) k, eqb_iff k []) in
      rw (e, clone_into) (rw ne (lookup-clone_into k cloned m h))
  | inr e ↦
      rw (e, clone_into)
        (lookup-clone_into k (insert (trim j) (trim v) cloned) m h
          ∙ ap (last_value k m) (lookup-insert (trim j) k (trim v) cloned))
]

-- A key that is not empty has, in the clone, the trimmed value of the last entry of the source
-- whose key trims to it, and none if there is no such entry.
lookup-clone_string_map :
    (k : Bytes) (m : StringMap) → k ≢ [] → lookup k (clone_string_map m) ≡ last_value k m none
unfolding clone_string_map lookup
lookup-clone_string_map k m h = lookup-clone_into k [] m (ground (arith, eqb_iff k []))

-- Distinct trimmed keys, none of them empty, and trimmed values.
abbrev pub IsCloned : StringMap → Type 0
IsCloned [] = Unit
IsCloned ((k, v) ∷ m) = IsTrimmed k × (k ≢ []) × IsTrimmed v × (lookup k m ≡ none) × IsCloned m

insert-IsCloned :
    (k v : Bytes) (m : StringMap)
    → IsTrimmed k
    → k ≢ []
    → IsTrimmed v
    → IsCloned m
    → IsCloned (insert k v m)
unfolding insert lookup
insert-IsCloned k v [] tk ne tv h = (tk, ne, tv, refl, tt)
insert-IsCloned k v ((j, w) ∷ m) tk ne tv (tj, nj, tw, fresh, h) = elim (Bool-cases (eqb j k)) [
  | inl e ↦ rw (e, insert) (tk, ne, tv, rw (eqb→eq j k e) at fresh, h)
  | inr e ↦
      rw (e, insert)
        (
          tj,
          nj,
          tw,
          lookup-insert k j v m ∙ ground (arith, eqb_iff k j, eqb_iff j k),
          insert-IsCloned k v m tk ne tv h,
        )
]

clone_into-IsCloned : (cloned m : StringMap) → IsCloned cloned → IsCloned (clone_into cloned m)
unfolding clone_into
clone_into-IsCloned cloned [] h = h
clone_into-IsCloned cloned ((j, v) ∷ m) h = elim (Bool-cases (eqb (trim j) [])) [
  | inl e ↦ rw (e, clone_into) (clone_into-IsCloned cloned m h)
  | inr e ↦
      rw (e, clone_into)
        (clone_into-IsCloned (insert (trim j) (trim v) cloned) m (
          insert-IsCloned (trim j) (trim v) cloned (trim-IsTrimmed j)
            (λ q. ground (arith, eqb_iff (trim j) [])) (trim-IsTrimmed v) h))
]

pub clone_string_map-IsCloned : (m : StringMap) → IsCloned (clone_string_map m)
unfolding clone_string_map
clone_string_map-IsCloned m = clone_into-IsCloned [] m tt

-- None of the keys of the second map is in the first.
abbrev Apart : StringMap → StringMap → Type 0
Apart cloned [] = Unit
Apart cloned ((k, v) ∷ m) = (lookup k cloned ≡ none) × Apart cloned m

insert_fresh : (k v : Bytes) (m : StringMap) → lookup k m ≡ none → insert k v m ≡ m ++ (k, v) ∷ []
unfolding insert lookup
insert_fresh k v [] h = refl
insert_fresh k v ((j, w) ∷ m) h = ground (arith, insert_fresh k v m)

lookup-concat :
    (k j v : Bytes) (m : StringMap)
    → lookup j m ≡ none
    → eqb k j ≡ false
    → lookup j (m ++ (k, v) ∷ []) ≡ none
unfolding lookup
lookup-concat k j v [] h ne = rw ne
lookup-concat k j v ((i, w) ∷ m) h ne = ground (arith, lookup-concat k j v m)

Apart-concat :
    (k v : Bytes) (cloned m : StringMap)
    → Apart cloned m
    → lookup k m ≡ none
    → Apart (cloned ++ (k, v) ∷ []) m
unfolding lookup
Apart-concat k v cloned [] h f = tt
Apart-concat k v cloned ((j, w) ∷ m) h f = (
  lookup-concat k j v cloned h.0 (ground (arith, eqb_iff k j, eqb_iff j k)),
  Apart-concat k v cloned m h.1 (ground arith),
)

clone_into_of_IsCloned :
    (cloned m : StringMap) → Apart cloned m → IsCloned m → clone_into cloned m ≡ cloned ++ m
unfolding clone_into
clone_into_of_IsCloned cloned [] a h = sym (append-nil cloned)
clone_into_of_IsCloned cloned ((k, v) ∷ m) (f, a) (tk, ne, tv, fresh, h) =
    let blank : eqb k [] ≡ false = ground (arith, eqb_iff k []) in
    rw (trim_of_IsTrimmed k tk, trim_of_IsTrimmed v tv, blank, insert_fresh k v cloned f)
      (clone_into_of_IsCloned (cloned ++ (k, v) ∷ []) m (Apart-concat k v cloned m a fresh) h
        ∙ append_assoc cloned ((k, v) ∷ []) m)

Apart-nil : (m : StringMap) → Apart [] m
unfolding lookup
Apart-nil [] = tt
Apart-nil ((k, v) ∷ m) = (refl, Apart-nil m)

pub clone_string_map_of_IsCloned : (m : StringMap) → IsCloned m → clone_string_map m ≡ m
unfolding clone_string_map
clone_string_map_of_IsCloned m h = clone_into_of_IsCloned [] m (Apart-nil m) h

-- A clone of a clone is the clone itself.
pub clone_string_map_idempotent :
    (m : StringMap) → clone_string_map (clone_string_map m) ≡ clone_string_map m
clone_string_map_idempotent m =
    clone_string_map_of_IsCloned (clone_string_map m) (clone_string_map-IsCloned m)
