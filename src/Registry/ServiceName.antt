-- ===== src/Registry/ServiceName.antt =====
-- Structured service names: composing, parsing and normalizing them
-- (internal/registry/model.go).
pub mod RoundTrip
pub mod Levels
pub mod Identity
pub mod Stable
use stellmap_service.Base.{
  Bool, true, false, not, ◌&&◌, ◌||◌, List, [], ◌∷◌, Option, none, some, if◌then◌else◌, any, Result,
  ok, err, map,
}
use stellmap_service.Text.{Bytes, eqb, trim, split, join}
use stellmap_service.Registry.Types.{
  Dimensions, ServiceIdentity, Error, service_required, dimensions_required, service_mismatch,
}

-- the five levels as the variadic helpers receive them
abbrev pub levels : Dimensions → List Bytes
levels d = d.organization ∷ d.business_domain ∷ d.capability_domain ∷ d.application ∷ d.role ∷ []

abbrev pub map_levels : (Bytes → Bytes) → Dimensions → Dimensions
map_levels f d = record {
  organization = f d.organization;
  business_domain = f d.business_domain;
  capability_domain = f d.capability_domain;
  application = f d.application;
  role = f d.role;
}

-- `strings.TrimSpace(value) == ""`
abbrev pub is_blank : Bytes → Bool
is_blank s = eqb (trim s) []

unfoldable pub compose_service_name : Dimensions → Bytes
unfolding join
compose_service_name d = join (map trim (levels d)) (b'.' ∷ [])

-- the test and the return behind `len(parts) != 5`
unfoldable pub five_parts : List Bytes → Option Dimensions
five_parts (a ∷ b ∷ c ∷ d ∷ e ∷ []) =
    if is_blank a || is_blank b || is_blank c || is_blank d || is_blank e
    then none
    else some (record {
      organization = a;
      business_domain = b;
      capability_domain = c;
      application = d;
      role = e;
    })
five_parts _ = none

-- `none` is `ok == false`, where the five results are empty
unfoldable pub parse_service_name : Bytes → Option Dimensions
unfolding five_parts
parse_service_name service =
    if eqb (trim service) [] then none else five_parts (split (trim service) b'.')

unfoldable pub has_any_service_dimension : List Bytes → Bool
has_any_service_dimension values = any (λ v. not (is_blank v)) values

unfoldable none_blank : List Bytes → Bool
none_blank [] = true
none_blank (v ∷ vs) = not (is_blank v) && none_blank vs

-- the last test is `len(values) > 0`
unfoldable pub has_all_service_dimensions : List Bytes → Bool
unfolding none_blank
has_all_service_dimensions [] = false
has_all_service_dimensions (v ∷ vs) = none_blank (v ∷ vs)

-- the loop with its flag `seenEmpty`
unfoldable gap_after : Bool → List Bytes → Bool
gap_after seen_empty [] = false
gap_after seen_empty (v ∷ vs) =
    let skipped = gap_after true vs in
    let kept = gap_after seen_empty vs in
    if is_blank v then skipped else if seen_empty then true else kept

unfoldable pub has_gap_in_service_dimensions : List Bytes → Bool
unfolding gap_after
has_gap_in_service_dimensions values = gap_after false values

-- the trimmed levels before the first one that is empty
unfoldable leading_levels : List Bytes → List Bytes
leading_levels [] = []
leading_levels (v ∷ vs) = let rest = leading_levels vs in if eqb v [] then [] else v ∷ rest

unfoldable pub service_hierarchy_dimensions : Dimensions → List Bytes
unfolding leading_levels
service_hierarchy_dimensions d = leading_levels (map trim (levels d))

-- an empty level takes the parsed one
unfoldable pub fill_level : Bytes → Bytes → Bytes
fill_level given parsed = if eqb given [] then parsed else given

unfoldable pub fill_levels : Dimensions → Option Dimensions → Dimensions
unfolding fill_level
fill_levels d none = d
fill_levels d (some p) = record {
  organization = fill_level d.organization p.organization;
  business_domain = fill_level d.business_domain p.business_domain;
  capability_domain = fill_level d.capability_domain p.capability_domain;
  application = fill_level d.application p.application;
  role = fill_level d.role p.role;
}

unfoldable pub trim_identity : ServiceIdentity → ServiceIdentity
trim_identity i = record { service = trim i.service; dimensions = map_levels trim i.dimensions }

-- what stands behind `if *service != ""`
unfoldable pub check_identity : ServiceIdentity → Result Error ServiceIdentity
check_identity i =
    let canonical = compose_service_name i.dimensions in
    if not (has_any_service_dimension (levels i.dimensions))
    then if eqb i.service [] then err service_required else ok i
    else if not (has_all_service_dimensions (levels i.dimensions))
    then err dimensions_required
    else if eqb i.service []
    then ok (record i { service = canonical })
    else if not (eqb i.service canonical)
    then err (service_mismatch i.service canonical)
    else ok i

-- `NormalizeStructuredServiceIdentity` on identity fields that are trimmed
unfoldable pub normalize_trimmed : ServiceIdentity → Result Error ServiceIdentity
unfolding check_identity fill_levels
normalize_trimmed i =
    let filled = record i {
      dimensions = fill_levels i.dimensions (parse_service_name i.service);
    } in
    if not (eqb i.service [])
    then if not (has_any_service_dimension (levels filled.dimensions))
      then ok filled
      else check_identity filled
    else check_identity i

-- On an error the callers drop what was written through the pointers.
unfoldable pub normalize_structured_service_identity :
    ServiceIdentity → Result Error ServiceIdentity
unfolding normalize_trimmed trim_identity
normalize_structured_service_identity i = normalize_trimmed (trim_identity i)
