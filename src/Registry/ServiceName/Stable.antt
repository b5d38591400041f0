-- ===== src/Registry/ServiceName/Stable.antt =====
-- A normalized identity is left unchanged by `NormalizeStructuredServiceIdentity`.
use stellmap_service.Base.{
  ◌≡◌, ◌≢◌, inl, inr, refl, ap, ◌∙◌, true, false, [], Option, none, some, arith, ok,
}
use stellmap_service.Text.{Bytes, eqb, trim}
use stellmap_service.Text.Split.{eqb_iff}
use stellmap_service.Text.Trim.{trim_of_IsTrimmed}
use stellmap_service.Registry.Types.{Dimensions, ServiceIdentity}
use stellmap_service.Registry.ServiceName.{
  levels, compose_service_name, parse_service_name, has_any_service_dimension,
  has_all_service_dimensions, fill_level, fill_levels, trim_identity, check_identity,
  normalize_trimmed, normalize_structured_service_identity,
}
use stellmap_service.Registry.ServiceName.Levels.{
  AreTrimmed, trim-levels, compose-IsFull, has_all→not_blank,
}
use stellmap_service.Registry.ServiceName.Identity.{
  any_of_all, IsNormalized, normalize-IsNormalized,
}

trim_identity_of_IsNormalized : (i : ServiceIdentity) → IsNormalized i → trim_identity i ≡ i
unfolding trim_identity
trim_identity_of_IsNormalized i n =
    rw (trim_of_IsTrimmed i.service n.service_trimmed, trim-levels i.dimensions n.levels_trimmed)

fill_given : (g p : Bytes) → eqb (trim g) [] ≡ false → trim g ≡ g → fill_level g p ≡ g
unfolding fill_level
fill_given g p b t = ground arith

fill_levels_given :
    (d : Dimensions) (parsed : Option Dimensions)
    → AreTrimmed d
    → has_all_service_dimensions (levels d) ≡ true
    → fill_levels d parsed ≡ d
unfolding fill_levels
fill_levels_given d none t h = refl
fill_levels_given d (some p) (t1, (t2, (t3, (t4, (t5, _))))) h =
    let (b1, (b2, (b3, (b4, (b5, _))))) = has_all→not_blank d h in
    rw (
      fill_given d.organization p.organization b1 (trim_of_IsTrimmed _ t1),
      fill_given d.business_domain p.business_domain b2 (trim_of_IsTrimmed _ t2),
      fill_given d.capability_domain p.capability_domain b3 (trim_of_IsTrimmed _ t3),
      fill_given d.application p.application b4 (trim_of_IsTrimmed _ t4),
      fill_given d.role p.role b5 (trim_of_IsTrimmed _ t5),
    )

check_unstructured :
    (i : ServiceIdentity)
    → has_any_service_dimension (levels i.dimensions) ≡ false
    → i.service ≢ []
    → parse_service_name i.service ≡ none
    → normalize_trimmed i ≡ ok i
unfolding normalize_trimmed
check_unstructured i a ne e = rw e (ground (arith, eqb_iff i.service []))

check_structured :
    (i : ServiceIdentity)
    → AreTrimmed i.dimensions
    → has_all_service_dimensions (levels i.dimensions) ≡ true
    → i.service ≡ compose_service_name i.dimensions
    → normalize_trimmed i ≡ ok i
unfolding normalize_trimmed check_identity
check_structured i t h c =
    let filled = fill_levels_given i.dimensions (parse_service_name i.service) t h in
    let ne = (compose-IsFull i.dimensions h).1 in
    rw filled (
      ground (
        arith,
        any_of_all i.dimensions h,
        eqb_iff i.service [],
        eqb_iff i.service (compose_service_name i.dimensions),
      ))

pub normalize_of_IsNormalized :
    (i : ServiceIdentity) → IsNormalized i → normalize_structured_service_identity i ≡ ok i
unfolding normalize_structured_service_identity
normalize_of_IsNormalized i n =
    ap normalize_trimmed (trim_identity_of_IsNormalized i n) ∙ (elim n.agrees [
      | inl (a, ne, e) ↦ check_unstructured i a ne e
      | inr (h, c) ↦ check_structured i n.levels_trimmed h c
    ])

-- An identity that `NormalizeStructuredServiceIdentity` returned is accepted again, unchanged.
normalize_identity_idempotent :
    (i : ServiceIdentity) {j : ServiceIdentity}
    → normalize_structured_service_identity i ≡ ok j
    → normalize_structured_service_identity j ≡ ok j
normalize_identity_idempotent i {j} h = normalize_of_IsNormalized j (normalize-IsNormalized i h)
