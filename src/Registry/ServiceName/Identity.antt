-- ===== src/Registry/ServiceName/Identity.antt =====
-- What `NormalizeStructuredServiceIdentity` accepts, and that a second pass changes nothing.
use stellmap_service.Base.{
  ◌≡◌, ◌≢◌, ◌⊎◌, inl, inr, refl, sym, ◌∙◌, subst, true, false, [], ◌∷◌, Option, none, some, arith,
  Bool-cases, All, ok,
}
use stellmap_service.Registry.ServiceName.Levels.{
  AreTrimmed, compose-IsFull, fill_level-IsTrimmed, levels_unique,
}
use stellmap_service.Registry.ServiceName.RoundTrip.{parse_service_name_sound}
use stellmap_service.Text.Split.{eqb_iff, Lacks, eqb→eq}
use stellmap_service.Text.Trim.{IsTrimmed, trim_of_IsTrimmed, trim-IsTrimmed}
use stellmap_service.Text.{eqb, trim, join}
use stellmap_service.Registry.ServiceName.{
  levels, map_levels, compose_service_name, parse_service_name, has_any_service_dimension,
  has_all_service_dimensions, fill_levels, check_identity, normalize_trimmed, trim, Dimensions,
  normalize_structured_service_identity, trim_identity,
}
use stellmap_service.Registry.Types.{ServiceIdentity}

-- What a normalized identity meets: levels and name are trimmed, and the two agree.
pub record IsNormalized (i : ServiceIdentity) : Type 0 where
  pub levels_trimmed : AreTrimmed i.dimensions
  pub service_trimmed : IsTrimmed i.service
  pub agrees :
      ((has_any_service_dimension (levels i.dimensions) ≡ false)
        × (i.service ≢ [])
        × (parse_service_name i.service ≡ none))
      ⊎ ((has_all_service_dimensions (levels i.dimensions) ≡ true)
          × (i.service ≡ compose_service_name i.dimensions))

pub any_of_all :
    (d : Dimensions)
    → has_all_service_dimensions (levels d) ≡ true
    → has_any_service_dimension (levels d) ≡ true
unfolding has_all_service_dimensions has_any_service_dimension
any_of_all d h = ground arith

-- With a name and no level filled, the name did not parse.
parse-none :
    (d p : Dimensions)
    → AreTrimmed d
    → has_all_service_dimensions (levels p) ≡ true
    → has_any_service_dimension (levels (fill_levels d (some p))) ≡ false
    → ⊥
unfolding has_all_service_dimensions has_any_service_dimension fill_levels
parse-none d p t h k =
    ground (arith, trim_of_IsTrimmed d.organization t.0, eqb_iff d.organization [])

-- With all levels filled from a name that they compose to, they are trimmed.
filled-AreTrimmed :
    (d p : Dimensions)
    → AreTrimmed d
    → All (Lacks b'.') (levels p)
    → compose_service_name (fill_levels d (some p)) ≡ join (levels p) (b'.' ∷ [])
    → AreTrimmed (fill_levels d (some p))
unfolding fill_levels
filled-AreTrimmed d p (h1, (h2, (h3, (h4, (h5, _))))) k e =
    let u = levels_unique (fill_levels d (some p)) p k e in
    (
      fill_level-IsTrimmed d.organization p.organization h1 (cc u),
      (
        fill_level-IsTrimmed d.business_domain p.business_domain h2 (cc u),
        (
          fill_level-IsTrimmed d.capability_domain p.capability_domain h3 (cc u),
          (
            fill_level-IsTrimmed d.application p.application h4 (cc u),
            (fill_level-IsTrimmed d.role p.role h5 (cc u), tt),
          ),
        ),
      ),
    )

-- `check_identity` without a name: the name is composed.
check-composed :
    (i : ServiceIdentity) {j : ServiceIdentity}
    → AreTrimmed i.dimensions
    → i.service ≡ []
    → check_identity i ≡ ok j
    → IsNormalized j
unfolding check_identity
check-composed i {j} t e h =
    let full : has_all_service_dimensions (levels i.dimensions) ≡ true =
      ground (arith, eqb_iff i.service [], any_of_all i.dimensions) in
    let r : j ≡ record i { service = compose_service_name i.dimensions } =
      ground (arith, eqb_iff i.service []) in
    subst IsNormalized (sym r) (record {
      levels_trimmed = t;
      service_trimmed = (compose-IsFull i.dimensions full).0;
      agrees = inr (full, refl);
    })

-- `check_identity` with a name that is given, and some level: the name is the composed one.
check-given :
    (i : ServiceIdentity) {j : ServiceIdentity}
    → i.service ≢ []
    → has_any_service_dimension (levels i.dimensions) ≡ true
    → check_identity i ≡ ok j
    → (j ≡ i)
      × (has_all_service_dimensions (levels i.dimensions) ≡ true)
      × (i.service ≡ compose_service_name i.dimensions)
unfolding check_identity
check-given i ne a h =
    let f = eqb_iff i.service [] in
    let g = eqb_iff i.service (compose_service_name i.dimensions) in
    (ground (arith, f, g), ground (arith, f, g), ground (arith, f, g))

-- `normalize_trimmed` with a name, by what the name parses to.
module _ (i : ServiceIdentity) (t : AreTrimmed i.dimensions) (ts : IsTrimmed i.service)
    (ne : i.service ≢ []) where
  filled_with : Option Dimensions → ServiceIdentity
  filled_with parsed = record i { dimensions = fill_levels i.dimensions parsed }

  filled_AreTrimmed :
      (parsed : Option Dimensions)
      → parse_service_name i.service ≡ parsed
      → i.service ≡ compose_service_name (fill_levels i.dimensions parsed)
      → AreTrimmed (fill_levels i.dimensions parsed)
  unfolding fill_levels
  filled_AreTrimmed none e c = t
  filled_AreTrimmed (some p) e c =
      let (joined, full, lacks) = parse_service_name_sound i.service e in
      filled-AreTrimmed i.dimensions p t lacks
        (sym c ∙ sym (trim_of_IsTrimmed i.service ts) ∙ sym joined)

  unstructured :
      (parsed : Option Dimensions)
      → parse_service_name i.service ≡ parsed
      → has_any_service_dimension (levels (fill_levels i.dimensions parsed)) ≡ false
      → IsNormalized (filled_with parsed)
  unfolding filled_with fill_levels
  unstructured none e a = record {
    levels_trimmed = t;
    service_trimmed = ts;
    agrees = inl (a, ne, e);
  }
  unstructured (some p) e a =
      absurd (parse-none i.dimensions p t (parse_service_name_sound i.service e).1 a)

  normalize-given : {j : ServiceIdentity} → normalize_trimmed i ≡ ok j → IsNormalized j
  unfolding normalize_trimmed filled_with
  normalize-given {j} h =
      let parsed = parse_service_name i.service in
      let named : eqb i.service [] ≡ false = ground (arith, eqb_iff i.service []) in
      elim (Bool-cases (has_any_service_dimension (levels (fill_levels i.dimensions parsed)))) [
        | inl e ↦
            let (same, full, composed) = check-given (filled_with parsed) ne e (ground arith) in
            subst IsNormalized (sym same) (record {
              levels_trimmed = filled_AreTrimmed parsed refl composed;
              service_trimmed = ts;
              agrees = inr (full, composed);
            })
        | inr e ↦ subst IsNormalized (ground arith) (unstructured parsed refl e)
      ]

-- Whatever `NormalizeStructuredServiceIdentity` accepts is normalized: all texts are trimmed, and
-- either no level is set, and the name is set and has no levels to parse, or all five levels are
-- set and the name is composed of them.
pub normalize-IsNormalized :
    (i : ServiceIdentity) {j : ServiceIdentity}
    → normalize_structured_service_identity i ≡ ok j
    → IsNormalized j
unfolding normalize_structured_service_identity
normalize-IsNormalized i h =
    let d = i.dimensions in
    let t : AreTrimmed (map_levels trim d) = (
      trim-IsTrimmed d.organization,
      (
        trim-IsTrimmed d.business_domain,
        (
          trim-IsTrimmed d.capability_domain,
          (trim-IsTrimmed d.application, (trim-IsTrimmed d.role, tt)),
        ),
      ),
    ) in
    elim (Bool-cases (eqb (trim i.service) [])) [
      | inl e ↦
          check-composed (trim_identity i) t (eqb→eq _ _ e)
            (unfold normalize_trimmed in ground arith)
      | inr e ↦
          normalize-given (trim_identity i) t (trim-IsTrimmed i.service)
            (λ q. ground (arith, eqb_iff (trim i.service) [])) h
    ]
