-- ===== src/Registry/ServiceName/Levels.antt =====
-- The five levels of a service name: when they are trimmed, and when a name determines them.
use stellmap_service.Base.{
  ◌≡◌, ◌≢◌, inl, inr, refl, subst, true, false, [], ◌∷◌, map, arith, Bool-cases, All,
}
use stellmap_service.Text.Count.{join_unique}
use stellmap_service.Text.Split.{eqb_iff, Lacks}
use stellmap_service.Text.Trim.{IsTrimmed, trim_of_IsTrimmed, trim-IsTrimmed, IsTrimmed-join}
use stellmap_service.Text.{Bytes, eqb, trim, join}
use stellmap_service.Registry.ServiceName.{
  levels, map_levels, is_blank, compose_service_name, has_all_service_dimensions, fill_level, trim,
  Dimensions, Bytes,
}

abbrev pub AreTrimmed : Dimensions → Type 0
AreTrimmed d = All IsTrimmed (levels d)

pub trim-levels : (d : Dimensions) → AreTrimmed d → map_levels trim d ≡ d
trim-levels d (h1, (h2, (h3, (h4, (h5, _))))) = rw (
  trim_of_IsTrimmed d.organization h1,
  trim_of_IsTrimmed d.business_domain h2,
  trim_of_IsTrimmed d.capability_domain h3,
  trim_of_IsTrimmed d.application h4,
  trim_of_IsTrimmed d.role h5,
)

pub has_all→not_blank :
    (d : Dimensions)
    → has_all_service_dimensions (levels d) ≡ true
    → All (λ v. is_blank v ≡ false) (levels d)
unfolding has_all_service_dimensions
has_all→not_blank d h = ground arith

abbrev IsFull : Bytes → Type 0
IsFull s = IsTrimmed s × (s ≢ [])

IsFull-of_not_blank : (s : Bytes) → is_blank s ≡ false → IsFull (trim s)
IsFull-of_not_blank s h = (trim-IsTrimmed s, λ e. ground (arith, eqb_iff (trim s) []))

-- A name composed of levels that are not blank is trimmed and not empty.
pub compose-IsFull :
    (d : Dimensions)
    → has_all_service_dimensions (levels d) ≡ true
    → IsFull (compose_service_name d)
unfolding compose_service_name
compose-IsFull d h =
    let (b1, (b2, (b3, (b4, (b5, _))))) = has_all→not_blank d h in
    let (t1, n1) = IsFull-of_not_blank d.organization b1 in
    IsTrimmed-join (trim d.organization)
      (trim d.business_domain ∷ trim d.capability_domain ∷ trim d.application ∷ trim d.role ∷ []) t1
      n1
      (
        IsFull-of_not_blank d.business_domain b2,
        (
          IsFull-of_not_blank d.capability_domain b3,
          (IsFull-of_not_blank d.application b4, (IsFull-of_not_blank d.role b5, tt)),
        ),
      )

pub fill_level-IsTrimmed :
    (g p : Bytes) → IsTrimmed g → trim (fill_level g p) ≡ p → IsTrimmed (fill_level g p)
unfolding fill_level
fill_level-IsTrimmed g p hg e = elim (Bool-cases (eqb g [])) [
  | inl q ↦ rw q (subst IsTrimmed e (trim-IsTrimmed (fill_level g p)))
  | inr q ↦ rw q hg
]

-- Levels that compose to the same name as five levels without a dot are those levels, once
-- trimmed.
pub levels_unique :
    (d p : Dimensions)
    → All (Lacks b'.') (levels p)
    → compose_service_name d ≡ join (levels p) (b'.' ∷ [])
    → map trim (levels d) ≡ levels p
unfolding compose_service_name
levels_unique d p h e = join_unique b'.' _ _ _ _ h.0 h.1 refl e
