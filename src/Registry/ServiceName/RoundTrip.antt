-- ===== src/Registry/ServiceName/RoundTrip.antt =====
-- Composing and parsing service names undo each other.
use stellmap_service.Base.{
  ◌≡◌, ◌≢◌, sym, ap, ◌∙◌, true, false, List, [], ◌∷◌, some, arith, Bool-cases, inl, inr, All, subst,
}
use stellmap_service.Text.{Bytes, eqb, trim, split, join}
use stellmap_service.Text.Split.{eqb_iff, Lacks, split-join, join-split, split-Lacks}
use stellmap_service.Text.Trim.{IsTrimmed, trim_of_IsTrimmed, IsTrimmed-join}
use stellmap_service.Registry.Types.{Dimensions}
use stellmap_service.Registry.ServiceName.{
  levels, is_blank, compose_service_name, five_parts, parse_service_name,
  has_all_service_dimensions,
}

-- A level that is not empty, has no white space at its ends and holds no dot.
pub record IsLevel (s : Bytes) : Type 0 where
  pub trimmed : IsTrimmed s
  pub ne_nil : s ≢ []
  pub lacks_dot : Lacks b'.' s

pub record AreLevels (d : Dimensions) : Type 0 where
  pub organization : IsLevel d.organization
  pub business_domain : IsLevel d.business_domain
  pub capability_domain : IsLevel d.capability_domain
  pub application : IsLevel d.application
  pub role : IsLevel d.role

IsLevel-not_blank : (s : Bytes) → IsLevel s → is_blank s ≡ false
IsLevel-not_blank s h = rw (trim_of_IsTrimmed s h.trimmed) (ground (arith, eqb_iff s []))

-- composing leaves the levels as they are
compose-levels :
    (d : Dimensions) → AreLevels d → compose_service_name d ≡ join (levels d) (b'.' ∷ [])
unfolding compose_service_name
compose-levels d h = rw (
  trim_of_IsTrimmed d.organization h.organization.trimmed,
  trim_of_IsTrimmed d.business_domain h.business_domain.trimmed,
  trim_of_IsTrimmed d.capability_domain h.capability_domain.trimmed,
  trim_of_IsTrimmed d.application h.application.trimmed,
  trim_of_IsTrimmed d.role h.role.trimmed,
)

five_parts-levels : (d : Dimensions) → AreLevels d → five_parts (levels d) ≡ some d
unfolding five_parts
five_parts-levels d h = rw (
  IsLevel-not_blank d.organization h.organization,
  IsLevel-not_blank d.business_domain h.business_domain,
  IsLevel-not_blank d.capability_domain h.capability_domain,
  IsLevel-not_blank d.application h.application,
  IsLevel-not_blank d.role h.role,
)

-- Levels that are trimmed, not empty and free of dots come back when the name composed of them
-- is parsed.
pub parse-compose :
    (d : Dimensions) → AreLevels d → parse_service_name (compose_service_name d) ≡ some d
unfolding parse_service_name
parse-compose d h =
    let l1 = h.organization in
    let l2 = h.business_domain in
    let l3 = h.capability_domain in
    let l4 = h.application in
    let l5 = h.role in
    let rest : List Bytes = d.business_domain ∷ d.capability_domain ∷ d.application ∷ d.role ∷ [] in
    let (whole, ne) = IsTrimmed-join d.organization rest l1.trimmed l1.ne_nil (
      (l2.trimmed, l2.ne_nil),
      ((l3.trimmed, l3.ne_nil), ((l4.trimmed, l4.ne_nil), ((l5.trimmed, l5.ne_nil), tt))),
    ) in
    let parts =
      split-join b'.' d.organization rest l1.lacks_dot
        (l2.lacks_dot, (l3.lacks_dot, (l4.lacks_dot, (l5.lacks_dot, tt)))) in
    let filled : eqb (join (levels d) (b'.' ∷ [])) [] ≡ false =
      ground (arith, ne, eqb_iff (join (levels d) (b'.' ∷ [])) []) in
    rw (compose-levels d h, trim_of_IsTrimmed _ whole, filled, parts, five_parts-levels d h)

five_parts→levels :
    (ps : List Bytes) {d : Dimensions}
    → five_parts ps ≡ some d
    → (ps ≡ levels d) × (has_all_service_dimensions (levels d) ≡ true)
unfolding five_parts has_all_service_dimensions
five_parts→levels [] h = absurd cc
five_parts→levels (a ∷ []) h = absurd cc
five_parts→levels (a ∷ b ∷ []) h = absurd cc
five_parts→levels (a ∷ b ∷ c ∷ []) h = absurd cc
five_parts→levels (a ∷ b ∷ c ∷ d ∷ []) h = absurd cc
five_parts→levels (a ∷ b ∷ c ∷ d ∷ e ∷ []) h = ground arith
five_parts→levels (a ∷ b ∷ c ∷ d ∷ e ∷ f ∷ r) h = absurd cc

-- The levels of a parsed name, joined by dots, are the trimmed name; none of them is blank and
-- none holds a dot.
pub parse_service_name_sound :
    (s : Bytes) {d : Dimensions}
    → parse_service_name s ≡ some d
    → (join (levels d) (b'.' ∷ []) ≡ trim s)
      × (has_all_service_dimensions (levels d) ≡ true)
      × All (Lacks b'.') (levels d)
unfolding parse_service_name
parse_service_name_sound s {d} h = elim (Bool-cases (eqb (trim s) [])) [
  | inl e ↦ absurd (let q = rw e at h in cc)
  | inr e ↦
      let (parts, full) = five_parts→levels (split (trim s) b'.') {d = d} (rw e at h) in
      (
        ap (λ (l : List Bytes). join l (b'.' ∷ [])) (sym parts) ∙ join-split (trim s) b'.',
        full,
        subst (All (Lacks b'.')) parts (split-Lacks (trim s) b'.'),
      )
]
