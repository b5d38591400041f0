-- ===== src/Registry/Register/Endpoints.antt =====
-- The endpoints that the loop of `NormalizeRegisterInput` lets through.
use stellmap_service.Base.{
  ◌≡◌, ◌≢◌, inl, inr, refl, subst, false, List, [], ◌∷◌, arith, Bool-cases, All, pos, ◌≤ℤ◌, ok,
  bind-eq-ok,
}
use stellmap_service.Text.{Bytes}
use stellmap_service.Text.Split.{eqb_iff}
use stellmap_service.Text.Trim.{IsTrimmed, trim-IsTrimmed, trim_of_IsTrimmed}
use stellmap_service.Registry.Types.{Endpoint}
use stellmap_service.Registry.Register.{
  trim_endpoint, check_endpoint, normalize_endpoint, contains, normalize_endpoints,
}

pub record IsEndpoint (e : Endpoint) : Type 0 where
  pub name_trimmed : IsTrimmed e.name
  pub name_ne_nil : e.name ≢ []
  pub protocol_trimmed : IsTrimmed e.protocol
  pub protocol_ne_nil : e.protocol ≢ []
  pub host_trimmed : IsTrimmed e.host
  pub host_ne_nil : e.host ≢ []
  pub path_trimmed : IsTrimmed e.path
  pub port_pos : pos 1 ≤ℤ e.port
  pub port_le : e.port ≤ℤ pos 65535
  pub weight_pos : pos 1 ≤ℤ e.weight

AreTrimmed : Endpoint → Type 0
AreTrimmed e = IsTrimmed e.name × IsTrimmed e.protocol × IsTrimmed e.host × IsTrimmed e.path

check_endpoint-IsEndpoint :
    (e : Endpoint) {e' : Endpoint} → AreTrimmed e → check_endpoint e ≡ ok e' → IsEndpoint e'
unfolding check_endpoint AreTrimmed
check_endpoint-IsEndpoint e (tn, tp, th, ta) h =
    ground (arith, eqb_iff e.name [], eqb_iff e.protocol [], eqb_iff e.host [])

normalize_endpoint-IsEndpoint :
    (e : Endpoint) {e' : Endpoint} → normalize_endpoint e ≡ ok e' → IsEndpoint e'
unfolding normalize_endpoint AreTrimmed
normalize_endpoint-IsEndpoint e h =
    check_endpoint-IsEndpoint (trim_endpoint e)
      (
        trim-IsTrimmed e.name,
        trim-IsTrimmed e.protocol,
        trim-IsTrimmed e.host,
        trim-IsTrimmed e.path,
      )
      h

normalize_endpoint_of_IsEndpoint : (e : Endpoint) → IsEndpoint e → normalize_endpoint e ≡ ok e
unfolding normalize_endpoint
normalize_endpoint_of_IsEndpoint e v =
    rw
      (
        trim_of_IsTrimmed e.name v.name_trimmed,
        trim_of_IsTrimmed e.protocol v.protocol_trimmed,
        trim_of_IsTrimmed e.host v.host_trimmed,
        trim_of_IsTrimmed e.path v.path_trimmed,
      )
      (ground (arith, eqb_iff e.name [], eqb_iff e.protocol [], eqb_iff e.host []))

abbrev pub Distinct : List Bytes → List Endpoint → Type 0
Distinct seen [] = Unit
Distinct seen (e ∷ es) = (contains e.name seen ≡ false) × Distinct (e.name ∷ seen) es

-- Each endpoint that the loop returns has trimmed texts, a name, a protocol, a host, a port from 1 to
-- 65535 and a positive weight; the names differ from one another and from those seen before.
pub normalize_endpoints_sound :
    (seen : List Bytes) (es : List Endpoint) {es' : List Endpoint}
    → normalize_endpoints seen es ≡ ok es'
    → All IsEndpoint es' × Distinct seen es'
unfolding normalize_endpoints
normalize_endpoints_sound seen [] {es'} h =
    let same : [] ≡ es' = cc h in subst (λ l. All IsEndpoint l × Distinct seen l) same (tt, tt)
normalize_endpoints_sound seen (e ∷ es) {es'} h =
    let (e', he, h') = bind-eq-ok (normalize_endpoint e) _ h in
    elim (Bool-cases (contains e'.name seen)) [
      | inl dup ↦ absurd (let q = rw dup at h' in cc)
      | inr fresh ↦
          let (rest, hr, hl) =
            bind-eq-ok (normalize_endpoints (e'.name ∷ seen) es) _ (rw fresh at h') in
          let (v, d) = normalize_endpoints_sound (e'.name ∷ seen) es hr in
          let same : e' ∷ rest ≡ es' = cc hl in
          subst (λ l. All IsEndpoint l × Distinct seen l) same
            ((normalize_endpoint-IsEndpoint e he, v), (fresh, d))
    ]

-- A list of that kind goes through the loop unchanged.
pub normalize_endpoints_complete :
    (seen : List Bytes) (es : List Endpoint)
    → All IsEndpoint es
    → Distinct seen es
    → normalize_endpoints seen es ≡ ok es
unfolding normalize_endpoints
normalize_endpoints_complete seen [] v d = refl
normalize_endpoints_complete seen (e ∷ es) (v, vs) (d, ds) =
    rw (
      normalize_endpoint_of_IsEndpoint e v,
      d,
      normalize_endpoints_complete (e.name ∷ seen) es vs ds,
    )
