-- ===== src/Transport/Instances/Range.antt =====
-- The range that a query scans loses no answer.
use stellmap_service.Base.{
  ℕ, ◌+◌, ◌≡◌, ◌≢◌, ◌⊎◌, inl, inr, refl, sym, ◌∙◌, Bool, true, false, not, ◌&&◌, List, [], ◌∷◌,
  ◌++◌, append_assoc, Option, none, some, arith, leb, ◌==◌, Bool-cases, Option-cases, length,
  select, All, ℤ,
}
use stellmap_service.Registry.Keys.RoundTrip.{service_prefix-append}
use stellmap_service.Transport.Sse.{prefix_range, prefix_upper_bound}
use stellmap_service.Text.{Bytes, eqb, trim, has_prefix}
use stellmap_service.Text.Split.{eqb_iff, has_prefix-append}
use stellmap_service.Storage.{Kv}
use stellmap_service.Storage.Pebble.Prefix.{IsClean, range-has_prefix}
use stellmap_service.Storage.Pebble.Engine.{in_bounds}
use stellmap_service.Registry.Types.{Value, Query}
use stellmap_service.Registry.Lease.{is_alive}
use stellmap_service.Registry.Query.{match_query, match_service_query, match_trimmed_service}
use stellmap_service.Registry.Keys.{key, service_prefix, namespace_prefix}
use stellmap_service.Transport.Instances.{
  if_matched, registry_instance_dto_from_value, item_instance, take_instance, collect_instances,
  scan_prefix, local_instances,
}

-- An item whose value stands under its own key, with a trimmed service name.
abbrev pub IsStored : (Bytes → Option Value) → Kv → Type 0
IsStored decode i =
    (v : Value)
    → decode i.value ≡ some v
    → (i.key ≡ key v.namespace v.identity.service v.instance_id)
      × (trim v.identity.service ≡ v.identity.service)

-- A query for one namespace.
abbrev pub IsScoped : Query → Type 0
IsScoped query = (query.namespace ≢ []) × (trim query.namespace ≡ query.namespace)

pub match_query-namespace :
    (v : Value) (query : Query)
    → query.namespace ≢ []
    → eqb v.namespace query.namespace ≡ false
    → match_query v query ≡ some false
unfolding match_query
match_query-namespace v query ne h =
    let given : eqb query.namespace [] ≡ false = elim (Bool-cases (eqb query.namespace [])) [
      | inl e ↦ absurd (ne ((eqb_iff query.namespace []).0 e))
      | inr e ↦ e
    ] in
    rw (given, h) refl

pub match_query-service :
    (v : Value) (query : Query)
    → match_service_query v.identity.service query ≡ false
    → match_query v query ≡ some false
unfolding match_query
match_query-service v query h =
    elim (Bool-cases (not (eqb query.namespace []) && not (eqb v.namespace query.namespace))) [
      | inl e ↦ rw e refl
      | inr e ↦ rw (e, h) refl
    ]

match_service_query_one :
    (service : Bytes) (query : Query)
    → trim service ≡ service
    → eqb query.service [] ≡ false
    → eqb service query.service ≡ false
    → match_service_query service query ≡ false
unfolding match_service_query match_trimmed_service
match_service_query_one service query t given h = rw (t, given, h) refl

below_service :
    (namespace service instance_id : Bytes)
    → has_prefix (key namespace service instance_id) (service_prefix namespace service) ≡ true
unfolding key
below_service n s i = rw (← service_prefix-append n s i) (has_prefix-append (service_prefix n s) i)

namespace_prefix-append :
    (n s i : Bytes) → trim n ≡ n → namespace_prefix n ++ (s ++ (b'/' ∷ i)) ≡ key n s i
unfolding namespace_prefix key
namespace_prefix-append n s i e = rw e (simp append_assoc)

below_namespace :
    (namespace service instance_id : Bytes)
    → trim namespace ≡ namespace
    → has_prefix (key namespace service instance_id) (namespace_prefix namespace) ≡ true
below_namespace n s i e =
    rw (← namespace_prefix-append n s i e)
      (has_prefix-append (namespace_prefix n) (s ++ (b'/' ∷ i)))

-- An instance that a scoped query matches has a key below the prefix.
below_prefix :
    (v : Value) (query : Query)
    → IsScoped query
    → trim v.identity.service ≡ v.identity.service
    → (match_query v query ≡ some false)
      ⊎ (has_prefix (key v.namespace v.identity.service v.instance_id) (scan_prefix query) ≡ true)
unfolding scan_prefix
below_prefix v query (ne, trimmed) t = elim (Bool-cases (eqb v.namespace query.namespace)) [
  | inr other ↦ inl (match_query-namespace v query ne other)
  | inl same ↦
      let p : v.namespace ≡ query.namespace = (eqb_iff v.namespace query.namespace).0 same in
      elim (Bool-cases (
        not (eqb query.service [])
        && (leb (length query.services) 1 && length query.service_prefixes == 0))) [
          | inr wide ↦ inr (
              rw (wide, p)
                (below_namespace query.namespace v.identity.service v.instance_id trimmed))
          | inl one ↦ elim (Bool-cases (eqb v.identity.service query.service)) [
            | inr differs ↦ inl (
                match_query-service v query
                  (match_service_query_one v.identity.service query t (ground arith) differs))
            | inl alike ↦
                let q : v.identity.service ≡ query.service =
                  (eqb_iff v.identity.service query.service).0 alike in
                inr (rw (one, p, q) (below_service query.namespace query.service v.instance_id))
          ]
        ]
]

pub not_listed :
    (v : Value) (query : Query) (now : ℤ)
    → match_query v query ≡ some false
    → registry_instance_dto_from_value v query now ≡ some none
unfolding registry_instance_dto_from_value if_matched
not_listed v query now e = elim (Bool-cases (is_alive v now)) [
  | inl alive ↦ rw (alive, e) refl
  | inr dead ↦ rw dead refl
]

out_of_range :
    (decode : Bytes → Option Value) (query : Query) (now : ℤ) (i : Kv)
    → IsScoped query
    → IsStored decode i
    → has_prefix i.key (scan_prefix query) ≡ false
    → item_instance (decode i.value) query now ≡ some none
unfolding item_instance
out_of_range decode query now i scoped stored h = elim (Option-cases (decode i.value)) [
  | inl absent ↦ rw absent refl
  | inr (v, there) ↦
      let (at, trimmed) = stored v there in
      let unmatched : match_query v query ≡ some false =
        elim (below_prefix v query scoped trimmed) [
          | inl e ↦ e
          | inr below ↦ absurd (let q = rw at at h in cc)
        ] in
      rw there (not_listed v query now unmatched)
]

collect_instances-select :
    (decode : Bytes → Option Value) (query : Query) (now : ℤ) (n : ℕ) (p : Bytes → Bool)
    (items : List Kv)
    → IsScoped query
    → All (λ i. IsStored decode i × (p i.key ≡ has_prefix i.key (scan_prefix query))) items
    → collect_instances decode query now n (select (λ i. p i.key) items)
      ≡ collect_instances decode query now n items
unfolding collect_instances
collect_instances-select decode query now n p [] scoped a = refl
collect_instances-select decode query now n p (i ∷ items) scoped ((stored, same), a) =
    let here = collect_instances-select decode query now n p items scoped a in
    let after = collect_instances-select decode query now (n + 1) p items scoped a in
    elim (Bool-cases (p i.key)) [
      | inl inside ↦ rw (inside, collect_instances, here, after) refl
      | inr outside ↦
          let e = out_of_range decode query now i scoped stored (sym same ∙ outside) in
          rw (outside, e, take_instance) here
    ]

scan_prefix_ne_nil : (query : Query) → scan_prefix query ≢ []
unfolding scan_prefix service_prefix namespace_prefix
scan_prefix_ne_nil query =
    elim (Bool-cases (
      not (eqb query.service [])
      && (leb (length query.services) 1 && length query.service_prefixes == 0))) [
        | inl one ↦ λ h. let q = rw one at h in cc
        | inr wide ↦ λ h. let q = rw wide at h in cc
      ]

in_bounds-prefix_range :
    (prefix k : Bytes)
    → prefix ≢ []
    → IsClean k
    → in_bounds (some (prefix_range prefix).0) (some (prefix_range prefix).1) k
      ≡ has_prefix k prefix
unfolding prefix_range prefix_upper_bound
in_bounds-prefix_range [] k ne clean = absurd (ne refl)
in_bounds-prefix_range (b ∷ bs) k ne clean = range-has_prefix k (b ∷ bs) clean

-- A query for one namespace lists the same instances from the range that it scans as from all items,
-- when every value stands under its own key, without a byte 0xFF, and its service name is trimmed.
pub local_instances_lem :
    (decode : Bytes → Option Value) (query : Query) (now : ℤ) (items : List Kv)
    → IsScoped query
    → All (λ i. IsStored decode i × IsClean i.key) items
    → local_instances decode
        (λ start end. select (λ i. in_bounds (some start) (some end) i.key) items)
        query
        now
      ≡ collect_instances decode query now 0 items
unfolding local_instances
local_instances_lem decode query now items scoped a =
    collect_instances-select decode query now 0
      (in_bounds (some (prefix_range (scan_prefix query)).0)
        (some (prefix_range (scan_prefix query)).1))
      items scoped (bounded items a)
  where
    bounded :
        (items : List Kv)
        → All (λ i. IsStored decode i × IsClean i.key) items
        → All
            (λ i.
              IsStored decode i
              × (in_bounds
                    (some (prefix_range (scan_prefix query)).0)
                    (some (prefix_range (scan_prefix query)).1)
                    i.key
                  ≡ has_prefix i.key (scan_prefix query)))
            items
    bounded [] a = tt
    bounded (i ∷ items) ((stored, clean), a) = (
      (stored, in_bounds-prefix_range (scan_prefix query) i.key (scan_prefix_ne_nil query) clean),
      bounded items a,
    )
