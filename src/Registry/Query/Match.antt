-- ===== src/Registry/Query/Match.antt =====
-- What a query means for a registered instance, and that the matcher decides it.
use stellmap_service.Base.{
  suc, ◌≡◌, ◌↔◌, ◌⊎◌, inl, inr, refl, sym, ◌∙◌, subst, Bool, true, false, not, ◌&&◌, ◌||◌, List, [],
  ◌∷◌, ◌++◌, append-nil, append_assoc, Option, some, arith, ltb, ◌==◌, if◌then◌else◌, Bool-cases,
  length, select, any, All, Result, ok, err, bind-eq-ok,
}
use stellmap_service.Text.{codes, Bytes, eqb, trim, has_prefix}
use stellmap_service.Registry.Types.{Selector, SelectorError, Endpoint, Value, Query}
use stellmap_service.Registry.Selector.{parse_label_selector_filters, matches_label_selector}
use stellmap_service.Registry.Selector.Match.{
  Holds, IsRequirement, Decides, and_then-Decides, matches_label_selector-Decides, Among,
}
use stellmap_service.Registry.Selector.Sound.{parse_label_selector_filters-IsRequirement}
use stellmap_service.Registry.Query.{
  get_value, get_all, normalize_query_service_identity, query_dimensions, initial_query,
  parse_limit, UrlValues, parse_query, wrap_selector, match_service_query, match_query,
  has_service_prefix, match_trimmed_service,
}
use stellmap_service.Text.Split.{eqb_iff, has_prefix-append, has_prefix→append}
use stellmap_service.Registry.Register.{filter_endpoints}

-- A filter that is not set, or equals the field.
abbrev Allows : Bytes → Bytes → Type 0
Allows filter field = (filter ≡ []) ⊎ (field ≡ filter)

abbrev StartsWithAny : Bytes → List Bytes → Type 0
StartsWithAny s [] = false ≡ true
StartsWithAny s (p ∷ ps) = ((r : Bytes) × (s ≡ p ++ r)) ⊎ StartsWithAny s ps

abbrev HasEndpoint : Bytes → List Endpoint → Type 0
HasEndpoint s [] = false ≡ true
HasEndpoint s (e ∷ es) = (e.name ≡ s) ⊎ (e.protocol ≡ s) ⊎ HasEndpoint s es

abbrev MatchesService : Bytes → Query → Type 0
MatchesService service q =
    Allows q.service service
    × ((q.services ≡ []) ⊎ Among service q.services)
    × ((q.service_prefixes ≡ []) ⊎ StartsWithAny service q.service_prefixes)

abbrev pub Matches : Value → Query → Type 0
Matches v q =
    Allows q.namespace v.namespace
    × (MatchesService (trim v.identity.service) q
        × (Allows q.zone v.zone
            × (All (Holds v.labels) q.selector
                × ((q.endpoint ≡ []) ⊎ HasEndpoint q.endpoint v.endpoints))))

Allows-iff :
    (filter field : Bytes)
    → ((not (eqb filter []) && not (eqb field filter)) ≡ false) ↔ Allows filter field
Allows-iff filter field =
    let unset = eqb_iff filter [] in
    let same = eqb_iff field filter in
    (
      λ h. elim (Bool-cases (eqb filter [])) [
        | inl e ↦ inl (unset.0 e)
        | inr e ↦ inr (same.0 (ground arith))
      ],
      λ a. elim a [ inl e ↦ rw (unset.1 e) | inr e ↦ rw (same.1 e) (ground arith) ],
    )

has_service_prefix_iff :
    (s p : Bytes) → (has_service_prefix s p ≡ true) ↔ ((r : Bytes) × (s ≡ p ++ r))
unfolding has_service_prefix
has_service_prefix_iff s p = (
  λ h. elim (Bool-cases (has_prefix s p)) [
    | inl e ↦ has_prefix→append s p e
    | inr e ↦ elim (Bool-cases (eqb s p)) [
      | inl same ↦ ([], (eqb_iff s p).0 same ∙ sym (append-nil p))
      | inr other ↦
          let (r, q) = has_prefix→append s (p ++ b'.' ∷ []) (ground arith) in
          (b'.' ∷ r, q ∙ append_assoc p (b'.' ∷ []) r)
    ]
  ],
  λ (r, q).
      let e : has_prefix s p ≡ true =
        subst (λ t. has_prefix t p ≡ true) (sym q) (has_prefix-append p r) in
      ground arith,
)

any_prefix_iff :
    (s : Bytes) (ps : List Bytes) → (any (has_service_prefix s) ps ≡ true) ↔ StartsWithAny s ps
any_prefix_iff s [] = (λ h. h, λ h. h)
any_prefix_iff s (p ∷ ps) =
    let one = has_service_prefix_iff s p in
    let ih = any_prefix_iff s ps in
    (
      λ h. elim (Bool-cases (has_service_prefix s p)) [
        | inl e ↦ inl (one.0 e)
        | inr e ↦ inr (ih.0 (ground arith))
      ],
      λ a. elim a [ inl x ↦ rw (one.1 x) | inr x ↦ rw (ih.1 x) (ground arith) ],
    )

any_service_iff : (s : Bytes) (ss : List Bytes) → (any (λ t. eqb s t) ss ≡ true) ↔ Among s ss
any_service_iff s [] = (λ h. h, λ h. h)
any_service_iff s (t ∷ ss) =
    let one = eqb_iff s t in
    let ih = any_service_iff s ss in
    (
      λ h. elim (Bool-cases (eqb s t)) [
        | inl e ↦ inl (sym (one.0 e))
        | inr e ↦ inr (ih.0 (ground arith))
      ],
      λ a. elim a [ inl x ↦ rw (one.1 (sym x)) | inr x ↦ rw (ih.1 x) (ground arith) ],
    )

unset_or :
    {P : Type 0} (xs : List Bytes) (found : Bool)
    → (found ≡ true) ↔ P
    → ((ltb 0 (length xs) && not found) ≡ false) ↔ ((xs ≡ []) ⊎ P)
unset_or [] found i = (λ h. inl refl, λ a. refl)
unset_or (x ∷ xs) found i =
    let some_set : ltb 0 (suc (length xs)) ≡ true = ground arith in
    (
      λ h. inr (i.0 (ground arith)),
      λ a. elim a [ inl e ↦ absurd cc | inr p ↦ rw (i.1 p) (ground arith) ],
    )

match_service_query_iff :
    (s : Bytes) (q : Query) → (match_trimmed_service s q ≡ true) ↔ MatchesService s q
unfolding match_trimmed_service
match_service_query_iff s q =
    let one = Allows-iff q.service s in
    let among =
      unset_or q.services (any (λ t. eqb s t) q.services) (any_service_iff s q.services) in
    let starts =
      unset_or q.service_prefixes (any (has_service_prefix s) q.service_prefixes)
        (any_prefix_iff s q.service_prefixes) in
    (
      λ h. (one.0 (ground arith), among.0 (ground arith), starts.0 (ground arith)),
      λ (a, b, c). rw (one.1 a, among.1 b, starts.1 c),
    )

guarded-Decides :
    {P Q : Type 0} (bad : Bool) (rest : Option Bool)
    → (bad ≡ false) ↔ P
    → Decides rest Q
    → Decides (if bad then some false else rest) (P × Q)
guarded-Decides true rest i d =
    (false, refl, ((λ h. absurd cc), λ (p, q). absurd (let e = i.1 p in cc)))
guarded-Decides false rest i (b, e, d) = (b, e, ((λ h. (i.0 refl, d.0 h)), λ (p, q). d.1 q))

filter_endpoints_iff :
    (s : Bytes) (es : List Endpoint)
    → eqb s [] ≡ false
    → ((length (filter_endpoints es s) == 0) ≡ false) ↔ HasEndpoint s es
unfolding filter_endpoints
filter_endpoints_iff s es set = rw set (go es)
  where
    go :
        (es : List Endpoint)
        → ((length (select (λ e. eqb e.name s || eqb e.protocol s) es) == 0) ≡ false)
          ↔ HasEndpoint s es
    go [] = (λ h. absurd cc, λ h. absurd cc)
    go (e ∷ es) =
        let ih = go es in
        let name = eqb_iff e.name s in
        let protocol = eqb_iff e.protocol s in
        (
          λ h. elim (Bool-cases (eqb e.name s)) [
            | inl n ↦ inl (name.0 n)
            | inr n ↦ elim (Bool-cases (eqb e.protocol s)) [
              | inl p ↦ inr (inl (protocol.0 p))
              | inr p ↦ inr (inr (ih.0 (rw (n, p) at h)))
            ]
          ],
          λ a. elim (Bool-cases (eqb e.name s)) [
            | inl n ↦ rw n (ground arith)
            | inr n ↦ elim (Bool-cases (eqb e.protocol s)) [
              | inl p ↦ rw (n, p) (ground arith)
              | inr p ↦
                  rw (n, p)
                    (ih.1 (elim a [
                      | inl x ↦ absurd (let q = name.1 x in ground arith)
                      | inr b ↦ elim b [
                        | inl x ↦ absurd (let q = protocol.1 x in ground arith)
                        | inr x ↦ x
                      ]
                    ]))
            ]
          ],
        )

endpoint_iff :
    (s : Bytes) (es : List Endpoint)
    → (not (not (eqb s []) && length (filter_endpoints es s) == 0) ≡ true)
      ↔ ((s ≡ []) ⊎ HasEndpoint s es)
endpoint_iff s es = elim (Bool-cases (eqb s [])) [
  | inl unset ↦ rw unset ((λ h. inl ((eqb_iff s []).0 unset)), λ a. refl)
  | inr set ↦
      let found = filter_endpoints_iff s es set in
      rw set (
        (λ h. inr (found.0 (ground arith))),
        λ a. elim a [
          | inl e ↦ absurd (let q = (eqb_iff s []).1 e in ground arith)
          | inr x ↦ rw (found.1 x)
        ],
      )
]

-- If the requirements of its selector have the right shape, a query is decided without a panic:
-- the answer is true exactly if the namespace, the service, the zone, the labels and the endpoints
-- of the instance each meet what the query sets.
match_query-Decides :
    (v : Value) (q : Query) → All IsRequirement q.selector → Decides (match_query v q) (Matches v q)
unfolding match_query match_service_query
match_query-Decides v q h =
    let service = match_service_query_iff (trim v.identity.service) q in
    guarded-Decides (not (eqb q.namespace []) && not (eqb v.namespace q.namespace)) _
      (Allows-iff q.namespace v.namespace)
      (guarded-Decides (not (match_trimmed_service (trim v.identity.service) q)) _
        ((λ h. service.0 (ground arith)), λ a. rw (service.1 a))
        (guarded-Decides (not (eqb q.zone []) && not (eqb v.zone q.zone)) _
          (Allows-iff q.zone v.zone)
          (and_then-Decides (matches_label_selector v.labels q.selector) _
            (matches_label_selector-Decides v.labels q.selector h)
            (
              not (
                  not (eqb q.endpoint []) && length (filter_endpoints v.endpoints q.endpoint) == 0),
              refl,
              endpoint_iff q.endpoint v.endpoints,
            ))))

wrap_selector_ok :
    (r : Result SelectorError Selector) {s : Selector} → wrap_selector r ≡ ok s → r ≡ ok s
unfolding wrap_selector
wrap_selector_ok (ok t) h = cc h
wrap_selector_ok (err e) h = absurd cc

-- Every query that is parsed from a URL is decided without a panic, for every instance: the answer
-- is true exactly if the namespace, the service, the zone, the labels and the endpoints of the
-- instance each meet what the query sets. A service meets a service prefix if its name begins with
-- the bytes of the prefix: unlike docs/modules/registry.md says, it need not be equal to the prefix
-- or go on with a dot, so that acme2 meets acme.
pub parse_query-Decides :
    (to_lower : Bytes → Bytes) (values : UrlValues) (v : Value) {q : Query}
    → parse_query to_lower values ≡ ok q
    → Decides (match_query v q) (Matches v q)
unfolding parse_query
parse_query-Decides to_lower values v {q} h =
    match_query-Decides v q
      (elim (Bool-cases (eqb (trim (get_value values (codes "namespace"))) [])) [
        | inl missing ↦ absurd (let e = rw missing at h in cc)
        | inr given ↦
            let (r, hr, h1) =
              bind-eq-ok
                (normalize_query_service_identity (query_dimensions values) (initial_query values))
                _ (rw given at h) in
            let (limit, hl, h2) =
              bind-eq-ok (parse_limit (get_value values (codes "limit"))) _ h1 in
            let (selector, hs, h3) =
              bind-eq-ok
                (wrap_selector (
                  parse_label_selector_filters to_lower (get_all values (codes "selector"))
                    (get_all values (codes "label"))))
                _ h2 in
            let same : record r { limit = limit; selector = selector } ≡ q = cc h3 in
            let shaped =
              parse_label_selector_filters-IsRequirement to_lower
                (get_all values (codes "selector")) (get_all values (codes "label"))
                (wrap_selector_ok
                  (parse_label_selector_filters to_lower (get_all values (codes "selector"))
                    (get_all values (codes "label")))
                  hs) in
            subst (λ u. All IsRequirement u.selector) same shaped
      ])

-- With one service prefix and no other service filter, every trimmed service name that begins with
-- the bytes of the prefix is matched, whether a dot follows or not.
prefix_without_dot :
    (prefix rest : Bytes) (q : Query)
    → trim (prefix ++ rest) ≡ prefix ++ rest
    → q.service ≡ []
    → q.services ≡ []
    → q.service_prefixes ≡ prefix ∷ []
    → match_service_query (prefix ++ rest) q ≡ true
unfolding match_service_query
prefix_without_dot prefix rest q t a b c =
    rw t
      ((match_service_query_iff (prefix ++ rest) q).1 (inl a, inl b, inr (rw c (inl (rest, refl)))))
