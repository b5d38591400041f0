-- ===== src/Registry/Keys/RoundTrip.antt =====
-- Keys and their parts determine one another, and a prefix scan finds the instances of one
-- service; with a slash in a name neither holds.
use stellmap_service.Base.{
  ℕ, ◌≡◌, inl, inr, refl, sym, ap, ap₂, ◌∙◌, false, List, [], ◌∷◌, ◌++◌, append_assoc, some, arith,
  Bool-cases, length, drop,
}
use stellmap_service.Text.{Bytes, has_prefix, trim_prefix, split, join}
use stellmap_service.Text.Split.{
  Lacks, split-join, join-split, has_prefix-append, has_prefix→append,
}
use stellmap_service.Registry.ServiceName.{is_blank}
use stellmap_service.Registry.Keys.{root_prefix, service_prefix, key, three_parts, parse_key}

drop-append : (p s : Bytes) → drop (length p) (p ++ s) ≡ s
drop-append [] s = refl
drop-append (a ∷ p) s = drop-append p s

pub trim_prefix-append : (p s : Bytes) → trim_prefix (p ++ s) p ≡ s
unfolding trim_prefix
trim_prefix-append p s = rw (has_prefix-append p s) (drop-append p s)

-- A part of a key: not blank, and without a slash.
abbrev pub IsPart : Bytes → Type 0
IsPart s = (is_blank s ≡ false) × Lacks b'/' s

-- A key of three parts, none of them blank or with a slash, parses to them.
parse-key :
    (namespace service instance_id : Bytes)
    → IsPart namespace
    → IsPart service
    → IsPart instance_id
    → parse_key (key namespace service instance_id) ≡ some (namespace, service, instance_id)
unfolding parse_key key
parse-key a b c (ba, la) (bb, lb) (bc, lc) =
    let body : Bytes = a ++ (b'/' ∷ (b ++ (b'/' ∷ c))) in
    let parts : split body b'/' ≡ a ∷ b ∷ c ∷ [] =
      unfold join in split-join b'/' a (b ∷ c ∷ []) la (lb, (lc, tt)) in
    rw (has_prefix-append root_prefix body, trim_prefix-append root_prefix body, parts, ba, bb, bc)

three_parts_inv :
    (ps : List Bytes) {a b c : Bytes} → three_parts ps ≡ some (a, b, c) → ps ≡ a ∷ b ∷ c ∷ []
unfolding three_parts
three_parts_inv [] h = absurd cc
three_parts_inv (a ∷ []) h = absurd cc
three_parts_inv (a ∷ b ∷ []) h = absurd cc
three_parts_inv (a ∷ b ∷ c ∷ []) h = ground arith
three_parts_inv (a ∷ b ∷ c ∷ d ∷ r) h = absurd cc

joined_three : (a b c : Bytes) → a ++ (b'/' ∷ (b ++ (b'/' ∷ c))) ≡ join (a ∷ b ∷ c ∷ []) (b'/' ∷ [])
unfolding join
joined_three a b c = refl

-- A key that parses is the key of its parts.
key-parse :
    (raw : Bytes) {namespace service instance_id : Bytes}
    → parse_key raw ≡ some (namespace, service, instance_id)
    → key namespace service instance_id ≡ raw
unfolding parse_key key
key-parse raw {namespace = a} {service = b} {instance_id = c} h =
    elim (Bool-cases (has_prefix raw root_prefix)) [
      | inr no_prefix ↦ absurd (let q = rw no_prefix at h in cc)
      | inl e ↦
          let (s, q) = has_prefix→append raw root_prefix e in
          let parts : split (trim_prefix raw root_prefix) b'/' ≡ a ∷ b ∷ c ∷ [] =
            three_parts_inv _ (rw e at h) in
          let body : split s b'/' ≡ a ∷ b ∷ c ∷ [] =
            ap (λ (r : Bytes). split r b'/')
              (sym (trim_prefix-append root_prefix s)
                ∙ ap (λ (r : Bytes). trim_prefix r root_prefix) (sym q))
            ∙ parts in
          let whole : a ++ (b'/' ∷ (b ++ (b'/' ∷ c))) ≡ s =
            joined_three a b c
            ∙ ap (λ (l : List Bytes). join l (b'/' ∷ [])) (sym body)
            ∙ join-split s b'/' in
          ap (λ (r : Bytes). root_prefix ++ r) whole ∙ sym q
    ]

-- Two texts that are cut at their first separator have equal pieces.
cut_unique :
    (b : ℕ) (x y s t : Bytes)
    → Lacks b x
    → Lacks b y
    → x ++ (b ∷ s) ≡ y ++ (b ∷ t)
    → (x ≡ y) × (s ≡ t)
cut_unique b [] [] s t hx hy e = (refl, cc e)
cut_unique b [] (c ∷ y) s t hx hy e = let q : c ≡ b = cc e in absurd (ground (arith, hy.0))
cut_unique b (c ∷ x) [] s t hx hy e = let q : c ≡ b = cc e in absurd (ground (arith, hx.0))
cut_unique b (c ∷ x) (d ∷ y) s t hx hy e =
    let q : c ≡ d = cc e in let (p, r) = cut_unique b x y s t hx.1 hy.1 (cc e) in (ap₂ ◌∷◌ q p, r)

pub service_prefix-append :
    (n s r : Bytes) → service_prefix n s ++ r ≡ root_prefix ++ (n ++ (b'/' ∷ (s ++ (b'/' ∷ r))))
unfolding service_prefix
service_prefix-append n s r = simp append_assoc

-- A slash in a name makes two instances share one key: the instance of service `b/c` in namespace
-- `a` and that of service `c` in namespace `a/b`.
key_collision :
    (a b c instance_id : Bytes)
    → key a (b ++ (b'/' ∷ c)) instance_id ≡ key (a ++ (b'/' ∷ b)) c instance_id
unfolding key
key_collision a b c i = simp append_assoc
