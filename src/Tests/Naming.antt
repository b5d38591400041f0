-- ===== src/Tests/Naming.antt =====
-- Service names and keys.
use stellmap_service.Base.{
  ℕ, ◌≡◌, ◌≢◌, refl, subst, false, [], ◌∷◌, none, some, arith, ◌==◌, any, ok,
}
use stellmap_service.Text.{Bytes, codes, trim, split, eqb, has_prefix, trim_prefix}
use stellmap_service.Text.Split.{Lacks}
use stellmap_service.Text.Trim.{IsTrimmed, trim-IsTrimmed}
use stellmap_service.Registry.Types.{Dimensions, ServiceIdentity}
use stellmap_service.Registry.ServiceName.{
  normalize_structured_service_identity, compose_service_name, parse_service_name,
  has_any_service_dimension, has_all_service_dimensions, is_blank,
}
use stellmap_service.Registry.ServiceName.RoundTrip.{IsLevel, AreLevels, parse-compose}
use stellmap_service.Registry.ServiceName.Identity.{IsNormalized, normalize-IsNormalized}
use stellmap_service.Registry.Keys.{parse_key}
use stellmap_service.Registry.Keys.RoundTrip.{IsPart}

abbrev order : Dimensions
order = record {
  organization = codes "acme";
  business_domain = codes "trade";
  capability_domain = codes "order";
  application = codes "api";
  role = codes "web";
}

abbrev pub order_name : Bytes
order_name = codes "acme.trade.order.api.web"

lacks : (b : ℕ) (s : Bytes) → any (λ c. c == b) s ≡ false → Lacks b s
lacks b [] h = tt
lacks b (c ∷ s) h = (ground arith, lacks b s (ground arith))

trimmed : (s : Bytes) → trim s ≡ s → IsTrimmed s
trimmed s e = subst IsTrimmed e (trim-IsTrimmed s)

level : (s : Bytes) → trim s ≡ s → s ≢ [] → any (λ c. c == b'.') s ≡ false → IsLevel s
level s e n l = record { trimmed = trimmed s e; ne_nil = n; lacks_dot = lacks b'.' s l }

order-AreLevels : AreLevels order
unfolding trim
order-AreLevels = record {
  organization = level (codes "acme") refl (λ q. cc) refl;
  business_domain = level (codes "trade") refl (λ q. cc) refl;
  capability_domain = level (codes "order") refl (λ q. cc) refl;
  application = level (codes "api") refl (λ q. cc) refl;
  role = level (codes "web") refl (λ q. cc) refl;
}

parse-compose_example : parse_service_name (compose_service_name order) ≡ some order
parse-compose_example = parse-compose order order-AreLevels

order_name-parses : parse_service_name (codes " acme.trade.order.api.web") ≡ some order
unfolding parse_service_name trim eqb split
order_name-parses = refl

four_levels : parse_service_name (codes "acme.trade.order.api") ≡ none
unfolding parse_service_name trim eqb split
four_levels = refl

abbrev pub raw_identity : ServiceIdentity
raw_identity = record { service = codes " "; dimensions = record order { role = codes "web " } }

abbrev pub order_identity : ServiceIdentity
order_identity = record { service = order_name; dimensions = order }

pub raw_identity-accepted : normalize_structured_service_identity raw_identity ≡ ok order_identity
unfolding normalize_structured_service_identity trim eqb compose_service_name parse_service_name
    has_any_service_dimension has_all_service_dimensions
raw_identity-accepted = refl

normalize-IsNormalized_example : IsNormalized order_identity
normalize-IsNormalized_example = normalize-IsNormalized raw_identity raw_identity-accepted

part : (s : Bytes) → is_blank s ≡ false → any (λ c. c == b'/') s ≡ false → IsPart s
part s b l = (b, lacks b'/' s l)

abbrev raw_key : Bytes
raw_key = codes "/registry/prod/api/i-1"

raw_key-parses : parse_key raw_key ≡ some (codes "prod", codes "api", codes "i-1")
unfolding parse_key trim eqb split has_prefix trim_prefix
raw_key-parses = refl

prod-IsPart : IsPart (codes "prod")
unfolding trim eqb
prod-IsPart = part (codes "prod") refl refl

api-IsPart : IsPart (codes "api")
unfolding trim eqb
api-IsPart = part (codes "api") refl refl

instance-IsPart : IsPart (codes "i-1")
unfolding trim eqb
instance-IsPart = part (codes "i-1") refl refl
