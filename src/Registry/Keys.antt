-- ===== src/Registry/Keys.antt =====
-- The keys under which instances, replicated instances and checkpoints are stored
-- (internal/registry/model.go and internal/registry/replication.go).
pub mod RoundTrip
use stellmap_service.Base.{
  ℕ, zero, suc, ◌+◌, ◌-◌, ◌*◌, ◌/◌, ◌%◌, ◌^◌, ◌≤◌, ◌<◌, ◌≡◌, ◌≢◌, ◌↔◌, ◌⊎◌, inl, inr, refl, sym, ap,
  ◌∙◌, subst, Bool, true, false, not, ◌&&◌, ◌||◌, List, [], ◌∷◌, ◌++◌, map, reverse, append-nil,
  append_assoc, reverse-append, reverse-reverse, Option, none, some, arith, ltb, leb, ◌==◌,
  if◌then◌else◌, ==_refl, ==→eq, Bool-cases, Option-cases, &&-true, length, take, drop, get_last?,
  select, any, All, length-append, length-drop, take-append-drop, select-append, length-select,
  All-append, ℤ, pos, negsuc, pos_part, neg_part, sub_ℕ, ◌+ℤ◌, ◌≤ℤ◌, int_leb, IsInt64, wrap_int64,
  wrap_int64_of_IsInt64, wrap_int64-IsInt64, Result, ok, err, ◌>>=◌, bind-eq-ok,
}
use stellmap_service.Text.{Bytes, eqb, trim, has_prefix, trim_prefix, split, codes}
use stellmap_service.Registry.ServiceName.{is_blank}

abbrev pub root_prefix : Bytes
root_prefix = codes "/registry/"

unfoldable pub service_prefix : Bytes → Bytes → Bytes
service_prefix namespace service = root_prefix ++ (namespace ++ (b'/' ∷ (service ++ (b'/' ∷ []))))

unfoldable pub namespace_prefix : Bytes → Bytes
namespace_prefix namespace = root_prefix ++ (trim namespace ++ (b'/' ∷ []))

unfoldable pub key : Bytes → Bytes → Bytes → Bytes
key namespace service instance_id =
    root_prefix ++ (namespace ++ (b'/' ∷ (service ++ (b'/' ∷ instance_id))))

-- the tests behind `strings.Split`
unfoldable pub three_parts : List Bytes → Option (Bytes × Bytes × Bytes)
three_parts (a ∷ b ∷ c ∷ []) =
    if is_blank a || is_blank b || is_blank c then none else some (a, b, c)
three_parts _ = none

unfoldable pub parse_key : Bytes → Option (Bytes × Bytes × Bytes)
unfolding three_parts
parse_key raw =
    if not (has_prefix raw root_prefix)
    then none
    else three_parts (split (trim_prefix raw root_prefix) b'/')

abbrev pub replication_root_prefix : Bytes
replication_root_prefix = codes "/replication/"

abbrev pub replication_registry_prefix : Bytes
replication_registry_prefix = codes "/replication/regions/"

abbrev pub replication_checkpoint_prefix : Bytes
replication_checkpoint_prefix = codes "/replication/checkpoints/"

unfoldable replication_service_prefix : Bytes → Bytes → Bytes → Bytes → Bytes
replication_service_prefix region cluster namespace service =
    replication_registry_prefix
    ++ (trim region
        ++ (codes "/clusters/"
            ++ (trim cluster
                ++ (codes "/registry/"
                    ++ (trim namespace ++ (b'/' ∷ (trim service ++ (b'/' ∷ []))))))))

unfoldable pub replicated_key : Bytes → Bytes → Bytes → Bytes → Bytes → Bytes
replicated_key region cluster namespace service instance_id =
    replication_registry_prefix
    ++ (trim region
        ++ (codes "/clusters/"
            ++ (trim cluster
                ++ (codes "/registry/"
                    ++ (trim namespace ++ (b'/' ∷ (trim service ++ (b'/' ∷ trim instance_id))))))))

unfoldable pub replication_checkpoint_key : Bytes → Bytes → Bytes → Bytes → Bytes
replication_checkpoint_key region cluster namespace service =
    replication_checkpoint_prefix
    ++ (trim region
        ++ (b'/' ∷ (trim cluster ++ (b'/' ∷ (trim namespace ++ (b'/' ∷ trim service))))))

-- the results of `ParseReplicationCheckpointKey` behind `strings.Split`, trimmed
unfoldable four_parts : List Bytes → Option (Bytes × Bytes × Bytes × Bytes)
four_parts (a ∷ b ∷ c ∷ d ∷ []) =
    if is_blank a || is_blank b || is_blank c || is_blank d
    then none
    else some (trim a, trim b, trim c, trim d)
four_parts _ = none

unfoldable pub parse_replication_checkpoint_key : Bytes → Option (Bytes × Bytes × Bytes × Bytes)
unfolding four_parts
parse_replication_checkpoint_key raw =
    if not (has_prefix raw replication_checkpoint_prefix)
    then none
    else four_parts (split (trim_prefix raw replication_checkpoint_prefix) b'/')
