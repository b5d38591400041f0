-- ===== src/Tests/Replicating.antt =====
-- Replicated values and their keys.
use stellmap_service.Base.{◌≤◌, ◌≡◌, refl, false, [], ◌∷◌, some, arith, ◌==◌, any, pos}
use stellmap_service.Replication.Tracker.{
  Task, Tracker, new_tracker, key, update_revision, set_connected, record_error,
}
use stellmap_service.Replication.Tracker.Revisions.{applied, applied_never_back}
use stellmap_service.Text.{Bytes, codes, eqb, trim, trim_prefix, has_prefix, index, split}
use stellmap_service.Text.Split.{Lacks}
use stellmap_service.Registry.Types.{RegisterInput}
use stellmap_service.Registry.Keys.{
  replicated_key, replication_checkpoint_key, parse_replication_checkpoint_key,
}
use stellmap_service.Registry.Replication.{parse_replicated_key}
use stellmap_service.Registry.Replication.Values.{
  IsName, parse_replication_checkpoint_key-replication_checkpoint_key,
}

abbrev registration : RegisterInput
registration = record {
  namespace = codes "prod";
  identity = record {
    service = codes "api";
    dimensions = record {
      organization = [];
      business_domain = [];
      capability_domain = [];
      application = [];
      role = [];
    };
  };
  instance_id = codes "i-1";
  zone = codes "az1";
  labels = (codes " color", codes "gray ") ∷ [];
  metadata = [];
  endpoints = [];
  lease_ttl_seconds = pos 0;
}

name : (s : Bytes) → eqb (trim s) [] ≡ false → any (λ c. c == b'/') (trim s) ≡ false → IsName s
name s filled none_there = (filled, lacks (trim s) none_there)
  where
    lacks : (t : Bytes) → any (λ c. c == b'/') t ≡ false → Lacks b'/' t
    lacks [] h = tt
    lacks (c ∷ t) h = (ground arith, lacks t (ground arith))

eu-IsName : IsName (codes " eu")
unfolding trim eqb
eu-IsName = name (codes " eu") refl refl

api-IsName : IsName (codes "api")
unfolding trim eqb
api-IsName = name (codes "api") refl refl

parse_replication_checkpoint_key-replication_checkpoint_key_example :
    parse_replication_checkpoint_key
      (replication_checkpoint_key (codes " eu") (codes "api") (codes " eu") (codes "api"))
    ≡ some (trim (codes " eu"), trim (codes "api"), trim (codes " eu"), trim (codes "api"))
parse_replication_checkpoint_key-replication_checkpoint_key_example =
    parse_replication_checkpoint_key-replication_checkpoint_key (codes " eu") (codes "api")
      (codes " eu") (codes "api") eu-IsName api-IsName eu-IsName api-IsName

replicated_key-parsed :
    parse_replicated_key
      (replicated_key (codes "eu") (codes "c1") (codes "prod") (codes "api") (codes "i-1"))
    ≡ some (codes "eu" ∷ codes "c1" ∷ codes "prod" ∷ codes "api" ∷ codes "i-1" ∷ [])
unfolding parse_replicated_key replicated_key trim eqb trim_prefix has_prefix index split
replicated_key-parsed = refl

abbrev task : Task
task = record {
  region = codes "eu";
  cluster = codes "c1";
  namespace = codes "prod";
  service = codes "api";
}

abbrev tracker : Tracker
tracker = update_revision task 7 0 (pos 100) new_tracker

applied_never_back_example :
    (applied (key task) tracker ≤ applied (key task) (update_revision task 5 0 (pos 101) tracker))
    × (5 ≤ applied (key task) (update_revision task 5 0 (pos 101) tracker))
    × (applied (key task) tracker ≡ applied (key task) (set_connected task false (pos 101) tracker))
    × (applied (key task) tracker
        ≡ applied (key task) (record_error task (codes "timeout") (pos 101) tracker))
applied_never_back_example =
    applied_never_back task 5 0 false (codes "timeout") (pos 101) tracker (key task)
