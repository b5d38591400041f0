-- ===== src/Replication/Tracker.antt =====
-- internal/replication/tracker.go: the state of each replication task. The lock makes each method
-- one step; `clock` is what `time.Now().Unix()` returns.
pub mod Revisions
use stellmap_service.Base.{
  ℕ, ◌+◌, ◌%◌, ◌^◌, ◌≤◌, ◌≡◌, inl, inr, refl, sym, ap, ◌∙◌, subst, Bool, true, false, not, List, [],
  ◌∷◌, ◌++◌, map, Option, none, some, arith, ltb, if◌then◌else◌, Bool-cases, ℤ, pos,
}
use stellmap_service.Text.Split.{eqb_iff, eqb_refl}
use stellmap_service.Text.{Bytes, eqb}
use stellmap_service.GoMap.{lookup, insert, lookup-insert}
use stellmap_service.Storage.Order.{lt_bytes}

pub record Status : Type 0 where
  pub source_region : Bytes
  pub source_cluster_id : Bytes
  pub namespace : Bytes
  pub service : Bytes
  pub connected : Bool
  pub last_applied_revision : ℕ
  pub last_snapshot_revision : ℕ
  pub last_sync_unix : ℤ
  pub error_count : ℕ
  pub last_error : Bytes

-- the status that a missing key reads as
abbrev zero_status : Status
zero_status = record {
  source_region = [];
  source_cluster_id = [];
  namespace = [];
  service = [];
  connected = false;
  last_applied_revision = 0;
  last_snapshot_revision = 0;
  last_sync_unix = pos 0;
  error_count = 0;
  last_error = [];
}

abbrev pub Tracker : Type 0
Tracker = List (Bytes × Status)

unfoldable pub new_tracker : Tracker
new_tracker = []

-- the names of a task: region, cluster, namespace and service
pub record Task : Type 0 where
  pub region : Bytes
  pub cluster : Bytes
  pub namespace : Bytes
  pub service : Bytes

unfoldable pub key : Task → Bytes
key t = t.region ++ (0 ∷ (t.cluster ++ (0 ∷ (t.namespace ++ (0 ∷ t.service)))))

abbrev pub found_status : Option Status → Status
found_status none = zero_status
found_status (some s) = s

-- `t.status[key]`
unfoldable pub status_at : Bytes → Tracker → Status
status_at k t = found_status (lookup k t)

-- the assignments of the four names
unfoldable pub named : Task → Status → Status
named task s = record s {
  source_region = task.region;
  source_cluster_id = task.cluster;
  namespace = task.namespace;
  service = task.service;
}

unfoldable pub connected_status : Bool → ℤ → Status → Status
connected_status connected clock s =
    if connected
    then record s { connected = true; last_error = []; last_sync_unix = clock }
    else record s { connected = false }

unfoldable pub revised_status : ℕ → ℕ → ℤ → Status → Status
revised_status applied snapshot clock s = record s {
  connected = true;
  last_applied_revision =
      if ltb s.last_applied_revision applied then applied else s.last_applied_revision;
  last_snapshot_revision = if ltb 0 snapshot then snapshot else s.last_snapshot_revision;
  last_sync_unix = clock;
  last_error = [];
}

unfoldable pub failed_status : Bytes → ℤ → Status → Status
failed_status message clock s = record s {
  connected = false;
  error_count = (s.error_count + 1) % 2 ^ 64;
  last_error = message;
  last_sync_unix = clock;
}

-- the reading and the writing of the map around the change of one status
unfoldable pub change : Task → (Status → Status) → Tracker → Tracker
unfolding status_at named key
change task f t = insert (key task) (f (named task (status_at (key task) t))) t

unfoldable pub set_connected : Task → Bool → ℤ → Tracker → Tracker
unfolding connected_status change
set_connected task connected clock t = change task (connected_status connected clock) t

unfoldable pub update_revision : Task → ℕ → ℕ → ℤ → Tracker → Tracker
unfolding revised_status change
update_revision task applied snapshot clock t =
    change task (revised_status applied snapshot clock) t

unfoldable pub record_error : Task → Bytes → ℤ → Tracker → Tracker
unfolding failed_status change
record_error task message clock t = change task (failed_status message clock) t

-- the order of `List`: by region, cluster, namespace and service
unfoldable comes_before : Status → Status → Bool
comes_before s u =
    if not (eqb s.source_region u.source_region)
    then lt_bytes s.source_region u.source_region
    else if not (eqb s.source_cluster_id u.source_cluster_id)
    then lt_bytes s.source_cluster_id u.source_cluster_id
    else if not (eqb s.namespace u.namespace)
    then lt_bytes s.namespace u.namespace
    else lt_bytes s.service u.service

unfoldable insert_status : Status → List Status → List Status
insert_status s [] = s ∷ []
insert_status s (u ∷ us) = if comes_before u s then u ∷ insert_status s us else s ∷ u ∷ us

-- `sort.Slice`
unfoldable sort_statuses : List Status → List Status
unfolding insert_status comes_before
sort_statuses [] = []
sort_statuses (s ∷ us) = insert_status s (sort_statuses us)

unfoldable list_statuses : Tracker → List Status
unfolding sort_statuses
list_statuses t = sort_statuses (map (λ e. e.1) t)
