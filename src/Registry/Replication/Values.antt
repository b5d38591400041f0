-- ===== src/Registry/Replication/Values.antt =====
-- What a replicated value keeps, and the round trip of checkpoint keys.
use stellmap_service.Base.{◌≡◌, false, [], ◌∷◌, ◌++◌, some}
use stellmap_service.Text.{Bytes, trim, split, join}
use stellmap_service.Text.Split.{Lacks, split-join, has_prefix-append}
use stellmap_service.Text.Trim.{trim-trim}
use stellmap_service.Registry.ServiceName.{is_blank}
use stellmap_service.Registry.Keys.{
  replication_checkpoint_prefix, replication_checkpoint_key, parse_replication_checkpoint_key,
}
use stellmap_service.Registry.Keys.RoundTrip.{trim_prefix-append}

-- Not blank, and without a slash when trimmed.
abbrev pub IsName : Bytes → Type 0
IsName s = (is_blank s ≡ false) × Lacks b'/' (trim s)

-- The key of a checkpoint parses to the trimmed names that it was made of, when none of them is
-- blank and none holds a slash.
pub parse_replication_checkpoint_key-replication_checkpoint_key :
    (region cluster namespace service : Bytes)
    → IsName region
    → IsName cluster
    → IsName namespace
    → IsName service
    → parse_replication_checkpoint_key (replication_checkpoint_key region cluster namespace service)
      ≡ some (trim region, trim cluster, trim namespace, trim service)
unfolding parse_replication_checkpoint_key replication_checkpoint_key
parse_replication_checkpoint_key-replication_checkpoint_key a b c d (ba, la) (bb, lb) (bc, lc)
      (bd, ld) =
    let body : Bytes = trim a ++ (b'/' ∷ (trim b ++ (b'/' ∷ (trim c ++ (b'/' ∷ trim d))))) in
    let parts : split body b'/' ≡ trim a ∷ trim b ∷ trim c ∷ trim d ∷ [] =
      unfold join in
      split-join b'/' (trim a) (trim b ∷ trim c ∷ trim d ∷ []) la (lb, (lc, (ld, tt))) in
    rw (
      has_prefix-append replication_checkpoint_prefix body,
      trim_prefix-append replication_checkpoint_prefix body,
      parts,
      trim-trim a,
      trim-trim b,
      trim-trim c,
      trim-trim d,
      ba,
      bb,
      bc,
      bd,
    )
