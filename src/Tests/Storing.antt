-- ===== src/Tests/Storing.antt =====
-- Commands, scans and the rounds of the cleanup on three registrations.
use stellmap_service.Base.{
  ◌*◌, ◌<◌, ◌≡◌, refl, [], ◌∷◌, map, none, arith, if◌then◌else◌, length, pos,
}
use stellmap_service.Text.{Bytes, codes, eqb}
use stellmap_service.GoMap.{lookup, IsMap}
use stellmap_service.Storage.{Command, delete_prefix}
use stellmap_service.Storage.Memory.{
  count_if, is_deleted, MemoryStateMachine, apply, scan, in_range,
}
use stellmap_service.Storage.Memory.Laws.{content, meaning, apply-content}
use stellmap_service.Storage.Memory.Scan.Complete.{find_item, scan_complete}
use stellmap_service.Storage.Order.{lt_bytes}
use stellmap_service.Registry.Cleanup.{CleanupCursor, next}
use stellmap_service.Registry.Cleanup.Paging.{pass, pass_lem}

abbrev three : MemoryStateMachine
three = record {
  entries =
      (codes "/registry/b", codes "2")
      ∷ (codes "/registry/a", codes "1")
      ∷ (codes "/registry/ab", codes "3")
      ∷ [];
  applied_index = 3;
}

three-IsMap : IsMap three.entries
unfolding lookup eqb
three-IsMap = (refl, (refl, (refl, tt)))

abbrev clear_a : Command
clear_a = record { operation = delete_prefix; key = []; value = []; prefix = codes "/registry/a" }

abbrev start : Bytes
start = codes "/registry/"

abbrev end : Bytes
end = codes "/registry0"

apply-content_example :
    content (apply three clear_a).0 (codes "/registry/b")
    ≡ meaning delete_prefix clear_a (content three) (codes "/registry/b")
apply-content_example = apply-content three clear_a (codes "/registry/b")

clear_a-modified : (apply three clear_a).1 ≡ 2
unfolding apply count_if is_deleted
clear_a-modified = refl

scan_complete_example : find_item (codes "/registry/a") (scan three start end (pos 0)) ≡ (
    if in_range start end (codes "/registry/a")
    then lookup (codes "/registry/a") three.entries
    else none)
scan_complete_example = scan_complete three start end (codes "/registry/a")

abbrev cursor : CleanupCursor
cursor = record { scan_start = [] }

three-scanned :
    map (λ i. i.key) (scan three start end (pos 0))
    ≡ codes "/registry/a" ∷ codes "/registry/ab" ∷ codes "/registry/b" ∷ []
unfolding scan lt_bytes lookup eqb
three-scanned = refl

three-size : length (scan three (next cursor start) end (pos 0)) < 2 * 2
unfolding scan lt_bytes lookup eqb next
three-size = omega arith

pass_lem_example : pass 2 three start end 2 cursor ≡ scan three (next cursor start) end (pos 0)
pass_lem_example = pass_lem 2 three start end 1 cursor three-IsMap three-size
