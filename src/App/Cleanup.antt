-- ===== src/App/Cleanup.antt =====
-- `CleanupExpiredRegistry` (internal/app/app.go): one round of the background cleanup, over the store
-- of the node. What can change while it runs, the leadership and the answers of Raft, is given for
-- each item in turn.
use stellmap_service.Base.{
  ℕ, ◌+◌, ◌≤◌, ◌≡◌, inl, inr, refl, ap, Bool, true, false, not, ◌&&◌, List, [], ◌∷◌, ◌++◌, map,
  Option, none, some, arith, ◌==◌, if◌then◌else◌, Bool-cases, length, All, ℤ, pos, int_leb,
}
use stellmap_service.Text.{Bytes}
use stellmap_service.Storage.{delete, Command, Kv}
use stellmap_service.Registry.Types.{Value}
use stellmap_service.Registry.Lease.{is_alive}
use stellmap_service.Registry.Keys.{root_prefix}
use stellmap_service.Registry.Cleanup.{CleanupCursor, next, advance}
use stellmap_service.Raftnode.Ready.{Role, follower, candidate, leader, learner, no_role}
use stellmap_service.Raftnode.Node.{Status}

unfoldable pub is_leader_role : Role → Bool
is_leader_role leader = true
is_leader_role follower = false
is_leader_role candidate = false
is_leader_role learner = false
is_leader_role no_role = false

unfoldable pub is_registry_cleanup_leader : Status → Bool
unfolding is_leader_role
is_registry_cleanup_leader st =
    st.started && (not st.stopped && (is_leader_role st.role && st.leader_id == st.node_id))

unfoldable pub delete_command : Bytes → Command
delete_command key = record { operation = delete; key = key; value = []; prefix = [] }

-- whether the item is proposed for deletion
unfoldable pub is_expired : Option Value → ℤ → Bool
is_expired none now = false
is_expired (some value) now = not (is_alive value now)

-- The loop over the items, with the status at each item, whether Raft refuses a proposal made
-- there, and the number of deletions so far: the proposals that Raft took, and whether the loop ends
-- with an error.
unfoldable pub clean_items :
    (Bytes → Option Value) → ℤ → ℤ → ℕ → List (Kv × Status × Bool) → List Command × Bool
unfolding is_expired delete_command is_registry_cleanup_leader
clean_items decode now limit deleted [] = ([], false)
clean_items decode now limit deleted ((item, status, refused) ∷ items) =
    let rest = clean_items decode now limit deleted items in
    let more = clean_items decode now limit (deleted + 1) items in
    if not (is_registry_cleanup_leader status)
    then ([], false)
    else if not (is_expired (decode item.value) now)
    then rest
    else if refused
    then ([], true)
    else if int_leb limit (pos (deleted + 1))
    then (delete_command item.key ∷ [], false)
    else (delete_command item.key ∷ more.0, more.1)

-- the range that a round scans
unfoldable cleanup_range : CleanupCursor → Bytes × Bytes
unfolding next
cleanup_range c = (next c root_prefix, root_prefix ++ 0xFF ∷ [])

-- A round whose scan gave `items`: the cursor moves before anything is deleted.
unfoldable cleanup_expired_registry :
    (Bytes → Option Value)
    → ℤ
    → ℤ
    → CleanupCursor
    → List (Kv × Status × Bool)
    → CleanupCursor × (List Command × Bool)
unfolding advance clean_items
cleanup_expired_registry decode now limit c items =
    (advance c root_prefix (map (λ i. i.0) items) limit, clean_items decode now limit 0 items)

-- The deletions of all expired items.
abbrev pub expired_commands : (Bytes → Option Value) → ℤ → List Kv → List Command
expired_commands decode now [] = []
expired_commands decode now (item ∷ items) =
    let rest = expired_commands decode now items in
    if is_expired (decode item.value) now then delete_command item.key ∷ rest else rest

-- One list begins another.
abbrev pub Begins : List Command → List Command → Type 0
Begins cs ds = (rest : List Command) × (cs ++ rest ≡ ds)

Begins-cons : (c : Command) (cs ds : List Command) → Begins cs ds → Begins (c ∷ cs) (c ∷ ds)
Begins-cons c cs ds (rest, e) = (rest, ap (◌∷◌ c) e)

nil_of_length : {A : Type 0} (xs : List A) → length xs ≤ 0 → xs ≡ []
nil_of_length [] h = refl
nil_of_length (x ∷ xs) h = absurd (omega arith)

-- Whatever happens to the leadership and to the proposals, a round deletes an unbroken beginning of
-- the expired items, in the order of the scan, and nothing else. A round that leads throughout and
-- is not refused deletes all of them if there are not more items than its positive limit.
pub clean_items_lem :
    (decode : Bytes → Option Value) (now : ℤ) (limit deleted : ℕ)
    (items : List (Kv × Status × Bool))
    → Begins
        (clean_items decode now (pos limit) deleted items).0
        (expired_commands decode now (map (λ i. i.0) items))
      × (deleted + length items ≤ limit
          → All (λ i. (is_registry_cleanup_leader i.1 ≡ true) × (i.2 ≡ false)) items
          → clean_items decode now (pos limit) deleted items
            ≡ (expired_commands decode now (map (λ i. i.0) items), false))
unfolding clean_items
clean_items_lem decode now limit deleted [] = (([], refl), λ h a. refl)
clean_items_lem decode now limit deleted ((item, status, refused) ∷ items) =
    let (begin1, all1) = clean_items_lem decode now limit deleted items in
    let (begin2, all2) = clean_items_lem decode now limit (deleted + 1) items in
    elim (Bool-cases (is_registry_cleanup_leader status)) [
      | inr e ↦ rw e ((_, refl), λ h (x, a). absurd cc)
      | inl e ↦ elim (Bool-cases (is_expired (decode item.value) now)) [
        | inr alive ↦ rw (e, alive) (begin1, λ h (x, a). all1 (omega arith) a)
        | inl dead ↦ elim (Bool-cases refused) [
          | inl stop ↦ rw (e, dead, stop) ((_, refl), λ h (x, a). absurd cc)
          | inr taken ↦ elim (Bool-cases (int_leb (pos limit) (pos (deleted + 1)))) [
            | inl full ↦
                rw (e, dead, taken, full)
                  (
                    (_, refl),
                    λ h (x, a).
                        let last : items ≡ [] = nil_of_length items (ground arith) in rw last,
                  )
            | inr room ↦
                rw (e, dead, taken, room)
                  (Begins-cons _ _ _ begin2, λ h (x, a). let q = all2 (omega arith) a in rw q refl)
          ]
        ]
      ]
    ]
