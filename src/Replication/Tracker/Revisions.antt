-- ===== src/Replication/Tracker/Revisions.antt =====
-- The applied revision of a replication task never goes back.
use stellmap_service.Base.{
  ℕ, ◌≤◌, ◌≡◌, inl, inr, refl, sym, ap, ◌∙◌, subst, Bool, true, false, Option, some, arith,
  if◌then◌else◌, Bool-cases, ℤ,
}
use stellmap_service.Text.{Bytes, eqb}
use stellmap_service.Text.Split.{eqb_iff, eqb_refl}
use stellmap_service.GoMap.{lookup, lookup-insert}
use stellmap_service.Replication.Tracker.{
  Status, Tracker, Task, key, found_status, status_at, named, connected_status, revised_status,
  failed_status, change, set_connected, update_revision, record_error,
}

found_status-if :
    (b : Bool) (s : Status) (o : Option Status)
    → found_status (if b then some s else o) ≡ (if b then s else found_status o)
found_status-if true s o = refl
found_status-if false s o = refl

-- A change concerns the status under the task's key and no other.
status_at-change :
    (task : Task) (f : Status → Status) (t : Tracker) (k : Bytes)
    → status_at k (change task f t)
      ≡ (if eqb (key task) k then f (named task (status_at (key task) t)) else status_at k t)
unfolding change status_at
status_at-change task f t k =
    let s : Status = f (named task (found_status (lookup (key task) t))) in
    ap found_status (lookup-insert (key task) k s t)
    ∙ found_status-if (eqb (key task) k) s (lookup k t)

abbrev pub applied : Bytes → Tracker → ℕ
applied k t = (status_at k t).last_applied_revision

applied-if :
    (b : Bool) (s u : Status)
    → (if b then s else u).last_applied_revision
      ≡ (if b then s.last_applied_revision else u.last_applied_revision)
applied-if true s u = refl
applied-if false s u = refl

if_true : (b : Bool) (m n : ℕ) → b ≡ true → (if b then m else n) ≡ m
if_true b m n h = rw h

if_false : (b : Bool) (m n : ℕ) → b ≡ false → (if b then m else n) ≡ n
if_false b m n h = rw h

applied-change :
    (task : Task) (f : Status → Status) (t : Tracker) (k : Bytes)
    → applied k (change task f t) ≡ (
        if eqb (key task) k
        then (f (named task (status_at (key task) t))).last_applied_revision
        else applied k t)
applied-change task f t k =
    ap (λ (s : Status). s.last_applied_revision) (status_at-change task f t k)
    ∙ applied-if (eqb (key task) k) (f (named task (status_at (key task) t))) (status_at k t)

applied-change_own :
    (task : Task) (f : Status → Status) (t : Tracker)
    → applied (key task) (change task f t)
      ≡ (f (named task (status_at (key task) t))).last_applied_revision
applied-change_own task f t =
    applied-change task f t (key task)
    ∙ if_true (eqb (key task) (key task))
        ((f (named task (status_at (key task) t))).last_applied_revision) (applied (key task) t)
        (eqb_refl (key task))

named_keeps :
    (task : Task) (s : Status) → (named task s).last_applied_revision ≡ s.last_applied_revision
unfolding named
named_keeps task s = refl

revised_grows :
    (reported snapshot : ℕ) (clock : ℤ) (s : Status)
    → s.last_applied_revision ≤ (revised_status reported snapshot clock s).last_applied_revision
unfolding revised_status
revised_grows reported snapshot clock s = ground arith

revised_reaches :
    (reported snapshot : ℕ) (clock : ℤ) (s : Status)
    → reported ≤ (revised_status reported snapshot clock s).last_applied_revision
unfolding revised_status
revised_reaches reported snapshot clock s = ground arith

connected_keeps :
    (up : Bool) (clock : ℤ) (s : Status)
    → s.last_applied_revision ≡ (connected_status up clock s).last_applied_revision
unfolding connected_status
connected_keeps true clock s = refl
connected_keeps false clock s = refl

failed_keeps :
    (message : Bytes) (clock : ℤ) (s : Status)
    → s.last_applied_revision ≡ (failed_status message clock s).last_applied_revision
unfolding failed_status
failed_keeps message clock s = refl

-- A relation between the revisions before and after that the change of a status has, and that
-- holds of equal revisions, holds at every key.
change_relates :
    (R : ℕ → ℕ → Type 0) (task : Task) (f : Status → Status) (t : Tracker) (k : Bytes)
    → ((s : Status) → R s.last_applied_revision (f s).last_applied_revision)
    → ((n : ℕ) → R n n)
    → R (applied k t) (applied k (change task f t))
change_relates R task f t k h same = elim (Bool-cases (eqb (key task) k)) [
  | inl e ↦
      let p : key task ≡ k = (eqb_iff (key task) k).0 e in
      subst (λ j. R (applied j t) (applied j (change task f t))) p
        (subst (R (applied (key task) t)) (sym (applied-change_own task f t))
          (own (status_at (key task) t)))
  | inr e ↦
      subst (R (applied k t))
        (sym (
          applied-change task f t k
          ∙ if_false (eqb (key task) k)
              ((f (named task (status_at (key task) t))).last_applied_revision) (applied k t) e))
        (same (applied k t))
]
  where
    own : (s : Status) → R s.last_applied_revision (f (named task s)).last_applied_revision
    own s =
        subst (λ (n : ℕ). R n (f (named task s)).last_applied_revision) (named_keeps task s)
          (h (named task s))

-- At every key, an update of the revision never takes the applied revision back, and at its own
-- task raises it at least to the one reported; a change of the connection and an error leave it as
-- it is.
pub applied_never_back :
    (task : Task) (reported snapshot : ℕ) (up : Bool) (message : Bytes) (clock : ℤ) (t : Tracker)
    (k : Bytes)
    → (applied k t ≤ applied k (update_revision task reported snapshot clock t))
      × (reported ≤ applied (key task) (update_revision task reported snapshot clock t))
      × (applied k t ≡ applied k (set_connected task up clock t))
      × (applied k t ≡ applied k (record_error task message clock t))
unfolding update_revision set_connected record_error
applied_never_back task reported snapshot up message clock t k = (
  change_relates (λ m n. m ≤ n) task (revised_status reported snapshot clock) t k
      (revised_grows reported snapshot clock) (λ n. omega arith),
  (let q = applied-change_own task (revised_status reported snapshot clock) t in
      subst (λ (n : ℕ). reported ≤ n) (sym q)
        (revised_reaches reported snapshot clock (named task (status_at (key task) t)))),
  change_relates (λ m n. m ≡ n) task (connected_status up clock) t k (connected_keeps up clock)
      (λ n. refl),
  change_relates (λ m n. m ≡ n) task (failed_status message clock) t k (failed_keeps message clock)
      (λ n. refl),
)
