-- ===== src/Registry/Cleanup.antt =====
-- internal/registry/cleanup.go: the cursor of the background cleanup.
pub mod Paging
use stellmap_service.Base.{
  ℕ, zero, suc, ◌+◌, ◌-◌, ◌*◌, ◌/◌, ◌%◌, ◌^◌, ◌≤◌, ◌<◌, ◌≡◌, ◌≢◌, ◌↔◌, ◌⊎◌, inl, inr, refl, sym, ap,
  ap₂, ◌∙◌, subst, fun_ext, Bool, true, false, not, ◌&&◌, ◌||◌, List, [], ◌∷◌, ◌++◌, map, reverse,
  append-nil, append_assoc, reverse-append, reverse-reverse, Option, none, some, arith, ltb, leb,
  ◌==◌, if◌then◌else◌, ==_refl, ==→eq, Bool-cases, Option-cases, &&-true, length, take, drop,
  get_last?, select, any, All, length-append, length-drop, take-append-drop, select-append,
  length-select, All-append, ℤ, pos, negsuc, pos_part, neg_part, sub_ℕ, ◌+ℤ◌, ◌≤ℤ◌, int_leb,
  IsInt64, wrap_int64, wrap_int64_of_IsInt64, wrap_int64-IsInt64, Result, ok, err, ◌>>=◌,
  bind-eq-ok,
}
use stellmap_service.Text.{Bytes}
use stellmap_service.Storage.{Kv}

pub record CleanupCursor : Type 0 where
  pub scan_start : Bytes

unfoldable pub next : CleanupCursor → Bytes → Bytes
next c default_start = if length c.scan_start == 0 then default_start else c.scan_start

unfoldable pub next_scan_start_after : Bytes → Bytes
next_scan_start_after key = key ++ 0 ∷ []

-- `items[len(items)-1].Key`, behind the test that there are items
unfoldable pub last_key : List Kv → Option Bytes
last_key items = elim (get_last? items) [ some item ↦ some item.key | none ↦ none ]

unfoldable pub advance : CleanupCursor → Bytes → List Kv → ℤ → CleanupCursor
unfolding last_key next_scan_start_after
advance c default_start items limit =
    if length items == 0 || int_leb limit (pos 0) || not (int_leb limit (pos (length items)))
    then record { scan_start = default_start }
    else elim (last_key items) [
      | some key ↦ record { scan_start = next_scan_start_after key }
      | none ↦ c
    ]
