-- ===== src/Registry/Cleanup/Paging.antt =====
-- The rounds of the cleanup: the pages that the cursor leads through.
pub mod Keys
use stellmap_service.Registry.Cleanup.Paging.Keys.{keys_in_range-drop}
use stellmap_service.Base.{
  ℕ, zero, suc, ◌*◌, ◌<◌, ◌≡◌, inl, inr, refl, sym, ap, ap₂, ◌∙◌, subst, Bool, true, false, ◌&&◌,
  List, [], ◌∷◌, ◌++◌, map, append-nil, some, arith, ltb, ◌==◌, if◌then◌else◌, Bool-cases, length,
  take, drop, get_last?, select, All, length-append, take-append-drop, pos, int_leb,
}
use stellmap_service.Text.{Bytes}
use stellmap_service.GoMap.{IsMap}
use stellmap_service.Storage.{Kv}
use stellmap_service.Storage.Order.{lt_bytes, lt_bytes_irrefl, lt_bytes_trans, lt_bytes-successor}
use stellmap_service.Storage.Memory.{MemoryStateMachine, sort_strings, in_range, scan}
use stellmap_service.Storage.Memory.Scan.{
  Ascending, item, keys_in_range, scan_lem, keys_in_range-Ascending,
}
use stellmap_service.Registry.Cleanup.{
  CleanupCursor, next, next_scan_start_after, last_key, advance,
}

last_key-map :
    (m : List (Bytes × Bytes)) (ks : List Bytes) → last_key (map (item m) ks) ≡ get_last? ks
unfolding last_key
last_key-map m [] = refl
last_key-map m (k ∷ []) = refl
last_key-map m (k ∷ j ∷ ks) = last_key-map m (j ∷ ks)

-- Whether the round leads back to the start of the range.
abbrev is_last_page : List Kv → ℕ → Bool
is_last_page items limit = ltb (length items) limit

-- A round of the cleanup: the page it scans, and the cursor behind it.
abbrev pub page : MemoryStateMachine → Bytes → Bytes → ℕ → CleanupCursor → List Kv
page m start end limit c = scan m (next c start) end (pos limit)

abbrev pub turn : MemoryStateMachine → Bytes → Bytes → ℕ → CleanupCursor → CleanupCursor
turn m start end limit c = advance c start (page m start end limit c) (pos limit)

length-map-item :
    (m : List (Bytes × Bytes)) (ks : List Bytes) → length (map (item m) ks) ≡ length ks
length-map-item m [] = refl
length-map-item m (k ∷ ks) = ap suc (length-map-item m ks)

take-map :
    (m : List (Bytes × Bytes)) (n : ℕ) (ks : List Bytes)
    → take n (map (item m) ks) ≡ map (item m) (take n ks)
take-map m zero ks = refl
take-map m (suc n) [] = refl
take-map m (suc n) (k ∷ ks) = ap (◌∷◌ (item m k)) (take-map m n ks)

drop-map :
    (m : List (Bytes × Bytes)) (n : ℕ) (ks : List Bytes)
    → drop n (map (item m) ks) ≡ map (item m) (drop n ks)
drop-map m zero ks = refl
drop-map m (suc n) [] = refl
drop-map m (suc n) (k ∷ ks) = drop-map m n ks

take_short : {A : Type 0} (n : ℕ) (xs : List A) → length (take n xs) < n → take n xs ≡ xs
take_short zero xs h = absurd (omega arith)
take_short (suc n) [] h = refl
take_short (suc n) (x ∷ xs) h = ap (◌∷◌ x) (take_short n xs (omega arith))

get_last_some : {A : Type 0} (xs : List A) → 0 < length xs → (x : A) × (get_last? xs ≡ some x)
get_last_some [] h = absurd (omega arith)
get_last_some (x ∷ []) h = (x, refl)
get_last_some (x ∷ y ∷ r) h = get_last_some (y ∷ r) (omega arith)

-- The cursor behind a full page is the successor of its last key.
advance_full :
    (c : CleanupCursor) (start : Bytes) (items : List Kv) (n : ℕ) {k : Bytes}
    → is_last_page items (suc n) ≡ false
    → last_key items ≡ some k
    → next (advance c start items (pos (suc n))) start ≡ next_scan_start_after k
unfolding advance next next_scan_start_after
advance_full c start items n {k} full e =
    let some_items : length items == 0 ≡ false = ground arith in
    let set : int_leb (pos (suc n)) (pos 0) ≡ false = ground arith in
    let fits : int_leb (pos (suc n)) (pos (length items)) ≡ true = ground arith in
    let longer = length-append k (0 ∷ []) in rw (some_items, set, fits, e) (ground arith)

-- A page and what is in range from the cursor behind it are the whole range.
page_lem :
    (m : MemoryStateMachine) (start end : Bytes) (n : ℕ) (c : CleanupCursor)
    → IsMap m.entries
    → is_last_page (page m start end (suc n) c) (suc n) ≡ false
    → scan m (next c start) end (pos 0)
      ≡ page m start end (suc n) c ++ scan m (next (turn m start end (suc n) c) start) end (pos 0)
page_lem m start end n c h full =
    let s : Bytes = next c start in
    let ks : List Bytes = keys_in_range m s end in
    let whole = scan_lem m s end (pos 0) in
    let first : page m start end (suc n) c ≡ map (item m.entries) (take (suc n) ks) =
      scan_lem m s end (pos (suc n)) ∙ take-map m.entries (suc n) ks in
    let size = ap length first ∙ length-map-item m.entries (take (suc n) ks) in
    let (k, e) = get_last_some (take (suc n) ks) (ground arith) in
    let last : last_key (page m start end (suc n) c) ≡ some k =
      ap last_key first ∙ last_key-map m.entries (take (suc n) ks) ∙ e in
    let rest : scan m (next (turn m start end (suc n) c) start) end (pos 0)
        ≡ drop (suc n) (map (item m.entries) ks) =
      ap (λ t. scan m t end (pos 0)) (advance_full c start (page m start end (suc n) c) n full last)
      ∙ scan_lem m (next_scan_start_after k) end (pos 0)
      ∙ ap (map (item m.entries)) (keys_in_range-drop m s end (suc n) h e)
      ∙ sym (drop-map m.entries (suc n) ks) in
    whole
    ∙ sym (take-append-drop (suc n) (map (item m.entries) ks))
    ∙ sym (ap₂ (◌++◌) (scan_lem m s end (pos (suc n))) rest)

last_page_lem :
    (m : MemoryStateMachine) (start end : Bytes) (n : ℕ) (c : CleanupCursor)
    → is_last_page (page m start end (suc n) c) (suc n) ≡ true
    → scan m (next c start) end (pos 0) ≡ page m start end (suc n) c
last_page_lem m start end n c short =
    let s : Bytes = next c start in
    let all : List Kv = map (item m.entries) (keys_in_range m s end) in
    let first = scan_lem m s end (pos (suc n)) in
    let size = ap length first in
    scan_lem m s end (pos 0) ∙ sym (take_short (suc n) all (ground arith)) ∙ sym first

-- The pages of the rounds up to the one that leads back to the start.
abbrev pub pass : ℕ → MemoryStateMachine → Bytes → Bytes → ℕ → CleanupCursor → List Kv
pass zero m start end limit c = []
pass (suc rounds) m start end limit c =
    let items = page m start end limit c in
    let rest = pass rounds m start end limit (turn m start end limit c) in
    items ++ (if is_last_page items limit then [] else rest)

-- Over a machine that does not change and has no key twice, the pages of the cleanup's rounds are together what one scan
-- of the range returns, in its order and each item once, when the rounds times the positive limit
-- exceed the number of items.
pub pass_lem :
    (rounds : ℕ) (m : MemoryStateMachine) (start end : Bytes) (n : ℕ) (c : CleanupCursor)
    → IsMap m.entries
    → length (scan m (next c start) end (pos 0)) < rounds * suc n
    → pass rounds m start end (suc n) c ≡ scan m (next c start) end (pos 0)
pass_lem zero m start end n c h bound = absurd (omega arith)
pass_lem (suc rounds) m start end n c h bound =
    elim (Bool-cases (is_last_page (page m start end (suc n) c) (suc n))) [
      | inl e ↦
          rw e (append-nil (page m start end (suc n) c) ∙ sym (last_page_lem m start end n c e))
      | inr e ↦
          let split = page_lem m start end n c h e in
          let size =
            ap length split
            ∙ length-append (page m start end (suc n) c)
                (scan m (next (turn m start end (suc n) c) start) end (pos 0)) in
          let ih = pass_lem rounds m start end n (turn m start end (suc n) c) h (ground arith) in
          rw (e, ih) (sym split)
    ]
