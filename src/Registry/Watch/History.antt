-- ===== src/Registry/Watch/History.antt =====
-- The history is the window of the last events, and an exact replay misses none.
use stellmap_service.Base.{
  ℕ, zero, suc, ◌+◌, ◌-◌, ◌≤◌, ◌<◌, ◌≡◌, inl, inr, refl, sym, ap, ◌∙◌, subst, true, false, List, [],
  ◌∷◌, ◌++◌, append-nil, append_assoc, arith, ltb, Bool-cases, length, drop, select, length-append,
  length-drop,
}
use native.Mathlib.Nat.{zero-add}
use native.Mathlib.Decide.{dec_lt}
use stellmap_service.Registry.Watch.{
  WatchEvent, history_limit, append_history, last_revision, replay_since,
}

pub drop-append_le :
    (n : ℕ) (xs ys : List WatchEvent) → n ≤ length xs → drop n (xs ++ ys) ≡ drop n xs ++ ys
drop-append_le zero xs ys h = refl
drop-append_le (suc n) [] ys h = absurd (omega arith)
drop-append_le (suc n) (x ∷ xs) ys h = drop-append_le n xs ys (omega arith)

drop_nil : (n : ℕ) → drop {A = WatchEvent} n [] ≡ []
drop_nil zero = refl
drop_nil (suc n) = refl

drop-drop : (m n : ℕ) (xs : List WatchEvent) → drop m (drop n xs) ≡ drop (n + m) xs
drop-drop m zero xs = rw zero-add
drop-drop m (suc n) [] = drop_nil m ∙ sym (drop_nil (suc n + m))
drop-drop m (suc n) (x ∷ xs) =
    let e : suc n + m ≡ suc (n + m) = omega arith in rw e (drop-drop m n xs)

-- what is kept of all that was published
abbrev window : List WatchEvent → List WatchEvent
window published = drop (length published - history_limit) published

append_within :
    (e : WatchEvent) (p : List WatchEvent)
    → length p < history_limit
    → append_history e (window p) ≡ window (p ++ e ∷ [])
unfolding append_history
append_within e p h =
    let kept : length p - history_limit ≡ 0 = omega arith in
    let size : length (p ++ e ∷ []) ≡ length p + 1 = length-append p (e ∷ []) in
    let short : ltb history_limit (length (p ++ e ∷ [])) ≡ false = rw size (ground arith) in
    let kept' : length (p ++ e ∷ []) - history_limit ≡ 0 = omega arith in rw (kept, short, kept')

append_beyond :
    (e : WatchEvent) (p : List WatchEvent)
    → history_limit ≤ length p
    → append_history e (window p) ≡ window (p ++ e ∷ [])
unfolding append_history
append_beyond e p h =
    let k : ℕ = length p - history_limit in
    let start : drop k (p ++ e ∷ []) ≡ drop k p ++ e ∷ [] =
      drop-append_le k p (e ∷ []) (omega arith) in
    let size : length (drop k p ++ e ∷ []) ≡ 2049 =
      omega (arith, length-append (drop k p) (e ∷ []), length-drop k p) in
    let all_size : length (p ++ e ∷ []) - history_limit ≡ k + 1 =
      omega (arith, length-append p (e ∷ [])) in
    rw (size, all_size) (ap (drop 1) (sym start) ∙ drop-drop 1 k (p ++ e ∷ []))

append_history-window :
    (e : WatchEvent) (p : List WatchEvent) → append_history e (window p) ≡ window (p ++ e ∷ [])
append_history-window e p = elim (dec_lt (length p) history_limit) [
  | yes h ↦ append_within e p h
  | no h ↦ append_beyond e p (omega arith)
]

-- The history that a list of publications leaves behind.
unfoldable pub histories : List WatchEvent → List WatchEvent → List WatchEvent
histories history [] = history
histories history (e ∷ es) = histories (append_history e history) es

histories-window : (p es : List WatchEvent) → histories (window p) es ≡ window (p ++ es)
unfolding histories
histories-window p [] = rw append-nil
histories-window p (e ∷ es) =
    ap (λ (h : List WatchEvent). histories h es) (append_history-window e p)
    ∙ histories-window (p ++ e ∷ []) es
    ∙ ap window (append_assoc p (e ∷ []) es)

-- After any publications the history of a new hub is the list of the last 2048 of them, or all
-- if there are fewer.
history_is_window : (es : List WatchEvent) → histories [] es ≡ drop (length es - 2048) es
history_is_window es = histories-window [] es

-- The revisions grow from each event to the next, above `low`.
abbrev pub Growing : ℕ → List WatchEvent → Type 0
Growing low [] = Unit
Growing low (e ∷ es) = (low < e.revision) × Growing e.revision es

Growing-weaken :
    (low low' : ℕ) (xs : List WatchEvent) → low ≤ low' → Growing low' xs → Growing low xs
Growing-weaken low low' [] h g = tt
Growing-weaken low low' (x ∷ xs) h (g, gs) = (omega arith, gs)

Growing-drop : (n low : ℕ) (xs : List WatchEvent) → Growing low xs → Growing low (drop n xs)
Growing-drop zero low xs g = g
Growing-drop (suc n) low [] g = tt
Growing-drop (suc n) low (x ∷ xs) (g, gs) =
    Growing-weaken low x.revision (drop n xs) (omega arith) (Growing-drop n x.revision xs gs)

abbrev pub later_than : ℕ → List WatchEvent → List WatchEvent
later_than since xs = select (λ x. ltb since x.revision) xs

-- Where the first event that is kept is at most one behind `since`, no dropped one is later.
later_than-drop :
    (n low since : ℕ) (xs : List WatchEvent) (e : WatchEvent) (es : List WatchEvent)
    → Growing low xs
    → drop n xs ≡ e ∷ es
    → e.revision ≤ since + 1
    → later_than since (drop n xs) ≡ later_than since xs
later_than-drop zero low since xs e es g d h = refl
later_than-drop (suc n) low since [] e es g d h = refl
later_than-drop (suc n) low since (x ∷ xs) e es (g, gs) d h =
    let kept : Growing x.revision (e ∷ es) =
      subst (Growing x.revision) d (Growing-drop n x.revision xs gs) in
    let old : ltb since x.revision ≡ false = ground arith in
    rw old (later_than-drop n x.revision since xs e es gs d h)

le-last_revision : (low : ℕ) (xs : List WatchEvent) → Growing low xs → low ≤ last_revision low xs
le-last_revision low [] g = omega arith
le-last_revision low (x ∷ xs) (g, gs) = omega (arith, le-last_revision x.revision xs gs)

-- No event of a growing list is later than the last.
none_later :
    (since low : ℕ) (xs : List WatchEvent)
    → Growing low xs
    → last_revision low xs < since
    → later_than since xs ≡ []
none_later since low [] g h = refl
none_later since low (x ∷ xs) (g, gs) h =
    let old : ltb since x.revision ≡ false =
      let b = le-last_revision x.revision xs gs in ground arith in
    rw old (none_later since x.revision xs gs h)

replay_is_later :
    (since low : ℕ) (xs : List WatchEvent) {replay : List WatchEvent}
    → Growing low xs
    → replay_since xs since ≡ (replay, true)
    → (e : WatchEvent) × (es : List WatchEvent) × (xs ≡ e ∷ es)
      × (e.revision ≤ since + 1)
      × (replay ≡ later_than since xs)
unfolding replay_since
replay_is_later since low [] g h = absurd cc
replay_is_later since low (e ∷ es) {replay} (g, gs) h =
    let b = le-last_revision e.revision es gs in
    elim (Bool-cases (ltb (last_revision e.revision es) since)) [
      | inl ahead ↦
          let none_left : later_than since (e ∷ es) ≡ [] =
            none_later since low (e ∷ es) (g, gs) (ground arith) in
          (
            e,
            es,
            refl,
            ground arith,
            let empty : replay ≡ [] = ground arith in empty ∙ sym none_left,
          )
      | inr behind ↦ (e, es, refl, ground arith, ground arith)
    ]

-- If the revisions published grow, from 1 on, and the hub answers a subscription since `since`
-- with an exact replay, the replay holds all events published with a revision after `since`, in
-- order, and no other.
pub replay_exact :
    (published : List WatchEvent) (since : ℕ) {replay : List WatchEvent}
    → Growing 0 published
    → replay_since (histories [] published) since ≡ (replay, true)
    → replay ≡ later_than since published
replay_exact published since {replay} g h =
    let n : ℕ = length published - 2048 in
    let h' : replay_since (drop n published) since ≡ (replay, true) =
      ap (λ (l : List WatchEvent). replay_since l since) (sym (history_is_window published)) ∙ h in
    let (e, es, d, near, same) =
      replay_is_later since 0 (drop n published) (Growing-drop n 0 published g) h' in
    same ∙ later_than-drop n 0 since published e es g d near
