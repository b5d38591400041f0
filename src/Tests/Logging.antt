-- ===== src/Tests/Logging.antt =====
-- A log of three entries: a pair is an index with its data.
use stellmap_service.Base.{ℕ, ◌≡◌, refl, true, [], ◌∷◌, ltb, if◌then◌else◌}
use stellmap_service.Wal.{MemoryWal, append}
use stellmap_service.Wal.Merge.{Run, entry_at, entry_at-append}

abbrev index : ℕ × ℕ → ℕ
index e = e.0

abbrev log : MemoryWal ℕ (ℕ × ℕ)
log = record { state = 1; entries = (5, 50) ∷ (6, 60) ∷ (7, 70) ∷ []; opened = true }

log-Run : Run index 5 log.entries
log-Run = (refl, (refl, (refl, tt)))

overwritten : (append index log 2 ((6, 61) ∷ [])).entries ≡ (5, 50) ∷ (6, 61) ∷ []
unfolding append
overwritten = refl

entry_at-append_example :
    entry_at index 6 (append index log 2 ((6, 61) ∷ [])).entries
    ≡ (if ltb 6 6 then entry_at index 6 log.entries else entry_at index 6 ((6, 61) ∷ []))
entry_at-append_example = entry_at-append index 6 5 log 2 (6, 61) [] log-Run (refl, tt)
