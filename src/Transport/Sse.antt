-- ===== src/Transport/Sse.antt =====
-- `writeSSEEvent`, `writeSSEPing`, `prefixRange` and `parseSinceRevision`
-- (internal/transport/http/handlers_impl.go).
use stellmap_service.Base.{ℕ, [], ◌∷◌, ◌++◌, Option, some}
use stellmap_service.Text.{Bytes, codes, trim}
use stellmap_service.Storage.Uint64.{format_uint}

-- the payload is what `json.Marshal` gives
unfoldable pub write_sse_event : ℕ → Bytes → Bytes → Bytes
write_sse_event revision event payload =
    (codes "id: " ++ format_uint revision)
    ++ (10 ∷ ((codes "event: " ++ event) ++ (10 ∷ ((codes "data: " ++ payload) ++ (10 ∷ 10 ∷ [])))))

unfoldable pub write_sse_ping : Bytes
write_sse_ping = codes ": ping" ++ (10 ∷ 10 ∷ [])

unfoldable pub prefix_upper_bound : Bytes → Bytes
prefix_upper_bound [] = []
prefix_upper_bound (b ∷ bs) = (b ∷ bs) ++ 0xFF ∷ []

unfoldable pub prefix_range : Bytes → Bytes × Bytes
unfolding prefix_upper_bound
prefix_range [] = ([], [])
prefix_range (b ∷ bs) = (b ∷ bs, prefix_upper_bound (b ∷ bs))

-- `strconv.ParseUint` is the parameter
unfoldable parse_since : (Bytes → Option ℕ) → Bytes → Option ℕ
parse_since parse_uint [] = some 0
parse_since parse_uint (b ∷ bs) = parse_uint (b ∷ bs)

unfoldable parse_since_revision : (Bytes → Option ℕ) → Bytes → Option ℕ
unfolding parse_since
parse_since_revision parse_uint raw = parse_since parse_uint (trim raw)
