-- ===== src/Registry/StringMap.antt =====
-- `CloneStringMap` (internal/registry/model.go).
pub mod Clone
use stellmap_service.Base.{◌≡◌, refl, Bool, List, [], ◌∷◌, Option, none, some, arith, if◌then◌else◌}
use stellmap_service.Text.{Bytes, eqb, trim}
use stellmap_service.Text.Split.{eqb_iff}
use stellmap_service.GoMap.{insert}
use stellmap_service.Registry.Types.{StringMap}

-- the loop over `source` with what `cloned` holds so far
unfoldable pub clone_into : StringMap → StringMap → StringMap
unfolding insert
clone_into cloned [] = cloned
clone_into cloned ((k, v) ∷ m) =
    clone_into (if eqb (trim k) [] then cloned else insert (trim k) (trim v) cloned) m

unfoldable pub clone_string_map : StringMap → StringMap
unfolding clone_into
clone_string_map source = clone_into [] source
