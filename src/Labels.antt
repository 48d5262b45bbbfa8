-- ===== src/Labels.antt =====
-- `ParseLabels` of pkg/utils/base.go. The tokens are read left to right, a later label of a key
-- replaces an earlier one, and a nil map is `none`.
pub mod RoundTrip
use polaris_sidecar.Prelude.{List, Option, [], if◌then◌else◌, is_empty, none, some, ◌∷◌}
use polaris_sidecar.Prelude.Assoc.{Assoc, insert}
use polaris_sidecar.Prelude.Text.{Str, split}

-- `values[pairs[0]] = pairs[1]`, if there are two parts or more.
unfoldable pub store_pair : List Str → Assoc Str → Assoc Str
store_pair (k ∷ v ∷ rest) values = insert k v values
store_pair _ values = values

unfoldable pub parse_tokens : List Str → Assoc Str → Assoc Str
unfolding store_pair
parse_tokens [] values = values
parse_tokens (token ∷ tokens) values =
    parse_tokens tokens (if is_empty token then values else store_pair (split b':' token) values)

unfoldable pub parse_labels : Str → Option (Assoc Str)
unfolding parse_tokens
parse_labels labels = if is_empty labels then none else some (parse_tokens (split b',' labels) [])
