-- ===== src/Connector/Scopes.antt =====
-- normalizeScopes of connector/pkg/gatewayclient/config.go. The set `seen` is the result so far: a
-- scope is in it when it was appended.
pub mod Laws
use open_claw_bridge.Common.{Bool, true, false, ◌||◌, List, [], ◌∷◌, ◌++◌, if◌then◌else◌}
use open_claw_bridge.Text.{Bytes, codes, text_eq, trim_space}

unfoldable pub has_text : Bytes → List Bytes → Bool
unfolding text_eq
has_text s [] = false
has_text s (t ∷ ts) = text_eq s t || has_text s ts

-- One round of the loop, on a trimmed scope.
abbrev pub add_scope : List Bytes → Bytes → List Bytes
add_scope out scope =
    if text_eq scope [] then out else if has_text scope out then out else out ++ scope ∷ []

unfoldable pub collect_scopes : List Bytes → List Bytes → List Bytes
unfolding has_text trim_space
collect_scopes out [] = out
collect_scopes out (s ∷ ss) = collect_scopes (add_scope out (trim_space s)) ss

abbrev pub or_default : List Bytes → List Bytes
or_default [] = codes "operator.read" ∷ codes "operator.write" ∷ []
or_default (s ∷ ss) = s ∷ ss

unfoldable pub normalize_scopes : List Bytes → List Bytes
unfolding collect_scopes
normalize_scopes scopes = or_default (collect_scopes [] scopes)
