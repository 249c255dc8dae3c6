-- ===== src/Connector/Scopes/Laws.antt =====
-- normalizeScopes of connector/pkg/gatewayclient/config.go: what the scopes are like.
use open_claw_bridge.Common.{
  Bool, true, false, ◌||◌, List, [], ◌∷◌, ◌++◌, ◌≡◌, ◌≢◌, refl, ap, subst, Bool-cases, inl, inr,
  arith,
}
use open_claw_bridge.Text.{Bytes, text_eq, trim_space}
use open_claw_bridge.Text.Laws.{text_eq_iff, text_eq_refl}
use open_claw_bridge.Connector.Scopes.{
  has_text, add_scope, collect_scopes, or_default, normalize_scopes,
}

-- No scope is empty, and none occurs twice.
abbrev pub IsClean : List Bytes → Type 0
IsClean [] = Unit
IsClean (s ∷ ss) = (text_eq s [] ≡ false) × (has_text s ss ≡ false) × IsClean ss

has_text_append :
    (s t : Bytes) (ss : List Bytes)
    → has_text s ss ≡ false
    → text_eq s t ≡ false
    → has_text s (ss ++ t ∷ []) ≡ false
unfolding has_text
has_text_append s t [] h k = ground arith
has_text_append s t (u ∷ ss) h k = ground (arith, has_text_append s t ss)

text_eq_swap : (s t : Bytes) → text_eq s t ≡ false → text_eq t s ≡ false
text_eq_swap s t h = ground (arith, text_eq_iff s t, text_eq_iff t s)

or_false : (a b : Bool) → (a || b) ≡ false → (a ≡ false) × (b ≡ false)
or_false a b h = ground arith

append-IsClean :
    (ss : List Bytes) (s : Bytes)
    → IsClean ss
    → text_eq s [] ≡ false
    → has_text s ss ≡ false
    → IsClean (ss ++ s ∷ [])
unfolding has_text
append-IsClean [] s h e n = (e, refl, tt)
append-IsClean (t ∷ ss) s (te, tn, h) e n =
    let (differs, absent) = or_false (text_eq s t) (has_text s ss) n in
    (te, has_text_append t s ss tn (text_eq_swap s t differs), append-IsClean ss s h e absent)

add_scope-IsClean : (out : List Bytes) (s : Bytes) → IsClean out → IsClean (add_scope out s)
add_scope-IsClean out s h = elim (Bool-cases (text_eq s [])) [
  | inl e ↦ rw e h
  | inr e ↦ elim (Bool-cases (has_text s out)) [
    | inl n ↦ rw (e, n) h
    | inr n ↦ rw (e, n) (append-IsClean out s h e n)
  ]
]

collect_scopes-IsClean : (out ss : List Bytes) → IsClean out → IsClean (collect_scopes out ss)
unfolding collect_scopes
collect_scopes-IsClean out [] h = h
collect_scopes-IsClean out (s ∷ ss) h =
    collect_scopes-IsClean (add_scope out (trim_space s)) ss
      (add_scope-IsClean out (trim_space s) h)

or_default-IsClean : (ss : List Bytes) → IsClean ss → IsClean (or_default ss) × (or_default ss ≢ [])
unfolding has_text text_eq
or_default-IsClean [] h = ((refl, refl, (refl, refl, tt)), λ e. cc)
or_default-IsClean (s ∷ ss) h = (h, λ e. cc)

-- Whatever is configured, there is a scope, no scope is empty and none is asked for twice.
pub normalize_scopes-IsClean :
    (scopes : List Bytes) → IsClean (normalize_scopes scopes) × (normalize_scopes scopes ≢ [])
unfolding normalize_scopes
normalize_scopes-IsClean scopes =
    or_default-IsClean (collect_scopes [] scopes) (collect_scopes-IsClean [] scopes tt)

has_text_mono :
    (s t : Bytes) (ss : List Bytes) → has_text s ss ≡ true → has_text s (ss ++ t ∷ []) ≡ true
unfolding has_text
has_text_mono s t [] h = cc
has_text_mono s t (u ∷ ss) h = ground (arith, has_text_mono s t ss)

has_text_last : (s : Bytes) (ss : List Bytes) → has_text s (ss ++ s ∷ []) ≡ true
unfolding has_text
has_text_last s [] = ground (arith, text_eq_refl s)
has_text_last s (u ∷ ss) = ground (arith, has_text_last s ss)

add_scope_mono :
    (s t : Bytes) (out : List Bytes) → has_text s out ≡ true → has_text s (add_scope out t) ≡ true
add_scope_mono s t out h = ground (arith, has_text_mono s t out)

add_scope-has :
    (s : Bytes) (out : List Bytes) → text_eq s [] ≡ false → has_text s (add_scope out s) ≡ true
add_scope-has s out e = ground (arith, has_text_last s out)

collect_scopes_mono :
    (s : Bytes) (out ss : List Bytes)
    → has_text s out ≡ true
    → has_text s (collect_scopes out ss) ≡ true
unfolding collect_scopes
collect_scopes_mono s out [] h = h
collect_scopes_mono s out (t ∷ ss) h =
    collect_scopes_mono s (add_scope out (trim_space t)) ss (add_scope_mono s (trim_space t) out h)

collect_scopes-has :
    (s : Bytes) (out ss : List Bytes)
    → has_text s ss ≡ true
    → text_eq (trim_space s) [] ≡ false
    → has_text (trim_space s) (collect_scopes out ss) ≡ true
unfolding collect_scopes has_text
collect_scopes-has s out [] h e = cc
collect_scopes-has s out (t ∷ ss) h e = elim (Bool-cases (text_eq s t)) [
  | inl q ↦
      let same : trim_space s ≡ trim_space t = ap trim_space ((text_eq_iff s t).0 q) in
      collect_scopes_mono (trim_space s) (add_scope out (trim_space t)) ss (
        subst (λ u. has_text (trim_space s) (add_scope out u) ≡ true) same
          (add_scope-has (trim_space s) out e))
  | inr q ↦ collect_scopes-has s (add_scope out (trim_space t)) ss (rw q at h) e
]

or_default-has :
    (s : Bytes) (ss : List Bytes) → has_text s ss ≡ true → has_text s (or_default ss) ≡ true
unfolding has_text
or_default-has s [] h = cc
or_default-has s (t ∷ ss) h = h

-- Every configured scope that is not blank is asked for, without the white space around it.
pub normalize_scopes-has :
    (s : Bytes) (scopes : List Bytes)
    → has_text s scopes ≡ true
    → text_eq (trim_space s) [] ≡ false
    → has_text (trim_space s) (normalize_scopes scopes) ≡ true
unfolding normalize_scopes
normalize_scopes-has s scopes h e =
    or_default-has (trim_space s) (collect_scopes [] scopes) (collect_scopes-has s [] scopes h e)
