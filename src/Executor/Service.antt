-- ===== src/Executor/Service.antt =====
-- `_split_service` of services/remediation-executor/app/k8s_actions.py and `_is_protected` of
-- app/main.py, with the defaults of app/config.py.
use text.Mathlib.TextLemmas.{nil-append, cons-append}
use hypertrace.Prelude.{
  String, ◌<>◌, ◌≡◌, ap, Bool, false, List, any_of, starts_with, ◌==◌, if◌then◌else◌,
}
use Prim.Native.Char.{Char, code}

-- `service.partition("/")`, without the separator: all that stands before the first slash, and all
-- behind it; without a slash the second part is empty.
abbrev push : Char → String × String → String × String
push c (a, b) = (String.◌∷◌ c a, b)

unfoldable pub split_service : String → String × String
split_service String.[] = (String.[], String.[])
split_service (String.◌∷◌ c s) =
    let rest = split_service s in if code c == b'/' then (String.[], s) else push c rest

unfoldable pub is_protected : String → List String → Bool
is_protected service prefixes = any_of (starts_with service) prefixes

-- No character of the text is a slash.
abbrev pub IsPlain : String → Type 0
IsPlain String.[] = Unit
IsPlain (String.◌∷◌ c s) = ((code c == b'/') ≡ false) × IsPlain s

-- The executor splits `namespace/workload` back into its two parts.
pub split_service-join :
    (namespace workload : String)
    → IsPlain namespace
    → split_service (namespace <> ("/" <> workload)) ≡ (namespace, workload)
unfolding split_service
split_service-join String.[] w h = rw (nil-append, cons-append, nil-append)
split_service-join (String.◌∷◌ c s) w h =
    rw cons-append (rw h.0 (ap (push c) (split_service-join s w h.1)))
