-- ===== src/Capabilities.antt =====
-- capabilities.ts: the catalog of capabilities and their parameters.
use nemoir_web_runtime.Prelude.{
  Bool, true, false, Option, none, some, List, [], ◌∷◌, ◌&&◌, if◌then◌else◌, some_of,
}
use nemoir_web_runtime.Js.Text.{JsString, codes, ◌==◌, contains}

pub data CapabilityParamType : Type 0 where
  string path bool json : CapabilityParamType

-- `required` is an optional field; a parameter is optional only where it is `false`.
pub record CapabilityParam : Type 0 where
  pub name : JsString
  pub type : CapabilityParamType
  pub required : Option Bool

pub record CapabilitySpec : Type 0 where
  pub name : JsString
  pub required_params : List CapabilityParam

abbrev pub is_required : CapabilityParam → Bool
is_required p = elim p.required [ some b ↦ b | none ↦ true ]

-- A parameter without the field `required`, and one where it is `false`.
abbrev param : JsString → CapabilityParamType → CapabilityParam
param name type = record { name = name; type = type; required = none }

abbrev optional_param : JsString → CapabilityParamType → CapabilityParam
optional_param name type = record { name = name; type = type; required = some false }

abbrev make_spec : JsString → List CapabilityParam → CapabilitySpec
make_spec name params = record { name = name; required_params = params }

-- `spec.hasRequiredParam(n)`
unfoldable pub has_required_param : CapabilitySpec → JsString → Bool
has_required_param spec n = some_of (λ p. (p.name == n) && is_required p) spec.required_params

unfoldable pub user_elicit : JsString
user_elicit = codes "user.elicit"

unfoldable pub user_confirm : JsString
user_confirm = codes "user.confirm"

unfoldable pub browser_js_run : JsString
browser_js_run = codes "browser.js.run"

unfoldable pub browser_js_sandbox : JsString
browser_js_sandbox = codes "browser.js.sandbox"

unfoldable pub capability_catalog : List CapabilitySpec
unfolding user_elicit user_confirm browser_js_run browser_js_sandbox
capability_catalog =
    make_spec (codes "fs.read") (param (codes "path") path ∷ [])
    ∷ make_spec (codes "fs.write") (param (codes "path") path ∷ param (codes "content") string ∷ [])
    ∷ make_spec (codes "os.shell") (param (codes "command") string ∷ [])
    ∷ make_spec user_elicit (param (codes "question") string ∷ [])
    ∷ make_spec user_confirm (param (codes "message") string ∷ [])
    ∷ make_spec (codes "http.fetch") (
        param (codes "url") string
        ∷ param (codes "method") string
        ∷ optional_param (codes "headers") json
        ∷ optional_param (codes "body") json
        ∷ [])
    ∷ make_spec (codes "browser.storage.read") (param (codes "key") string ∷ [])
    ∷ make_spec (codes "browser.storage.write")
        (param (codes "key") string ∷ param (codes "value") json ∷ [])
    ∷ make_spec browser_js_run (param (codes "code") string ∷ param (codes "input") json ∷ [])
    ∷ make_spec browser_js_sandbox (param (codes "code") string ∷ param (codes "input") json ∷ [])
    ∷ []

unfoldable pub web_allowed_capabilities : List JsString
unfolding user_elicit user_confirm browser_js_run browser_js_sandbox
web_allowed_capabilities =
    user_elicit
    ∷ user_confirm
    ∷ codes "http.fetch"
    ∷ codes "browser.storage.read"
    ∷ codes "browser.storage.write"
    ∷ browser_js_run
    ∷ browser_js_sandbox
    ∷ []

unfoldable pub web_deterministic_only_capabilities : List JsString
unfolding browser_js_run browser_js_sandbox
web_deterministic_only_capabilities = browser_js_run ∷ browser_js_sandbox ∷ []

find_capability : JsString → List CapabilitySpec → Option CapabilitySpec
find_capability name [] = none
find_capability name (spec ∷ specs) =
    if spec.name == name then some spec else find_capability name specs

unfoldable pub get_capability : JsString → Option CapabilitySpec
unfolding find_capability capability_catalog
get_capability name = find_capability name capability_catalog

unfoldable pub is_known_capability : JsString → Bool
unfolding get_capability
is_known_capability name = elim (get_capability name) [ none ↦ false | some spec ↦ true ]

unfoldable pub is_web_allowed_capability : JsString → Bool
is_web_allowed_capability name = contains web_allowed_capabilities name

unfoldable pub is_deterministic_only : JsString → Bool
is_deterministic_only name = contains web_deterministic_only_capabilities name

required_names : List CapabilityParam → List JsString
required_names [] = []
required_names (p ∷ ps) =
    let rest = required_names ps in if is_required p then p.name ∷ rest else rest

unfoldable pub required_param_names : JsString → List JsString
unfolding required_names get_capability
required_param_names name = elim (get_capability name) [
  | none ↦ []
  | some spec ↦ required_names spec.required_params
]

find_param : JsString → List CapabilityParam → Option CapabilityParamType
find_param name [] = none
find_param name (p ∷ ps) = if p.name == name then some p.type else find_param name ps

unfoldable pub bound_var_type : JsString → JsString → Option CapabilityParamType
unfolding find_param get_capability
bound_var_type capability param_name = elim (get_capability capability) [
  | none ↦ none
  | some spec ↦ find_param param_name spec.required_params
]
