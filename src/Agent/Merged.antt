-- ===== src/Agent/Merged.antt =====
-- agent.ts: which tools an agent has.
use nemoir_web_runtime.Prelude.{
  ◌≡◌, refl, ap, ◌∙◌, true, false, Option, List, [], ◌∷◌, ◌++◌, arith, if◌then◌else◌, Bool-cases,
  inl, inr,
}
use nemoir_web_runtime.Errors.{ok}
use nemoir_web_runtime.Js.Text.{JsString, eq_iff}
use nemoir_web_runtime.Js.Group.{under}
use nemoir_web_runtime.Tools.{Tool, ToolRegistry, tool_capability, first_of_list, get_tool}
use nemoir_web_runtime.Tools.Lookup.{new_registry-finds}
use nemoir_web_runtime.Agent.{covers, not_covered, merge_tools}

-- The first tool of a list that has a capability.
abbrev pub first_for : JsString → List Tool → Option Tool
first_for cap tools = first_of_list (under tool_capability cap tools)

under-append :
    (cap : JsString) (xs ys : List Tool)
    → under tool_capability cap (xs ++ ys)
      ≡ under tool_capability cap xs ++ under tool_capability cap ys
unfolding under
under-append cap [] ys = refl
under-append cap (x ∷ xs) ys = ground (arith, under-append cap xs ys)

under-not_covered :
    (caller : List Tool) (cap : JsString) (ui : List Tool)
    → under tool_capability cap (not_covered caller ui)
      ≡ (if covers caller cap then [] else under tool_capability cap ui)
unfolding under not_covered
under-not_covered caller cap [] = ground arith
under-not_covered caller cap (t ∷ ts) =
    ground (arith, under-not_covered caller cap ts, eq_iff t.capability cap)

covers-under :
    (caller : List Tool) (cap : JsString)
    → covers caller cap ≡ false
    → under tool_capability cap caller ≡ []
unfolding under
covers-under [] cap h = refl
covers-under (t ∷ ts) cap h = ground (arith, covers-under ts cap)

first_of-covered :
    (caller : List Tool) (cap : JsString) (more : List Tool)
    → covers caller cap ≡ true
    → first_of_list (under tool_capability cap caller ++ more) ≡ first_for cap caller
unfolding under
first_of-covered [] cap more h = absurd (ground arith)
first_of-covered (t ∷ ts) cap more h = ground (arith, first_of-covered ts cap more)

first_of-merged :
    (caller ui : List Tool) (cap : JsString)
    → first_of_list
        (under tool_capability cap caller ++ under tool_capability cap (not_covered caller ui))
      ≡ (if covers caller cap then first_for cap caller else first_for cap ui)
first_of-merged caller ui cap = elim (Bool-cases (covers caller cap)) [
  | inl c ↦ rw c (first_of-covered caller cap _ c)
  | inr c ↦ rw (covers-under caller cap c, under-not_covered caller cap ui) (rw c refl)
]

-- For a capability that a caller's tool has, the merged registry finds the caller's first tool for it,
-- and for any other capability the first of the built-in tools.
pub merge_tools-get :
    (caller ui : List Tool) (reg : ToolRegistry) (cap : JsString)
    → merge_tools caller ui ≡ ok reg
    → get_tool cap reg ≡ (if covers caller cap then first_for cap caller else first_for cap ui)
unfolding merge_tools
merge_tools-get caller ui reg cap h =
    (new_registry-finds (caller ++ not_covered caller ui) reg h).0 cap
    ∙ ap first_of_list (under-append cap caller (not_covered caller ui))
    ∙ first_of-merged caller ui cap
