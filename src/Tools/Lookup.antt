-- ===== src/Tools/Lookup.antt =====
-- What a registry answers, in terms of the list of tools that it was made from.
use nemoir_web_runtime.Prelude.{
  ◌≡◌, refl, false, Option, none, some, List, [], ◌∷◌, arith, ap, sym, ◌∙◌, if◌then◌else◌, All,
}
use nemoir_web_runtime.Errors.{ok, bind-eq-ok}
use nemoir_web_runtime.Js.Text.{JsString, ◌==◌, eq_iff}
use nemoir_web_runtime.Js.Dict.{Dict, lookup, has, insert, lookup-insert, lookup-of_not_has}
use nemoir_web_runtime.Js.Group.{get_list, under, group_onto, get_list-group}
use nemoir_web_runtime.Tools.{
  Tool, ToolRegistry, tool_capability, register, register_all, validate_tool, validate_tools,
  new_registry, first_of_list, get_tool, get_by_name,
}

-- The first tool of this name.
abbrev pub named : JsString → List Tool → Option Tool
named name [] = none
named name (t ∷ ts) = if t.name == name then some t else named name ts

abbrev or_else : Option Tool → Option Tool → Option Tool
or_else none o = o
or_else (some t) o = some t

register_all-by_capability :
    (ts : List Tool) (start reg : ToolRegistry)
    → register_all ts start ≡ ok reg
    → reg.by_capability ≡ group_onto tool_capability ts start.by_capability
unfolding register_all group_onto register
register_all-by_capability [] start reg h = ground arith
register_all-by_capability (t ∷ ts) start reg h =
    let (next, registered, h') = bind-eq-ok (register t start) _ h in
    register_all-by_capability ts next reg h' ∙ ap (group_onto tool_capability ts) (ground arith)

insert_or_else :
    (t : Tool) (start : ToolRegistry) (name : JsString) (o : Option Tool)
    → lookup t.name start.by_name ≡ none
    → or_else (if t.name == name then some t else lookup name start.by_name) o
      ≡ or_else (lookup name start.by_name) (if t.name == name then some t else o)
insert_or_else t start name o h = ground (arith, eq_iff t.name name)

register_all-by_name :
    (ts : List Tool) (start reg : ToolRegistry) (name : JsString)
    → register_all ts start ≡ ok reg
    → lookup name reg.by_name ≡ or_else (lookup name start.by_name) (named name ts)
unfolding register_all register
register_all-by_name [] start reg name h = ground arith
register_all-by_name (t ∷ ts) start reg name h =
    let (next, registered, h') = bind-eq-ok (register t start) _ h in
    let fresh : has t.name start.by_name ≡ false = ground arith in
    let added : next.by_name ≡ insert t.name t start.by_name = ground arith in
    register_all-by_name ts next reg name h'
    ∙ ap (λ (o : Option Tool). or_else o (named name ts))
        (ap (lookup name) added ∙ lookup-insert t.name name t start.by_name)
    ∙ insert_or_else t start name (named name ts) (lookup-of_not_has t.name start.by_name fresh)

validate_tools-All :
    (ts : List Tool) {u : Unit} → validate_tools ts ≡ ok u → All (λ t. validate_tool t ≡ ok tt) ts
unfolding validate_tools
validate_tools-All [] h = tt
validate_tools-All (t ∷ ts) h =
    let (checked, valid, h') = bind-eq-ok (validate_tool t) _ h in (valid, validate_tools-All ts h')

abbrev empty : ToolRegistry
empty = record { by_capability = []; by_name = [] }

-- A registry that is made from a list of tools finds, by a capability, the first tool of the list that
-- has it, and by a name the tool of that name; and every tool of the list passed validation.
pub new_registry-finds :
    (ts : List Tool) (reg : ToolRegistry)
    → new_registry ts ≡ ok reg
    → ((cap : JsString) → get_tool cap reg ≡ first_of_list (under tool_capability cap ts))
      × ((name : JsString) → get_by_name name reg ≡ named name ts)
      × All (λ t. validate_tool t ≡ ok tt) ts
unfolding new_registry get_tool get_by_name
new_registry-finds ts reg h =
    let (made, registered, h') = bind-eq-ok (register_all ts empty) _ h in
    let (checked, valid, h'') = bind-eq-ok (validate_tools ts) _ h' in
    let same : made ≡ reg = ground arith in
    (
      λ cap.
          ap (λ (r : ToolRegistry). first_of_list (get_list cap r.by_capability)) (sym same)
          ∙ ap (λ (d : Dict (List Tool)). first_of_list (get_list cap d))
              (register_all-by_capability ts empty made registered)
          ∙ ap first_of_list (get_list-group tool_capability cap ts),
      λ name.
          ap (λ (r : ToolRegistry). lookup name r.by_name) (sym same)
          ∙ register_all-by_name ts empty made name registered
          ∙ (unfold lookup in refl),
      validate_tools-All ts valid,
    )
