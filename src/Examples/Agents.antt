-- ===== src/Examples/Agents.antt =====
-- An agent for the small workflow, and its tools.
use nemoir_web_runtime.Prelude.{◌≡◌, refl, true, false, none, some, [], ◌∷◌}
use nemoir_web_runtime.Errors.{ok}
use nemoir_web_runtime.Js.Text.{codes}
use nemoir_web_runtime.Js.Value.{bool, str}
use nemoir_web_runtime.Tools.{Tool, ToolRegistry, get_tool}
use nemoir_web_runtime.Events.Sequence.{IsNumbered}
use nemoir_web_runtime.Events.Terminal.{terminals}
use nemoir_web_runtime.Runtime.{WorkflowRuntime}
use nemoir_web_runtime.Models.Contract.{single}
use nemoir_web_runtime.Agent.{WebUiHost, create_ui_tools, merge_tools, WorkflowAgent}
use nemoir_web_runtime.Agent.Merged.{merge_tools-get}
use nemoir_web_runtime.Agent.Run.{
  model_executor, composite_executor, create_runtime, Surroundings, agent_run,
}
use nemoir_web_runtime.Agent.Outcome.{agent_run-terminals, agent_run-IsNumbered}
use nemoir_web_runtime.Examples.Data.{
  engine, draft, done, manifest, registry, inputs, start, confirm_tool,
}
use nemoir_web_runtime.Examples.Models.{js, answering}

abbrev agent : WorkflowAgent
agent = record {
  manifest = manifest;
  tools = registry;
  model_adapter = some (single answering);
  defaults = none;
  action_protocol = none;
}

abbrev created : WorkflowRuntime
created = record {
  manifest = manifest;
  tools = registry;
  stage_executor = composite_executor js [] (model_executor agent none);
  stage_map = (codes "draft", draft) ∷ (codes "done", done) ∷ [];
}

abbrev around : Surroundings
around = record {
  engine = engine;
  has_live_sink = false;
  live = true;
  tape = λ n id. none;
  aborted = λ n. false;
}

abbrev host : WebUiHost
host = record { elicit = λ n question options. ok (str []); confirm = λ n message. ok (bool true) }

abbrev elicit_tool : Tool
elicit_tool = record {
  name = codes "elicit";
  capability = codes "user.elicit";
  input_schema = (codes "question", codes "string") ∷ (codes "options", codes "string[]") ∷ [];
  handler = λ n args. ok (str []);
  preflight = none;
}

abbrev merged : ToolRegistry
merged = record {
  by_capability =
      (codes "user.confirm", confirm_tool ∷ []) ∷ (codes "user.elicit", elicit_tool ∷ []) ∷ [];
  by_name = (codes "confirm", confirm_tool) ∷ (codes "elicit", elicit_tool) ∷ [];
}

agent_run-terminals_example : terminals (agent_run js around agent inputs none start).1.log ≡ 1
unfolding create_runtime nemoir_web_runtime.Runtime.new_runtime
    nemoir_web_runtime.Tools.require_capabilities get_tool nemoir_web_runtime.Js.Group.get_list
    nemoir_web_runtime.Js.Dict.lookup nemoir_web_runtime.Js.Text.◌==◌
    nemoir_web_runtime.Runtime.file_stages nemoir_web_runtime.Js.Dict.has
    nemoir_web_runtime.Js.Dict.insert nemoir_web_runtime.Runtime.check_ids
    nemoir_web_runtime.Runtime.check_targets
agent_run-terminals_example =
    agent_run-terminals js agent none around inputs start created refl (λ n. refl)

agent_run-IsNumbered_example : IsNumbered (agent_run js around agent inputs none start).1
unfolding create_runtime nemoir_web_runtime.Runtime.new_runtime
    nemoir_web_runtime.Tools.require_capabilities get_tool nemoir_web_runtime.Js.Group.get_list
    nemoir_web_runtime.Js.Dict.lookup nemoir_web_runtime.Js.Text.◌==◌
    nemoir_web_runtime.Runtime.file_stages nemoir_web_runtime.Js.Dict.has
    nemoir_web_runtime.Js.Dict.insert nemoir_web_runtime.Runtime.check_ids
    nemoir_web_runtime.Runtime.check_targets
agent_run-IsNumbered_example = agent_run-IsNumbered js agent none around inputs start created refl

merge_tools-get_example : get_tool (codes "user.confirm") merged ≡ some confirm_tool
unfolding merge_tools nemoir_web_runtime.Tools.new_registry nemoir_web_runtime.Tools.register_all
    nemoir_web_runtime.Tools.register nemoir_web_runtime.Js.Dict.has create_ui_tools
    nemoir_web_runtime.Js.Text.◌==◌ nemoir_web_runtime.Js.Dict.insert
    nemoir_web_runtime.Tools.validate_tools nemoir_web_runtime.Tools.validate_tool
    nemoir_web_runtime.Capabilities.get_capability nemoir_web_runtime.Js.Dict.lookup
    nemoir_web_runtime.Tools.catalog_type_to_param_type nemoir_web_runtime.Js.Text.contains
    nemoir_web_runtime.Tools.supported_param_types nemoir_web_runtime.Js.Group.push_under
    nemoir_web_runtime.Js.Group.under
merge_tools-get_example =
    merge_tools-get (confirm_tool ∷ []) (create_ui_tools host) merged (codes "user.confirm") refl
