-- ===== src/Permission/Normalizer.antt =====
-- normalizeToolCall of packages/core/src/permission/normalizer.js on an action envelope; an input that
-- is a normalized call already is returned as it is. A text that is empty is absent, which the
-- source's `||` treats alike. What the detectors say of the arguments and the context is given.
use ruleoak.Common.{Bool, Option, none, some, ◌&&◌, if◌then◌else◌, is_empty}
use ruleoak.Common.Texts.{Text, text, same}
use ruleoak.Permission.Call.{Call, or_default, split_category, split_operation}

-- input.actor, and the fields of input.metadata that name an actor.
pub record ActorFields : Type 0 where
  pub type : Text
  pub name : Text
  pub session_id : Text
  pub id : Text

pub record Envelope : Type 0 where
  pub type : Text
  pub action : Text
  pub target : Text
  -- input.arguments.path and input.arguments.target
  pub argument_path : Text
  pub argument_target : Text
  pub actor : ActorFields
  pub metadata_actor : ActorFields
  -- input.metadata
  pub category : Text
  pub operation : Text
  pub scope : Text
  pub metadata_sensitivity : Text
  pub sensitivity : Text
  pub detected_secrets : Bool
  pub detected_prompt_injection : Bool
  pub intent_id : Option Text
  pub task_id : Option Text

pub record NormalizeOptions : Type 0 where
  pub session_id : Text
  pub agent_id : Text
  pub scope : Text

-- categoryFromActionType
unfoldable pub category_from_action_type : Text → Text
category_from_action_type type =
    if same (split_category type) (text "filesystem")
    then text "file"
    else or_default (split_category type) (text "custom")

-- operationFromActionType
unfoldable pub operation_from_action_type : Text → Text
operation_from_action_type type =
    if same (split_operation type) (text "run")
    then text "execute"
    else or_default (split_operation type) (text "execute")

abbrev pub if_present : Text → Option Text
if_present s = if is_empty s then none else some s

unfoldable pub call_of_envelope : Envelope → NormalizeOptions → Call
call_of_envelope e o =
    let type = or_default e.type e.action in
    record {
      actor = record {
        type = or_default e.actor.type (or_default e.metadata_actor.type (text "agent"));
        name = or_default e.actor.name (or_default e.metadata_actor.name (text "unknown-agent"));
        session_id = or_default e.actor.session_id (
            or_default e.metadata_actor.session_id
              (or_default o.session_id (text "default-session")));
        id = if_present (or_default e.actor.id (or_default e.metadata_actor.id o.agent_id));
      };
      tool = record {
        name = type;
        category = or_default e.category (category_from_action_type type);
        operation = or_default e.operation (operation_from_action_type type);
      };
      target = record {
        resource = or_default e.target (or_default e.argument_path e.argument_target);
        scope = or_default e.scope (or_default o.scope (text "local"));
        sensitivity = or_default e.metadata_sensitivity (or_default e.sensitivity (text "unknown"));
      };
      detected_secrets = e.detected_secrets;
      detected_prompt_injection = e.detected_prompt_injection;
      intent_id = e.intent_id;
      task_id = e.task_id;
    }

-- normalizeToolCall: `none` where the envelope is invalid and it throws.
unfoldable pub normalize_tool_call : Envelope → NormalizeOptions → Option Call
normalize_tool_call e o =
    if is_empty e.type && is_empty e.action then none else some (call_of_envelope e o)
