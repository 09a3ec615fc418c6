-- ===== src/Gate/Json.antt =====
-- Values of JSON, and what the gate reads of one (packages/cli/src/stream-gate.js). A number is its
-- literal; JSON.parse and JSON.stringify are parameters where they are used.
use ruleoak.Common.{Bool, true, false, Option, none, some, if◌then◌else◌, ◌&&◌}
use ruleoak.Common.Texts.{Text, text, same}

mutual
  pub data Json : Type 0 where
    null : Json
    bool : Bool → Json
    number : Text → Json
    string : Text → Json
    array : Items → Json
    object : Fields → Json

  pub data Items : Type 0 where
    no_items : Items
    item : Json → Items → Items

  pub data Fields : Type 0 where
    no_fields : Fields
    field : Text → Json → Fields → Fields

-- The property of an object: the last field with its name.
unfoldable pub lookup : Text → Fields → Option Json
lookup key no_fields = none
lookup key (field name value more) = elim (lookup key more) [
  | some later ↦ some later
  | none ↦ if same name key then some value else none
]

abbrev pub property : Text → Json → Option Json
property key (object fields) = lookup key fields
property key _ = none

abbrev pub is_string : Text → Option Json → Bool
is_string expected (some (string s)) = same s expected
is_string expected _ = false

abbrev pub any_string : Option Json → Bool
any_string (some (string s)) = true
any_string _ = false

abbrev pub is_missing : Option Json → Bool
is_missing none = true
is_missing _ = false

-- isRuleOakRouteProbe
unfoldable pub is_route_probe : Json → Bool
is_route_probe value =
    is_string (text "2.0") (property (text "jsonrpc") value)
    && is_string (text "ruleoak/route-probe") (property (text "method") value)

-- isJsonRpcToolCall
unfoldable pub is_tool_call : Json → Bool
is_tool_call value =
    is_string (text "2.0") (property (text "jsonrpc") value)
    && is_string (text "tools/call") (property (text "method") value)

-- isJsonRpcNotification
unfoldable pub is_notification : Json → Bool
is_notification value =
    is_string (text "2.0") (property (text "jsonrpc") value)
    && any_string (property (text "method") value)
    && is_missing (property (text "id") value)
