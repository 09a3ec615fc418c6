-- ===== src/Gate/Action.antt =====
-- The action that stands for a tool call: actionFromJsonRpcToolCall of
-- packages/cli/src/stream-gate.js. String() on a value that is no string, JSON.stringify, and the
-- test whether the literal of a number is zero are parameters, and so are the detectors on free text.
-- A field whose value is no string stands as its JSON where only words are compared with it.
use ruleoak.Common.{
  ℕ, Bool, true, false, not, ◌&&◌, ◌||◌, Option, none, some, List, [], ◌∷◌, ◌++◌, ◌==◌, leb,
  if◌then◌else◌, is_empty, any,
}
use ruleoak.Common.Texts.{Text, text, same, starts_with}
use ruleoak.Permission.Call.{or_default, one_of, to_lower_case, contains, contains_any}
use ruleoak.Permission.Normalizer.{Envelope}
use ruleoak.Gate.Json.{Json, null, bool, number, string, array, object, no_fields, property}

pub record Script : Type 0 where
  pub string_of : Json → Text
  pub stringify : Json → Text
  pub is_zero : Text → Bool
  -- containsSecretLike on the arguments or the target
  pub secrets : Json → Text → Bool
  -- containsPromptInjection on the arguments or the metadata, which holds the id and the sensitivity
  pub injection : Json → Option Json → Text → Bool

abbrev pub is_lower_or_digit : ℕ → Bool
is_lower_or_digit c = (leb b'a' c && leb c b'z') || (leb b'0' c && leb c b'9')

abbrev pub is_upper : ℕ → Bool
is_upper c = leb b'A' c && leb c b'Z'

-- replace(/([a-z0-9])([A-Z])/g, '$1_$2')
unfoldable pub split_camel : Text → Text
split_camel [] = []
split_camel (c ∷ []) = c ∷ []
split_camel (c ∷ d ∷ s) =
    let rest = split_camel (d ∷ s) in
    if is_lower_or_digit c && is_upper d then c ∷ b'_' ∷ rest else c ∷ rest

abbrev pub is_separator : ℕ → Bool
is_separator c = any (λ d. d == c) (b'.' ∷ b':' ∷ b'/' ∷ b'\\' ∷ b'-' ∷ [])

-- replace(/[.:/\\-]+/g, '_'); the flag says whether the unit before was replaced.
unfoldable pub join_words : Bool → Text → Text
join_words in_run [] = []
join_words in_run (c ∷ s) =
    let kept = join_words false s in
    let dropped = join_words true s in
    if not (is_separator c) then c ∷ kept else if in_run then dropped else b'_' ∷ dropped

unfoldable pub normalized_name : Text → Text
normalized_name name = join_words false (to_lower_case (split_camel name))

abbrev pub ends_segment : ℕ → Bool
ends_segment c = any (λ d. d == c) (b'.' ∷ b':' ∷ b'/' ∷ [])

-- split(/[.:/]/)[0]
unfoldable pub first_segment : Text → Text
first_segment [] = []
first_segment (c ∷ s) = let more = first_segment s in if ends_segment c then [] else c ∷ more

-- split(/[.:/]/).at(-1), where there is more than one segment.
unfoldable pub last_segment : Text → Option Text
last_segment [] = none
last_segment (c ∷ s) = elim (last_segment s) [
  | some found ↦ some found
  | none ↦ if ends_segment c then some s else none
]

-- A word and then `_` or the end.
unfoldable pub begins_with : Text → Text → Bool
begins_with word s = same word s || starts_with (word ++ text "_") s

-- The word between `_` or the ends.
unfoldable pub has_word : Text → Text → Bool
has_word word s = contains (text "_" ++ word ++ text "_") (text "_" ++ s ++ text "_")

abbrev pub begins_with_any : List Text → Text → Bool
begins_with_any words s = any (λ w. begins_with w s) words

abbrev pub operation_by_segment : Option Text → Text
operation_by_segment none = text "execute"
operation_by_segment (some s) = to_lower_case (or_default s (text "execute"))

unfoldable pub operation_of_name : Text → Text
operation_of_name name =
    let n = normalized_name name in
    if begins_with_any
      (text "read"
        ∷ text "get"
        ∷ text "list"
        ∷ text "search"
        ∷ text "query"
        ∷ text "echo"
        ∷ text "inspect"
        ∷ text "describe"
        ∷ [])
      n
    then text "read"
    else if begins_with_any (text "write" ∷ text "save" ∷ text "put" ∷ []) n
    then text "write"
    else if begins_with_any (text "edit" ∷ text "patch" ∷ text "update" ∷ []) n
    then text "edit"
    else if begins_with_any (text "create" ∷ text "mkdir" ∷ text "make" ∷ []) n
    then text "create"
    else if begins_with_any (text "move" ∷ text "rename" ∷ []) n
    then text "move"
    else if begins_with_any (text "delete" ∷ text "remove" ∷ text "unlink" ∷ text "rmdir" ∷ []) n
    then text "delete"
    else if begins_with (text "send") n
    then text "send"
    else operation_by_segment (last_segment name)

abbrev pub raw_category : Text → Text
raw_category name = to_lower_case (or_default (first_segment name) (text "custom"))

abbrev pub listed_category : Text → Text
listed_category raw =
    if one_of
      (text "file"
        ∷ text "shell"
        ∷ text "email"
        ∷ text "web"
        ∷ text "memory"
        ∷ text "payment"
        ∷ text "calendar"
        ∷ text "git"
        ∷ [])
      raw
    then raw
    else if same raw (text "filesystem")
    then text "file"
    else text "custom"

unfoldable pub category_of_name : Text → Text
category_of_name name =
    let n = normalized_name name in
    let listed = listed_category (raw_category name) in
    if not (same listed (text "custom"))
    then listed
    else if contains_any (text "file" ∷ text "directory" ∷ text "filesystem" ∷ text "mkdir" ∷ []) n
    then text "file"
    else if has_word (text "git") n
    then text "git"
    else if has_word (text "shell") n || has_word (text "process") n || has_word (text "command") n
    then text "shell"
    else listed

abbrev pub or_object : Option Json → Json
or_object (some (object fields)) = object fields
or_object _ = object no_fields

module _ (js : Script) where
  -- Whether `||` passes over a value.
  abbrev pub is_falsy : Option Json → Bool
  is_falsy none = true
  is_falsy (some null) = true
  is_falsy (some (bool b)) = not b
  is_falsy (some (number literal)) = js.is_zero literal
  is_falsy (some (string s)) = is_empty s
  is_falsy (some (array _)) = false
  is_falsy (some (object _)) = false

  -- a || b
  abbrev pub or_value : Option Json → Option Json → Option Json
  or_value a b = if is_falsy a then b else a

  abbrev pub text_of : Json → Text
  text_of (string s) = s
  text_of value = js.string_of value

  abbrev pub word_of : Json → Text
  word_of (string s) = s
  word_of value = js.stringify value

  -- String(a || b), at a default that is a string.
  abbrev pub text_or : Option Json → Text → Text
  text_or none default = default
  text_or (some value) default = if is_falsy (some value) then default else text_of value

  abbrev pub word_or : Option Json → Text → Text
  word_or none default = default
  word_or (some value) default = if is_falsy (some value) then default else word_of value

  -- payload.params || {}, where a value that is no object has none of the properties.
  abbrev pub param : Text → Json → Option Json
  param key payload = elim (property (text "params") payload) [
    | none ↦ none
    | some params ↦ property key params
  ]

  unfoldable pub tool_name : Json → Text
  tool_name payload =
      text_or (or_value (param (text "name") payload) (param (text "tool") payload))
        (text "unknown_tool")

  unfoldable pub arguments_of : Json → Json
  arguments_of payload = or_object (param (text "arguments") payload)

  unfoldable pub target_of : Json → Text
  target_of payload =
      let a = arguments_of payload in
      text_or
        (or_value (property (text "path") a) (
          or_value (property (text "source") a) (
            or_value (property (text "destination") a) (
              or_value (property (text "target") a)
                (or_value (property (text "url") a) (property (text "to") a))))))
        (tool_name payload)

  abbrev pub is_text : Option Json → Bool
  is_text (some (string s)) = true
  is_text _ = false

  -- Whether the resource that normalizeToolCall takes of the action is a string: an empty target
  -- leaves it to the path or the target in the arguments as they are, such as an empty array.
  unfoldable pub has_text_resource : Json → Bool
  has_text_resource payload =
      let a = arguments_of payload in
      let given = or_value (property (text "path") a) (property (text "target") a) in
      not (is_empty (target_of payload)) || is_falsy given || is_text given

  abbrev pub is_external_action : Text → Text → Bool
  is_external_action category operation =
      one_of (text "email" ∷ text "web" ∷ text "payment" ∷ text "calendar" ∷ []) category
      || same operation (text "send")

  -- actionFromJsonRpcToolCall
  unfoldable pub action_from_tool_call : Json → Envelope
  action_from_tool_call payload =
      let name = tool_name payload in
      let a = arguments_of payload in
      let category = category_of_name name in
      let operation = operation_of_name name in
      let sensitivity = word_or (property (text "sensitivity") a) (text "unknown") in
      record {
        type = text "mcp." ++ name;
        action = [];
        target = target_of payload;
        argument_path = word_or (property (text "path") a) [];
        argument_target = word_or (property (text "target") a) [];
        actor = record { type = []; name = []; session_id = []; id = [] };
        metadata_actor = record {
          type = text "agent";
          name = text "mcp-client";
          session_id = [];
          id = [];
        };
        category = category;
        operation = operation;
        scope = if is_external_action category operation then text "external" else text "local";
        metadata_sensitivity = sensitivity;
        sensitivity = [];
        detected_secrets = js.secrets a (target_of payload);
        detected_prompt_injection = js.injection a (property (text "id") payload) sensitivity;
        intent_id = none;
        task_id = none;
      }
