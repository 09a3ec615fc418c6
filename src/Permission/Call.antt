-- ===== src/Permission/Call.antt =====
-- A normalized tool call (packages/core/src/permission/normalizer.js), and the string tests of
-- packages/core/src/permission/classifier.js. A field that is absent is the empty text, which the
-- source's `||` treats alike. Arguments and context are what the detectors say of them.
use ruleoak.Common.{
  ℕ, ◌+◌, Bool, ◌&&◌, ◌||◌, Option, none, some, List, [], ◌∷◌, ◌++◌, ◌==◌, leb, if◌then◌else◌,
  is_empty, any,
}
use ruleoak.Common.Texts.{Text, text, same, starts_with}

pub record Actor : Type 0 where
  pub type : Text
  pub name : Text
  pub session_id : Text
  pub id : Option Text

pub record Tool : Type 0 where
  pub name : Text
  pub category : Text
  pub operation : Text

pub record Target : Type 0 where
  pub resource : Text
  pub scope : Text
  pub sensitivity : Text

pub record Call : Type 0 where
  pub actor : Actor
  pub tool : Tool
  pub target : Target
  -- containsSecretLike on the arguments or the resource
  pub detected_secrets : Bool
  -- containsPromptInjection on the arguments or the context
  pub detected_prompt_injection : Bool
  -- context.intent_id and context.task_id
  pub intent_id : Option Text
  pub task_id : Option Text

-- value || default
abbrev pub or_default : Text → Text → Text
or_default value default = if is_empty value then default else value

abbrev pub one_of : List Text → Text → Bool
one_of values candidate = any (λ v. same v candidate) values

-- text.split('.'): the first two parts.
before_dot : Text → Text
before_dot [] = []
before_dot (c ∷ s) = let more = before_dot s in if c == b'.' then [] else c ∷ more

after_dot : Text → Option Text
after_dot [] = none
after_dot (c ∷ s) = let more = after_dot s in if c == b'.' then some s else more

-- splitActionType
unfoldable pub split_category : Text → Text
unfolding before_dot
split_category type = before_dot type

unfoldable pub split_operation : Text → Text
unfolding before_dot after_dot
split_operation type = elim (after_dot type) [ none ↦ text "execute" | some s ↦ before_dot s ]

-- toLowerCase, as far as a pattern of ASCII characters can see the result.
lower_unit : ℕ → Text
lower_unit c =
    if leb b'A' c && leb c b'Z'
    then (c + 32) ∷ []
    else if c == 0x212A
    then b'k' ∷ []
    else if c == 0x130
    then b'i' ∷ 0x307 ∷ []
    else c ∷ []

unfoldable pub to_lower_case : Text → Text
unfolding lower_unit
to_lower_case [] = []
to_lower_case (c ∷ s) = lower_unit c ++ to_lower_case s

-- An alternative of an unanchored expression: the word stands somewhere in the text.
unfoldable pub contains : Text → Text → Bool
contains word [] = is_empty word
contains word (c ∷ s) = starts_with word (c ∷ s) || contains word s

abbrev pub contains_any : List Text → Text → Bool
contains_any words s = any (λ w. contains w s) words
