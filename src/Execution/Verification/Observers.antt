-- ===== src/Execution/Verification/Observers.antt =====
-- verifyGitPostcondition, verifyProcessPostcondition and verifyHttpPostcondition of
-- packages/core/src/execution/effect-verification.js. The answers of git and of the probe are
-- parameters; the fields of the request and the options are given after their `||`, where a text
-- that is empty is absent.
use ruleoak.Common.{
  ℕ, zero, suc, Bool, true, false, not, ◌&&◌, ◌||◌, Option, none, some, List, [], ◌∷◌, ◌==◌, leb,
  if◌then◌else◌, is_empty, any,
}
use ruleoak.Common.Int.{ℤ, pos, negsuc}
use ruleoak.Common.Texts.{Text, text, same}
use ruleoak.Permission.Call.{contains}
use ruleoak.Execution.Verification.{
  partial_or_ambiguous, unknown, Observation, observed, succeeded, failed, uncertain, unobserved,
}

pub record GitAnswer : Type 0 where
  pub ok : Bool
  pub value : Text

pub record GitRequest : Type 0 where
  pub operation : Text
  -- expected.ref || requested.ref || requested.branch
  pub ref : Text
  pub remote : Text
  pub expected_head : Text
  pub allow_network : Bool
  pub retry_safe : Bool

-- \s
abbrev pub is_space : ℕ → Bool
is_space c =
    (leb 9 c && leb c 13)
    || (leb 8192 c && leb c 8202)
    || any (λ d. d == c) (32 ∷ 160 ∷ 5760 ∷ 8232 ∷ 8233 ∷ 8239 ∷ 8287 ∷ 12288 ∷ 65279 ∷ [])

-- value.split(/\s+/)[0]
unfoldable pub first_word : Text → Text
first_word [] = []
first_word (c ∷ s) = let more = first_word s in if is_space c then [] else c ∷ more

module _ (git : List Text → GitAnswer) where
  unfoldable pub verify_branch : GitRequest → Observation
  verify_branch r =
      if is_empty r.ref
      then unobserved unknown
      else if (git (text "rev-parse" ∷ text "--verify" ∷ r.ref ∷ [])).ok
      then succeeded
      else failed r.retry_safe

  unfoldable pub verify_commit : GitRequest → Observation
  verify_commit r =
      let head = git (text "rev-parse" ∷ text "HEAD" ∷ []) in
      if not head.ok
      then unobserved unknown
      else if is_empty r.expected_head
      then uncertain
      else if same head.value r.expected_head
      then succeeded
      else uncertain

  unfoldable pub verify_push : GitRequest → Observation
  verify_push r =
      let local = git (text "rev-parse" ∷ r.ref ∷ []) in
      let remote = git (text "ls-remote" ∷ r.remote ∷ r.ref ∷ []) in
      let oid = first_word remote.value in
      if is_empty r.ref
      then unobserved unknown
      else if not r.allow_network
      then uncertain
      else if not local.ok || not remote.ok
      then unobserved unknown
      else if not (is_empty oid) && same oid local.value
      then succeeded
      else uncertain

  unfoldable pub verify_git_postcondition : GitRequest → Observation
  verify_git_postcondition r =
      if contains (text "branch") r.operation
      then verify_branch r
      else if contains (text "commit") r.operation
      then verify_commit r
      else if contains (text "push") r.operation
      then verify_push r
      else unobserved unknown

-- The exit code is `none` where it is no integer.
unfoldable pub verify_process_postcondition : Option ℤ → Bool → Observation
verify_process_postcondition none free = unobserved unknown
verify_process_postcondition (some code) false = uncertain
verify_process_postcondition (some (pos zero)) true = succeeded
verify_process_postcondition (some (pos (suc n))) true = failed true
verify_process_postcondition (some (negsuc n)) true = failed true

-- What the probe answers; the Boolean fields say whether a field of the answer is true.
pub record ProbeAnswer : Type 0 where
  pub confirmed : Option Bool
  pub effect_applied : Option Bool
  pub retry_safe : Bool
  pub retry_safe_alias : Bool
  pub no_effect_proven : Bool

pub data Probe : Type 0 where
  no_probe throws : Probe
  answers : ProbeAnswer → Probe

abbrev pub observe_answer : ProbeAnswer → Option Bool → Option Bool → Observation
observe_answer a (some true) applied = succeeded
observe_answer a (some false) (some false) =
    failed (a.retry_safe || a.retry_safe_alias || a.no_effect_proven)
observe_answer a confirmed applied = observed partial_or_ambiguous applied false

unfoldable pub verify_http_postcondition : Probe → Observation
verify_http_postcondition no_probe = uncertain
verify_http_postcondition throws = unobserved unknown
verify_http_postcondition (answers a) = observe_answer a a.confirmed a.effect_applied
