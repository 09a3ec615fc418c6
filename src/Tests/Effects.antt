-- ===== src/Tests/Effects.antt =====
-- Examples of effects and retries.
use ruleoak.Common.{
  ℕ, Bool, true, false, ◌||◌, ◌==◌, ==_iff, if◌then◌else◌, Bool-cases, Option-cases, ap, sym, ◌≡◌,
  ◌≢◌, ◌↔◌, refl, Option, none, some, [], ◌∷◌, is_empty, inl, inr, arith, length, ◌<◌, ◌⊎◌,
}
use ruleoak.Common.Results.{ok}
use ruleoak.Common.Texts.{Text, text, same}
use ruleoak.Execution.Lease.{Lease}
use ruleoak.Execution.Receipt.{
  EffectReceipt, failure, process_return_observed, verify_effect_receipt,
}
use ruleoak.Execution.Verification.{
  Observation, failed, VerificationRecord, BindOptions, or_invalid, receipt_options,
  safe_to_retry_with_new_authority, verification_binding_errors, decide_effect_retry,
}
use ruleoak.Execution.Verification.Paths.{NodePath, Disk, climb, Nearest, climb-Nearest}
use ruleoak.Execution.Verification.Filesystem.{
  Node, regular, Expected, Requested, Options, retry_safe_requested,
}
use ruleoak.Execution.Verification.Retry.{Warrant, decide-safe_iff, built-Warrant}
use ruleoak.Execution.Verification.Unchanged.{is_unchanged, verify_filesystem-failed}
use ruleoak.Tests.Leases.{lease}

abbrev receipt : EffectReceipt
receipt = record {
  effect_id = text "effect_1";
  lease_id = text "lease_1";
  decision_id = text "decision_1";
  adapter = text "files";
  started_at = some 20;
  completed_at = some 30;
  status = failure;
  observation_quality = process_return_observed;
  signature = none;
}

abbrev verification : VerificationRecord
verification = record {
  effect_id = text "effect_1";
  lease_id = text "lease_1";
  decision_id = text "decision_1";
  action_digest = text "sha256:1";
  observation = failed true;
}

abbrev mac : Text → EffectReceipt → Text
mac secret r = text "hmac-sha256:1"

abbrev always : EffectReceipt → Bool
always r = true

abbrev binding : BindOptions
binding = record { lease = some lease; action_digest = [] }

decide-safe_iff_example :
    ((decide_effect_retry receipt (some verification) (some lease) false).disposition
      ≡ safe_to_retry_with_new_authority)
    ↔ ((verification_binding_errors receipt (some verification) (some lease) ≡ [])
        × Warrant receipt (some verification) false)
decide-safe_iff_example = decide-safe_iff receipt (some verification) (some lease) false

built-Warrant_example :
    (l : Lease) × (binding.lease ≡ some l)
    × (is_empty l.action_digest ≡ false)
    × (verify_effect_receipt mac always receipt (receipt_options binding) ≡ ok [])
    × (or_invalid (some (failed true)) ≡ failed true)
unfolding ruleoak.Execution.Verification.build_effect_verification_record verify_effect_receipt
    ruleoak.Execution.Receipt.signature_errors ruleoak.Common.Texts.same
    ruleoak.Authority.Obligations.unsatisfied ruleoak.Execution.Verification.bind_verification
built-Warrant_example =
    built-Warrant mac always receipt (some (failed true)) binding verification false refl refl

-- The paths of POSIX that do not end in a slash, in a file system with one directory below its
-- root, which is also the working directory.
abbrev is_absolute : Text → Bool
is_absolute [] = false
is_absolute (c ∷ s) = c == b'/'

abbrev before_slash : ℕ → Text → Option Text → Option Text
before_slash c s (some r) = some (c ∷ r)
before_slash c s none = if c == b'/' then some [] else none

unfoldable before_last_slash : Text → Option Text
before_last_slash [] = none
before_last_slash (c ∷ s) = before_slash c s (before_last_slash s)

abbrev directory : Option Text → Text
directory none = text "."
directory (some []) = text "/"
directory (some (c ∷ s)) = c ∷ s

abbrev from_root : Text → Text
from_root s = if is_absolute s then s else b'/' ∷ s

abbrev node_path : NodePath
node_path = record {
  resolve = from_root;
  dirname = λ s. directory (before_last_slash s);
  relative = λ a b. b;
  join = λ a b. b;
}

abbrev disk : Disk
disk = record { exists = λ s. same s (text "/") || same s (text "/a"); realpath = λ s. some s }

from_root-absolute : (s : Text) → is_absolute (from_root s) ≡ true
from_root-absolute [] = refl
from_root-absolute (c ∷ s) = ground arith

length-before_last_slash : (s r : Text) → before_last_slash s ≡ some r → length r < length s
unfolding before_last_slash
length-before_last_slash [] r h = cc
length-before_last_slash (c ∷ s) r h = elim (Option-cases (before_last_slash s)) [
  | inl n ↦ elim (Bool-cases (c == b'/')) [
    | inl t ↦ let q : r ≡ [] = cc (rw (n, t) at h) in rw q (omega arith)
    | inr f ↦ cc (rw (n, f) at h)
  ]
  | inr (q, e) ↦
      let k : r ≡ c ∷ q = cc (rw e at h) in
      let less = length-before_last_slash s q e in rw k (omega arith)
]

directory_of_top :
    (c : ℕ) (s : Text)
    → is_absolute (c ∷ s) ≡ true
    → (text "/" ≡ c ∷ s) ⊎ (length (text "/") < length (c ∷ s))
directory_of_top c [] h = inl (ap (λ x. x ∷ []) (sym ((==_iff c b'/').0 h)))
directory_of_top c (d ∷ s) h = inr (omega arith)

directory-absolute :
    (s : Text)
    → is_absolute s ≡ true
    → (is_absolute (directory (before_last_slash s)) ≡ true)
      × ((directory (before_last_slash s) ≡ s)
          ⊎ (length (directory (before_last_slash s)) < length s))
unfolding before_last_slash
directory-absolute [] h = cc
directory-absolute (c ∷ s) h = elim (Option-cases (before_last_slash s)) [
  | inl n ↦ rw (n, h) (refl, directory_of_top c s h)
  | inr (q, e) ↦ let less = length-before_last_slash s q e in rw e (h, inr (omega arith))
]

climb-Nearest_example :
    Nearest node_path disk (text "/a/b/c") (climb node_path disk 7 (text "/a/b/c"))
climb-Nearest_example =
    climb-Nearest node_path disk is_absolute directory-absolute from_root-absolute (text "/a/b/c")

abbrev digest : Text → Text
digest s = s

abbrev node : Text → Node
node s = regular 4 (text "data")

abbrev request : Requested
request = record {
  operation = text "delete";
  action = [];
  path = text "/a";
  target = [];
  resource = [];
  source = [];
  from = [];
  destination = [];
  to = [];
  retry_safe = false;
  idempotent = true;
}

abbrev options : Options
options = record {
  operation = [];
  path = [];
  source = [];
  destination = [];
  retry_safe = false;
  idempotent = false;
}

abbrev expected : Expected
expected = record {
  digest = [];
  size = none;
  kind = [];
  before = some (record {
    present = some true;
    kind = text "file";
    size = some 4;
    digest = text "sha256:data";
  });
  source_before = none;
  destination_before = none;
  canonical_path = [];
  allowed_root = [];
  source_canonical_path = [];
  source_allowed_root = [];
  destination_canonical_path = [];
  destination_allowed_root = [];
}

verify_filesystem-failed_example :
    (true ≡ retry_safe_requested request options)
    × (is_unchanged node_path disk digest node request options expected ≡ true)
unfolding ruleoak.Execution.Verification.Filesystem.verify_filesystem_postcondition
    ruleoak.Permission.Call.contains ruleoak.Permission.Call.to_lower_case
    ruleoak.Common.Texts.starts_with ruleoak.Execution.Verification.Paths.path_binding
    ruleoak.Execution.Verification.Filesystem.verify_at ruleoak.Common.any
    ruleoak.Execution.Verification.Filesystem.observe_delete
    ruleoak.Execution.Verification.Filesystem.snapshot
    ruleoak.Execution.Verification.Filesystem.matches ruleoak.Common.Texts.same retry_safe_requested
verify_filesystem-failed_example =
    verify_filesystem-failed node_path disk digest node request options expected true refl
