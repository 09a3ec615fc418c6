-- ===== src/Tests/Leases.antt =====
-- Examples of leases.
use ruleoak.Common.{◌+◌, ◌≤◌, Bool, true, false, none, some, [], ◌∷◌}
use ruleoak.Common.Texts.{Text, text}
use ruleoak.Execution.Lease.{Lease, Use}
use ruleoak.Execution.Lease.Once.{Attempt, held, consumptions, consumed_once}
use ruleoak.Tests.Budgets.{runs, raw_runs}

abbrev pub lease : Lease
lease = record {
  lease_id = text "lease_1";
  decision_id = text "decision_1";
  principal_id = text "a";
  authority_envelope_id = none;
  action_digest = text "sha256:1";
  policy_digest = text "sha256:2";
  not_before = 10;
  expires_at = 90;
  budget = runs 5;
  obligations = [];
  nonce = text "n";
  signature = some (text "hmac-sha256:1");
}

abbrev pub first_use : Use
first_use = record {
  now = some 20;
  action_digest = some (text "sha256:1");
  policy_digest = some (text "sha256:2");
  principal_id = some (text "a");
  authority_envelope_id = none;
  is_revoked = false;
  usage = raw_runs 1;
  obligation_context = record {
    approved = false;
    recorder_available = false;
    target_verified = false;
    now = some 20;
    effect_receipt = false;
  };
  require_signature = true;
  secret = some (text "k");
  has_store = true;
  consumed_at = some 20;
}

abbrev mac : Text → Lease → Text
mac secret l = text "hmac-sha256:1"

abbrev always : Lease → Bool
always l = true

abbrev marker : Lease → Text
marker l = text "m"

abbrev racing : Attempt
racing = record { lease = lease; use_of = first_use; seen = [] }

consumed_once_example :
    consumptions mac always marker (text "m") [] (racing ∷ racing ∷ []) + held (text "m") [] ≤ 1
consumed_once_example = consumed_once mac always marker (text "m") [] (racing ∷ racing ∷ [])
