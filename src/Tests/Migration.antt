-- ===== src/Tests/Migration.antt =====
-- An example of a migration.
use ruleoak.Common.{ℕ, [], ◌∷◌, refl}
use ruleoak.Common.Texts.{Text, text}
use ruleoak.Engine.Evaluate.{decide}
use ruleoak.Engine.Migration.{Migration, migration_of, migrate_policy_to_v2}
use ruleoak.Engine.Migration.Strictness.{AsStrict}
use ruleoak.Engine.Migration.Decisions.{migrate-AsStrict}
use ruleoak.Tests.Fixtures.{no_order}
use ruleoak.Tests.Rules.{mixed, read_file}

abbrev show : ℕ → Text
show n = n ∷ []

abbrev migrated : Migration
migrated = migration_of show (text "migrated") mixed

migrate-AsStrict_example :
    AsStrict
      (decide no_order read_file mixed).action
      (decide no_order read_file migrated.policy).action
unfolding migrate_policy_to_v2 migration_of ruleoak.Engine.Migration.migrated_policy
    ruleoak.Engine.Policy.valid_policy ruleoak.Engine.Migration.detect_policy_version
    ruleoak.Engine.Migration.migrated_default ruleoak.Engine.Migration.filled
    ruleoak.Engine.Migration.migrated_rules ruleoak.Common.all ruleoak.Engine.Policy.valid_rule
    ruleoak.Engine.Policy.valid_exact_rule ruleoak.Engine.Policy.normalize_decision
    ruleoak.Common.select ruleoak.Common.any ruleoak.Common.Texts.same
    ruleoak.Engine.Migration.rules_from ruleoak.Engine.Migration.slug
    ruleoak.Engine.Migration.without_last_dash ruleoak.Permission.Call.to_lower_case
    ruleoak.Engine.Migration.dashed
migrate-AsStrict_example =
    migrate-AsStrict no_order show (text "migrated") read_file mixed migrated refl
