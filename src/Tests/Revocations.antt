-- ===== src/Tests/Revocations.antt =====
-- Examples of revocations.
use ruleoak.Common.{
  ℕ, ◌+◌, ◌≤◌, ◌<◌, Bool, true, false, ◌≡◌, ◌≢◌, refl, arith, Option, none, some, List, [], ◌∷◌,
  ◌++◌, In, head, tail,
}
use ruleoak.Common.Results.{ok, err}
use ruleoak.Common.Texts.{Text, text}
use ruleoak.Authority.Revocation.{
  SubjectType, authority_grant, principal, Numbering, v1_1, Revocation, Entry, Registry, Limits,
  default_limits, Request, Ancestor, not_revoked, load, revoke, is_revoked, last_sequence,
  line_too_long,
}
use ruleoak.Authority.Revocation.Effect.{here}
use ruleoak.Authority.Revocation.Loading.{revoke-loads, revoke-unreadable}
use ruleoak.Authority.Revocation.Delegated.{revocation_ancestors, revoke-delegated}
use ruleoak.Tests.Grants.{root, child, delegated}

abbrev digest_of : ℕ → Revocation → Text
digest_of n r = text "sha256:0"

abbrev line_bytes : Entry → ℕ
line_bytes e = 300

abbrev empty_file : Registry
empty_file = record { in_file = true; entries = [] }

abbrev request : Request
request = record {
  type = some authority_grant;
  id = text "g0";
  at = some 40;
  revocation_id = text "revoke_1";
  reason = text "revoked";
  cascade = true;
  parent_id = none;
}

abbrev entry : Entry
entry = record {
  numbering = v1_1 1 (text "sha256:0");
  revocation = record {
    revocation_id = text "revoke_1";
    subject_type = authority_grant;
    subject_id = text "g0";
    revoked_at = 40;
    reason = text "revoked";
    cascade = true;
    parent_id = none;
  };
}

abbrev one_entry : Registry
one_entry = record { in_file = true; entries = entry ∷ [] }

revoke-delegated_example :
    is_revoked digest_of line_bytes default_limits one_entry authority_grant child.grant_id
      (some 50)
      (revocation_ancestors child)
    ≢ ok not_revoked
unfolding revoke load ruleoak.Authority.Revocation.load_from ruleoak.Authority.Revocation.check_file
    ruleoak.Authority.Revocation.file_bytes ruleoak.Authority.Revocation.check_lines
    ruleoak.Authority.Revocation.append_entry last_sequence ruleoak.Authority.Revocation.valid_entry
    ruleoak.Authority.Revocation.new_entry ruleoak.Authority.Revocation.valid_numbering
    ruleoak.Common.Texts.same ruleoak.Authority.Revocation.persist
revoke-delegated_example =
    revoke-delegated digest_of line_bytes default_limits root (child ∷ []) empty_file one_entry
      one_entry request 40 50 refl delegated (head refl) refl refl refl refl here (omega arith)

fits : (e : Entry) → In e one_entry.entries → 300 ≤ 65536
fits e i = omega arith

revoke-loads_example :
    (load digest_of line_bytes default_limits one_entry ≡ ok (entry ∷ []))
    × (e : Entry) × (d : Text) × (entry ∷ [] ≡ [] ++ e ∷ [])
    × (e.numbering ≡ v1_1 (last_sequence [] + 1) d)
unfolding revoke load ruleoak.Authority.Revocation.load_from ruleoak.Authority.Revocation.check_file
    ruleoak.Authority.Revocation.file_bytes ruleoak.Authority.Revocation.check_lines
    ruleoak.Authority.Revocation.append_entry last_sequence ruleoak.Authority.Revocation.valid_entry
    ruleoak.Authority.Revocation.new_entry ruleoak.Authority.Revocation.valid_numbering
    ruleoak.Common.Texts.same ruleoak.Authority.Revocation.persist
revoke-loads_example =
    revoke-loads digest_of line_bytes default_limits empty_file one_entry request refl fits

-- A record whose subject has an identifier of more than 64 KiB.
abbrev long_line : Entry → ℕ
long_line e = 70000

exceeds : (e : Entry) → one_entry.entries ≡ [] ++ e ∷ [] → 65536 < 70000
exceeds e h = omega arith

revoke-unreadable_example : load digest_of long_line default_limits one_entry ≡ err line_too_long
unfolding revoke load ruleoak.Authority.Revocation.load_from ruleoak.Authority.Revocation.check_file
    ruleoak.Authority.Revocation.file_bytes ruleoak.Authority.Revocation.check_lines
    ruleoak.Authority.Revocation.append_entry last_sequence ruleoak.Authority.Revocation.valid_entry
    ruleoak.Authority.Revocation.new_entry ruleoak.Authority.Revocation.valid_numbering
    ruleoak.Common.Texts.same ruleoak.Authority.Revocation.persist
revoke-unreadable_example =
    revoke-unreadable digest_of long_line default_limits empty_file one_entry request refl refl
      exceeds
