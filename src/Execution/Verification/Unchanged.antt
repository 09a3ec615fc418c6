-- ===== src/Execution/Verification/Unchanged.antt =====
-- What the file system shows where verifyFilesystemPostcondition of
-- packages/core/src/execution/effect-verification.js reports a failure.
use ruleoak.Common.{
  Bool, true, false, not, ◌&&◌, ◌||◌, ◌≡◌, refl, Option, none, some, [], ◌∷◌, arith, is_empty,
  Bool-cases, inl, inr, if◌then◌else◌, ℕ,
}
use ruleoak.Common.Texts.{Text, text, same}
use ruleoak.Permission.Call.{contains, contains_any}
use ruleoak.Execution.Verification.{unknown, Observation, succeeded, failed, uncertain, unobserved}
use ruleoak.Execution.Verification.Paths.{NodePath, Disk, is_bound, path_binding}
use ruleoak.Execution.Verification.Filesystem.{
  Node, Snapshot, Before, Expected, Requested, Options, retry_safe_requested, snapshot, matches,
  was_absent, unchanged_or_uncertain, observe_move, observe_delete, observe_directory,
  observe_content, observe_size, observe_write, operation_of, path_of, source_of, destination_of,
  verify_move, verify_at, verify_filesystem_postcondition,
}

-- A failure is reported only of a state that is unchanged, and its flag is the given one.
abbrev Only : Bool → Bool → Observation → Type 0
Only unchanged safe o = (flag : Bool) → o ≡ failed flag → (flag ≡ safe) × (unchanged ≡ true)

end-Only : (unchanged safe : Bool) → Only unchanged safe (unchanged_or_uncertain unchanged safe)
end-Only unchanged safe flag h = ground arith

delete-Only :
    (c : Snapshot) (e : Expected) (safe : Bool)
    → Only (matches c e.before) safe (observe_delete c e safe)
unfolding observe_delete
delete-Only c e safe flag h = ground arith

directory-Only :
    (c : Snapshot) (e : Expected) (safe : Bool)
    → Only (matches c e.before) safe (observe_directory c e safe)
unfolding observe_directory
directory-Only c e safe flag h = ground arith

move-Only :
    (s d : Snapshot) (e : Expected) (safe : Bool)
    → Only
        (matches s e.source_before && matches d e.destination_before)
        safe
        (observe_move s d e safe)
unfolding observe_move
move-Only s d e safe flag h = ground arith

content-Only :
    (c : Snapshot) (e : Expected) (safe : Bool)
    → Only (matches c e.before) safe (observe_content c e safe)
unfolding observe_content
content-Only c e safe flag h = ground arith

size-Only :
    (n : Option ℕ) (c : Snapshot) (e : Expected) (safe : Bool)
    → Only (matches c e.before) safe (observe_size n c e safe)
size-Only none c e safe flag h = cc h
size-Only (some n) c e safe flag h = ground arith

absent-matches :
    (c : Snapshot) (b : Option Before)
    → c.present ≡ false
    → was_absent b ≡ true
    → matches c b ≡ true
unfolding matches
absent-matches c none a h = cc
absent-matches c (some b) a h = ground arith

if-Only :
    (b : Bool) (x y : Observation) (unchanged safe : Bool)
    → (b ≡ true → Only unchanged safe x)
    → (b ≡ false → Only unchanged safe y)
    → Only unchanged safe (if b then x else y)
if-Only true x y unchanged safe on off = on refl
if-Only false x y unchanged safe on off = off refl

succeeded-Only : (unchanged safe : Bool) → Only unchanged safe succeeded
succeeded-Only unchanged safe flag h = absurd (cc h)

uncertain-Only : (unchanged safe : Bool) → Only unchanged safe uncertain
uncertain-Only unchanged safe flag h = absurd (cc h)

unknown-Only : (unchanged safe : Bool) → Only unchanged safe (unobserved unknown)
unknown-Only unchanged safe flag h = absurd (cc h)

write-Only :
    (c : Snapshot) (e : Expected) (safe : Bool)
    → Only (matches c e.before) safe (observe_write c e safe)
unfolding observe_write
write-Only c e safe = if-Only _ _ _ _ _ absent (λ present.
    if-Only _ _ _ _ _ (λ given. content-Only c e safe) (λ missing. size-Only e.size c e safe))
  where
    absent :
        not c.present ≡ true
        → Only (matches c e.before) safe (unchanged_or_uncertain (was_absent e.before) safe)
    absent a flag h =
        let ends = end-Only (was_absent e.before) safe flag h in
        (ends.0, absent-matches c e.before (ground arith) ends.1)

module _ (p : NodePath) (d : Disk) (sha256 : Text → Text) (node : Text → Node) where
  at-Only :
      (operation path : Text) (e : Expected) (safe : Bool)
      → Only
          (matches (snapshot sha256 d node path) e.before)
          safe
          (verify_at p d sha256 node operation path e safe)
  unfolding verify_at
  at-Only operation path e safe =
      if-Only (contains_any (text "delete" ∷ text "remove" ∷ text "unlink" ∷ []) operation) _ _ _ _
        (λ deletes. delete-Only _ e safe)
        (λ other.
          if-Only
            (contains (text "create_directory") operation
              || contains (text "mkdir") operation
              || same e.kind (text "directory"))
            _ _ _ _ (λ makes. directory-Only _ e safe) (λ writes. write-Only _ e safe))

  -- Whether the paths of a request are as the expectation says that they were before the dispatch.
  abbrev pub is_move : Requested → Options → Bool
  is_move r o =
      contains (text "move") (operation_of r o) || contains (text "rename") (operation_of r o)

  abbrev pub is_unchanged : Requested → Options → Expected → Bool
  is_unchanged r o e =
      if is_move r o
      then matches (snapshot sha256 d node (source_of r o)) e.source_before
        && matches (snapshot sha256 d node (destination_of r o)) e.destination_before
      else matches (snapshot sha256 d node (path_of r o)) e.before

  move_request-Only :
      (r : Requested) (o : Options) (e : Expected)
      → Only
          (matches (snapshot sha256 d node (source_of r o)) e.source_before
            && matches (snapshot sha256 d node (destination_of r o)) e.destination_before)
          (retry_safe_requested r o)
          (verify_move p d sha256 node r o e)
  unfolding verify_move
  move_request-Only r o e =
      if-Only (is_empty (source_of r o) || is_empty (destination_of r o)) _ _ _ _
        (λ missing. unknown-Only _ _)
        (λ there.
          if-Only
            (not (
                is_bound
                  (path_binding p d (source_of r o) e.source_canonical_path e.source_allowed_root))
              || not (
                  is_bound (
                    path_binding p d (destination_of r o) e.destination_canonical_path
                      e.destination_allowed_root)))
            _ _ _ _ (λ elsewhere. uncertain-Only _ _) (λ fits. move-Only _ _ e _))

  -- verifyFilesystemPostcondition reports a failure, of which it says that there was no effect, only
  -- where the source and the destination of a move, or else the path, are still in the state that
  -- was captured before the dispatch; and it calls a retry safe exactly if the request or the
  -- options do.
  pub verify_filesystem-failed :
      (r : Requested) (o : Options) (e : Expected) (flag : Bool)
      → verify_filesystem_postcondition p d sha256 node r o e ≡ failed flag
      → (flag ≡ retry_safe_requested r o) × (is_unchanged r o e ≡ true)
  unfolding verify_filesystem_postcondition
  verify_filesystem-failed r o e flag h = elim (Bool-cases (is_move r o)) [
    | inl t ↦ let ends = move_request-Only r o e flag (rw t at h) in (ends.0, rw t ends.1)
    | inr f ↦ let ends = path_request flag (rw f at h) in (ends.0, rw f ends.1)
  ]
    where
      path_request :
          Only
            (matches (snapshot sha256 d node (path_of r o)) e.before)
            (retry_safe_requested r o)
            (if is_empty (path_of r o)
              then unobserved unknown
              else if not
                  (is_bound (path_binding p d (path_of r o) e.canonical_path e.allowed_root))
              then uncertain
              else verify_at p d sha256 node
                  (operation_of r o)
                  (path_of r o)
                  e
                  (retry_safe_requested r o))
      path_request =
          if-Only (is_empty (path_of r o)) _ _ _ _ (λ missing. unknown-Only _ _)
            (λ there.
              if-Only
                (not (is_bound (path_binding p d (path_of r o) e.canonical_path e.allowed_root))) _
                _ _ _ (λ elsewhere. uncertain-Only _ _)
                (λ fits. at-Only (operation_of r o) (path_of r o) e _))
