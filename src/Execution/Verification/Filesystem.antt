-- ===== src/Execution/Verification/Filesystem.antt =====
-- verifyFilesystemPostcondition of packages/core/src/execution/effect-verification.js. Digests of
-- bytes and the file system are parameters. Of the two spellings that a field of the expectation
-- may have, the model has one.
use ruleoak.Common.{
  ℕ, Bool, true, false, not, ◌&&◌, ◌||◌, Option, none, some, [], ◌∷◌, ◌++◌, ◌==◌, if◌then◌else◌,
  is_empty,
}
use ruleoak.Common.Texts.{Text, text, same, starts_with}
use ruleoak.Permission.Call.{or_default, to_lower_case, contains, contains_any}
use ruleoak.Execution.Verification.{unknown, Observation, succeeded, failed, uncertain, unobserved}
use ruleoak.Execution.Verification.Paths.{NodePath, Disk, is_bound, path_binding}

-- What lstat and stat say of a path that exists, and its bytes.
pub data Node : Type 0 where
  unreadable : Node
  symbolic_link directory special : (size : ℕ) → Node
  regular : (size : ℕ) → (bytes : Text) → Node

pub record Snapshot : Type 0 where
  pub present : Bool
  pub kind : Text
  pub size : Option ℕ
  pub digest : Text

-- A state captured before the dispatch. A field that is absent is `none`, a text that is absent is
-- empty.
pub record Before : Type 0 where
  pub present : Option Bool
  pub kind : Text
  pub size : Option ℕ
  pub digest : Text

pub record Expected : Type 0 where
  pub digest : Text
  pub size : Option ℕ
  pub kind : Text
  -- expected.before || expected.precondition
  pub before : Option Before
  pub source_before : Option Before
  pub destination_before : Option Before
  pub canonical_path : Text
  pub allowed_root : Text
  pub source_canonical_path : Text
  pub source_allowed_root : Text
  pub destination_canonical_path : Text
  pub destination_allowed_root : Text

pub record Requested : Type 0 where
  pub operation : Text
  pub action : Text
  pub path : Text
  pub target : Text
  pub resource : Text
  pub source : Text
  pub from : Text
  pub destination : Text
  pub to : Text
  pub retry_safe : Bool
  pub idempotent : Bool

pub record Options : Type 0 where
  pub operation : Text
  pub path : Text
  pub source : Text
  pub destination : Text
  pub retry_safe : Bool
  pub idempotent : Bool

unfoldable pub retry_safe_requested : Requested → Options → Bool
retry_safe_requested r o = o.retry_safe || o.idempotent || r.retry_safe || r.idempotent

abbrev pub snapshot_of : Bool → Text → Option ℕ → Text → Snapshot
snapshot_of p k s d = record { present = p; kind = k; size = s; digest = d }

abbrev pub snapshot_node : (Text → Text) → Node → Snapshot
snapshot_node sha256 unreadable = snapshot_of true (text "unknown") none []
snapshot_node sha256 (symbolic_link n) = snapshot_of true (text "symlink") (some n) []
snapshot_node sha256 (directory n) = snapshot_of true (text "directory") (some n) []
snapshot_node sha256 (special n) = snapshot_of true (text "other") (some n) []
snapshot_node sha256 (regular n bytes) =
    snapshot_of true (text "file") (some n) (text "sha256:" ++ sha256 bytes)

unfoldable pub snapshot : (Text → Text) → Disk → (Text → Node) → Text → Snapshot
snapshot sha256 d node target =
    if is_empty target
    then snapshot_of false (text "unknown") none []
    else if not (d.exists target)
    then snapshot_of false (text "absent") none []
    else snapshot_node sha256 (node target)

abbrev pub is_true : Option Bool → Bool
is_true (some true) = true
is_true _ = false

abbrev pub is_false : Option Bool → Bool
is_false (some false) = true
is_false _ = false

abbrev pub iff : Bool → Bool → Bool
iff true b = b
iff false b = not b

abbrev pub same_size : Option ℕ → Option ℕ → Bool
same_size (some a) (some b) = a == b
same_size _ _ = false

abbrev pub kind_differs : Text → Text → Bool
kind_differs before current =
    not (is_empty before) && not (same before (text "unknown")) && not (same current before)

abbrev pub matches_state : Snapshot → Before → Bool
matches_state c b =
    if not (iff c.present (is_true b.present))
    then false
    else if not (is_true b.present)
    then not c.present
    else if kind_differs b.kind c.kind
    then false
    else if not (is_empty b.digest)
    then same c.digest b.digest
    else same_size b.size c.size

unfoldable pub matches : Snapshot → Option Before → Bool
matches c none = false
matches c (some b) = matches_state c b

abbrev pub was_absent : Option Before → Bool
was_absent none = false
was_absent (some b) = is_false b.present

-- Whether the destination is the file that the source was.
unfoldable pub matches_source : Snapshot → Option Before → Bool
matches_source c none = false
matches_source c (some b) =
    c.present
    && is_true b.present
    && same b.kind (text "file")
    && not (is_empty b.digest)
    && same c.kind (text "file")
    && same c.digest b.digest

-- The end that all branches share: no effect where the state is the captured one.
abbrev pub unchanged_or_uncertain : Bool → Bool → Observation
unchanged_or_uncertain unchanged safe = if unchanged then failed safe else uncertain

unfoldable pub observe_move : Snapshot → Snapshot → Expected → Bool → Observation
observe_move src dst e safe =
    if not src.present && matches_source dst e.source_before
    then succeeded
    else unchanged_or_uncertain (matches src e.source_before && matches dst e.destination_before)
        safe

unfoldable pub observe_delete : Snapshot → Expected → Bool → Observation
observe_delete current e safe =
    if not current.present
    then succeeded
    else unchanged_or_uncertain (matches current e.before) safe

unfoldable pub observe_directory : Snapshot → Expected → Bool → Observation
observe_directory current e safe =
    if current.present && same current.kind (text "directory")
    then succeeded
    else unchanged_or_uncertain (matches current e.before) safe

-- `sha256:` and the expected digest without its own prefix.
abbrev pub without_prefix : Text → Text → Text
without_prefix [] s = s
without_prefix (c ∷ p) [] = []
without_prefix (c ∷ p) (d ∷ s) = without_prefix p s

abbrev pub expected_digest : Text → Text
expected_digest given =
    text "sha256:"
    ++ (if starts_with (text "sha256:") given then without_prefix (text "sha256:") given else given)

unfoldable pub observe_content : Snapshot → Expected → Bool → Observation
observe_content current e safe =
    if not (same current.kind (text "file"))
    then uncertain
    else if same current.digest (expected_digest e.digest)
    then succeeded
    else unchanged_or_uncertain (matches current e.before) safe

abbrev pub observe_size : Option ℕ → Snapshot → Expected → Bool → Observation
observe_size none current e safe = uncertain
observe_size (some n) current e safe =
    if same_size (some n) current.size
    then succeeded
    else unchanged_or_uncertain (matches current e.before) safe

unfoldable pub observe_write : Snapshot → Expected → Bool → Observation
observe_write current e safe =
    if not current.present
    then unchanged_or_uncertain (was_absent e.before) safe
    else if not (is_empty e.digest)
    then observe_content current e safe
    else observe_size e.size current e safe

abbrev pub operation_of : Requested → Options → Text
operation_of r o = to_lower_case (or_default o.operation (or_default r.operation r.action))

abbrev pub path_of : Requested → Options → Text
path_of r o = or_default o.path (or_default r.path (or_default r.target r.resource))

abbrev pub source_of : Requested → Options → Text
source_of r o = or_default o.source (or_default r.source (or_default r.from (path_of r o)))

abbrev pub destination_of : Requested → Options → Text
destination_of r o = or_default o.destination (or_default r.destination (or_default r.to r.target))

module _ (p : NodePath) (d : Disk) (sha256 : Text → Text) (node : Text → Node) where
  unfoldable pub verify_move : Requested → Options → Expected → Observation
  verify_move r o e =
      let source = source_of r o in
      let destination = destination_of r o in
      if is_empty source || is_empty destination
      then unobserved unknown
      else if not (is_bound (path_binding p d source e.source_canonical_path e.source_allowed_root))
          || not (
              is_bound (
                path_binding p d destination e.destination_canonical_path
                  e.destination_allowed_root))
      then uncertain
      else observe_move (snapshot sha256 d node source) (snapshot sha256 d node destination) e
          (retry_safe_requested r o)

  unfoldable pub verify_at : Text → Text → Expected → Bool → Observation
  verify_at operation path e safe =
      let current = snapshot sha256 d node path in
      if contains_any (text "delete" ∷ text "remove" ∷ text "unlink" ∷ []) operation
      then observe_delete current e safe
      else if contains (text "create_directory") operation
          || contains (text "mkdir") operation
          || same e.kind (text "directory")
      then observe_directory current e safe
      else observe_write current e safe

  -- verifyFilesystemPostcondition
  unfoldable pub verify_filesystem_postcondition : Requested → Options → Expected → Observation
  verify_filesystem_postcondition r o e =
      let operation = operation_of r o in
      let path = path_of r o in
      if contains (text "move") operation || contains (text "rename") operation
      then verify_move r o e
      else if is_empty path
      then unobserved unknown
      else if not (is_bound (path_binding p d path e.canonical_path e.allowed_root))
      then uncertain
      else verify_at operation path e (retry_safe_requested r o)
