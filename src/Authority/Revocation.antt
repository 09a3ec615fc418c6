-- ===== src/Authority/Revocation.antt =====
-- The revocation registry: packages/core/src/authority/revocation.js. Times are milliseconds, and a
-- time that is no date is none. The digest of a record and the length of its line in the file are
-- parameters. A call is modelled under the registry's lock, so that none interleaves with another;
-- a file whose lines are not records at all is outside the model.
pub mod Effect
pub mod Lasting
pub mod Loading
pub mod Delegated
use ruleoak.Common.{
  ℕ, suc, ◌+◌, ◌*◌, ◌-◌, ◌^◌, Bool, true, false, not, ◌&&◌, ◌||◌, Option, none, some, List, [], ◌∷◌,
  ◌++◌, ltb, leb, ◌==◌, if◌then◌else◌, any, find, is_empty, length,
}
use ruleoak.Common.Results.{Result, ok, err, ◌>>=◌}
use ruleoak.Common.Texts.{Text, same}

-- REVOCATION_SUBJECT_TYPES
pub data SubjectType : Type 0 where
  principal authority_grant authority_envelope execution_lease session : SubjectType

unfoldable pub same_subject : SubjectType → SubjectType → Bool
same_subject principal principal = true
same_subject authority_grant authority_grant = true
same_subject authority_envelope authority_envelope = true
same_subject execution_lease execution_lease = true
same_subject session session = true
same_subject _ _ = false

-- A record of version 1.1 has its sequence number and its digest.
pub data Numbering : Type 0 where
  v1_0 : Numbering
  v1_1 : ℕ → Text → Numbering

pub record Revocation : Type 0 where
  pub revocation_id : Text
  pub subject_type : SubjectType
  pub subject_id : Text
  pub revoked_at : ℕ
  pub reason : Text
  pub cascade : Bool
  pub parent_id : Option Text

pub record Entry : Type 0 where
  pub numbering : Numbering
  pub revocation : Revocation

-- The records, and whether they live in a file; a file without records is one that is not there.
pub record Registry : Type 0 where
  pub in_file : Bool
  pub entries : List Entry

pub data RevocationError : Type 0 where
  unsupported_type id_required invalid_time sequence_exhausted : RevocationError
  invalid_record not_increasing line_too_long too_many_records file_too_large : RevocationError

-- REVOCATION_REGISTRY_LIMITS
pub record Limits : Type 0 where
  pub max_bytes : ℕ
  pub max_line_bytes : ℕ
  pub max_records : ℕ

abbrev pub default_limits : Limits
default_limits = record { max_bytes = 8388608; max_line_bytes = 65536; max_records = 50000 }

-- Number.MAX_SAFE_INTEGER
abbrev pub max_safe : ℕ
max_safe = 2 ^ 53 - 1

abbrev pub greater : Numbering → ℕ → ℕ
greater v1_0 m = m
greater (v1_1 n d) m = if ltb m n then n else m

-- Math.max(0, …) of the sequence numbers of version 1.1
unfoldable pub last_sequence : List Entry → ℕ
last_sequence [] = 0
last_sequence (e ∷ es) = greater e.numbering (last_sequence es)

abbrev pub the_type : Option SubjectType → Result RevocationError SubjectType
the_type none = err unsupported_type
the_type (some t) = ok t

abbrev pub the_time : Option ℕ → Result RevocationError ℕ
the_time none = err invalid_time
the_time (some t) = ok t

-- What revoke is called with: the type, where it is supported, and the options; the identifier
-- of the record is the caller's or fresh, and the reason is normalized.
pub record Request : Type 0 where
  pub type : Option SubjectType
  pub id : Text
  pub at : Option ℕ
  pub revocation_id : Text
  pub reason : Text
  pub cascade : Bool
  pub parent_id : Option Text

-- normalizeAncestor: a type that is not given matches every type.
pub record Ancestor : Type 0 where
  pub type : Option SubjectType
  pub id : Text

abbrev pub type_fits : Option SubjectType → SubjectType → Bool
type_fits none t = true
type_fits (some s) t = same_subject t s

unfoldable pub is_direct : SubjectType → Text → ℕ → Entry → Bool
is_direct t id at e =
    same_subject e.revocation.subject_type t
    && same e.revocation.subject_id id
    && leb e.revocation.revoked_at at

unfoldable pub is_cascade : Ancestor → ℕ → Entry → Bool
is_cascade a at e =
    e.revocation.cascade
    && same e.revocation.subject_id a.id
    && leb e.revocation.revoked_at at
    && type_fits a.type e.revocation.subject_type

pub data Answer : Type 0 where
  not_revoked : Answer
  direct cascaded : Entry → Answer

abbrev pub found : Option Entry → Answer → Answer
found none later = later
found (some e) later = cascaded e

unfoldable pub search_ancestors : List Entry → ℕ → List Ancestor → Answer
search_ancestors es at [] = not_revoked
search_ancestors es at (a ∷ rest) = found (find (is_cascade a at) es) (search_ancestors es at rest)

unfoldable pub answer_for : List Entry → ℕ → List Ancestor → Option Entry → Answer
answer_for es at ancestors none = search_ancestors es at ancestors
answer_for es at ancestors (some e) = direct e

module _ (digest_of : ℕ → Revocation → Text) (line_bytes : Entry → ℕ) (limits : Limits) where
  -- validateRecord
  unfoldable pub valid_numbering : Numbering → Revocation → Bool
  valid_numbering v1_0 r = true
  valid_numbering (v1_1 n d) r = leb 1 n && leb n max_safe && same d (digest_of n r)

  unfoldable pub valid_entry : Entry → Bool
  valid_entry e =
      not (is_empty e.revocation.revocation_id)
      && not (is_empty e.revocation.subject_id)
      && valid_numbering e.numbering e.revocation

  -- The number that the next line has to exceed, if the line's own exceeds the last.
  unfoldable pub next_sequence : ℕ → Numbering → Result RevocationError ℕ
  next_sequence last v1_0 = ok last
  next_sequence last (v1_1 n d) = if leb n last then err not_increasing else ok n

  -- The loop of _loadUnlocked over the lines of the file.
  unfoldable pub check_lines : ℕ → List Entry → Result RevocationError Bool
  check_lines last [] = ok true
  check_lines last (e ∷ es) =
      if ltb limits.max_line_bytes (line_bytes e)
      then err line_too_long
      else if not (valid_entry e)
      then err invalid_record
      else do n ← next_sequence last e.numbering; check_lines n es

  unfoldable pub file_bytes : List Entry → ℕ
  file_bytes [] = 0
  file_bytes (e ∷ es) = suc (line_bytes e + file_bytes es)

  unfoldable pub check_file : List Entry → Result RevocationError Bool
  check_file es =
      if ltb limits.max_bytes (file_bytes es)
      then err file_too_large
      else if ltb limits.max_records (length es)
      then err too_many_records
      else check_lines 0 es

  unfoldable pub load_from : Bool → List Entry → Result RevocationError (List Entry)
  load_from false es = ok es
  load_from true es = do checked ← check_file es; ok es

  unfoldable pub load : Registry → Result RevocationError (List Entry)
  load r = load_from r.in_file r.entries

  unfoldable pub persist : Bool → List Entry → Result RevocationError Registry
  persist false es = ok (record { in_file = false; entries = es })
  persist true es =
      if ltb limits.max_records (length es)
      then err too_many_records
      else if ltb limits.max_bytes (file_bytes es)
      then err file_too_large
      else ok (record { in_file = true; entries = es })

  unfoldable pub new_entry : ℕ → SubjectType → ℕ → Request → Entry
  new_entry last t at q =
      let r : Revocation = record {
        revocation_id = q.revocation_id;
        subject_type = t;
        subject_id = q.id;
        revoked_at = at;
        reason = q.reason;
        cascade = q.cascade;
        parent_id = q.parent_id;
      } in
      record { numbering = v1_1 (last + 1) (digest_of (last + 1) r); revocation = r }

  unfoldable pub append_entry :
      Registry → List Entry → SubjectType → ℕ → Request → Result RevocationError Registry
  append_entry r es t at q =
      if leb max_safe (last_sequence es)
      then err sequence_exhausted
      else if not (valid_entry (new_entry (last_sequence es) t at q))
      then err invalid_record
      else persist r.in_file (es ++ new_entry (last_sequence es) t at q ∷ [])

  -- RevocationRegistry.revoke
  unfoldable pub revoke : Registry → Request → Result RevocationError Registry
  revoke r q = do
    t ← the_type q.type
    id ← if is_empty q.id then err id_required else ok q.id
    es ← load r
    at ← the_time q.at
    append_entry r es t at q

  unfoldable pub check_revoked :
      Registry → SubjectType → Text → Option ℕ → List Ancestor → Result RevocationError Answer
  check_revoked r t id now ancestors = do
    at ← the_time now
    es ← load r
    ok (answer_for es at ancestors (find (is_direct t id at) es))

  -- RevocationRegistry.isRevoked
  unfoldable pub is_revoked :
      Registry → SubjectType → Text → Option ℕ → List Ancestor → Result RevocationError Answer
  is_revoked r t id now ancestors =
      if r.in_file && is_empty r.entries then ok not_revoked else check_revoked r t id now ancestors
