-- ===== src/Authority/Revocation/Lasting.antt =====
-- revoke and isRevoked together: RevocationRegistry of
-- packages/core/src/authority/revocation.js.
use ruleoak.Common.{
  ℕ, ◌≤◌, Bool, true, false, ◌&&◌, ◌≡◌, ◌≢◌, ◌∙◌, refl, sym, ap, subst, Option, none, some, List,
  [], ◌∷◌, arith, find, find-none, In, head, tail, is_empty,
}
use mathlib.Core.Bool.{false≢true}
use ruleoak.Authority.Revocation.Effect.{load_from-eq, Reaches, recorded}
use ruleoak.Common.Results.{ok, >>=-eq-ok}
use ruleoak.Common.Texts.{Text, same, same_refl}
use ruleoak.Authority.Revocation.{
  SubjectType, principal, authority_grant, authority_envelope, execution_lease, session,
  same_subject, Revocation, Entry, Registry, Limits, last_sequence, Request, Ancestor, type_fits,
  is_direct, is_cascade, Answer, not_revoked, found, search_ancestors, answer_for, load, new_entry,
  revoke, check_revoked, is_revoked,
}

pub same_subject_refl : (t : SubjectType) → same_subject t t ≡ true
unfolding same_subject
same_subject_refl principal = refl
same_subject_refl authority_grant = refl
same_subject_refl authority_envelope = refl
same_subject_refl execution_lease = refl
same_subject_refl session = refl

module _ (digest_of : ℕ → Revocation → Text) (line_bytes : Entry → ℕ) (limits : Limits) where
  found-not_revoked :
      (o : Option Entry) (later : Answer)
      → found o later ≡ not_revoked
      → (o ≡ none) × (later ≡ not_revoked)
  found-not_revoked none later h = (refl, h)
  found-not_revoked (some e) later h = absurd (cc h)

  cascades :
      (es : List Entry) (at : ℕ) (ancestors : List Ancestor) (a : Ancestor) (e : Entry)
      → In a ancestors
      → In e es
      → is_cascade a at e ≡ true
      → search_ancestors es at ancestors ≢ not_revoked
  unfolding search_ancestors
  cascades es at [] a e i j h n = elim i [ ]
  cascades es at (b ∷ bs) a e (head p) j h n =
      let f = (found-not_revoked (find (is_cascade b at) es) _ n).0 in
      false≢true
        (sym (find-none (is_cascade b at) es f j) ∙ ap (λ c. is_cascade c at e) (sym p) ∙ h)
  cascades es at (b ∷ bs) a e (tail i) j h n =
      cascades es at bs a e i j h (found-not_revoked (find (is_cascade b at) es) _ n).1

  answer-not_revoked :
      (es : List Entry) (at : ℕ) (ancestors : List Ancestor) (o : Option Entry)
      → answer_for es at ancestors o ≡ not_revoked
      → (o ≡ none) × (search_ancestors es at ancestors ≡ not_revoked)
  unfolding answer_for
  answer-not_revoked es at ancestors none h = (refl, h)
  answer-not_revoked es at ancestors (some e) h = absurd (cc h)

  -- An answer that nothing is revoked, from a registry that has an entry.
  clear :
      (s : Registry) (t : SubjectType) (id : Text) (now : ℕ) (ancestors : List Ancestor) (e : Entry)
      → In e s.entries
      → is_revoked digest_of line_bytes limits s t id (some now) ancestors ≡ ok not_revoked
      → (is_direct t id now e ≡ false) × (search_ancestors s.entries now ancestors ≡ not_revoked)
  unfolding is_revoked check_revoked load
  clear s t id now ancestors e i h =
      let g : check_revoked digest_of line_bytes limits s t id (some now) ancestors
          ≡ ok not_revoked =
        rw nonempty at h in
      let c = >>=-eq-ok (load digest_of line_bytes limits s) _ g in
      let same_entries = load_from-eq digest_of line_bytes limits s.in_file s.entries c.0 c.1 in
      let k : answer_for c.0 now ancestors (find (is_direct t id now) c.0) ≡ not_revoked = cc c.2 in
      let a = answer-not_revoked c.0 now ancestors _ k in
      (
        find-none (is_direct t id now) c.0 a.0 (subst (In e) (sym same_entries) i),
        subst (λ es. search_ancestors es now ancestors ≡ not_revoked) same_entries a.1,
      )
    where
      filled : (es : List Entry) → In e es → is_empty es ≡ false
      filled [] j = elim j [ ]
      filled (x ∷ es) j = refl

      and_false : (b c : Bool) → c ≡ false → (b && c) ≡ false
      and_false true c p = p
      and_false false c p = refl

      nonempty : (s.in_file && is_empty s.entries) ≡ false
      nonempty = and_false s.in_file _ (filled s.entries i)

  -- After a revocation that succeeds, however many succeed after it, a check of the same subject
  -- at the time of the revocation or later never answers that it is not revoked.
  pub revoke-lasts :
      (r s later : Registry) (q : Request) (t : SubjectType) (at now : ℕ)
      (ancestors : List Ancestor)
      → q.type ≡ some t
      → q.at ≡ some at
      → revoke digest_of line_bytes limits r q ≡ ok s
      → Reaches digest_of line_bytes limits s later
      → at ≤ now
      → is_revoked digest_of line_bytes limits later t q.id (some now) ancestors ≢ ok not_revoked
  unfolding is_direct new_entry
  revoke-lasts r s later q t at now ancestors ty time h reached le n =
      let i = recorded digest_of line_bytes limits r s later q t at ty time h reached in
      let c = (clear later t q.id now ancestors _ i n).0 in
      let a = same_subject_refl t in let b = same_refl q.id in ground (arith, a, b, c, le)

  -- After a revocation with cascade that succeeds, however many succeed after it, a check at the
  -- time of the revocation or later of a subject that names the revoked one among its ancestors,
  -- with the revoked type or with none, never answers that it is not revoked.
  pub revoke-cascades :
      (r s later : Registry) (q : Request) (t u : SubjectType) (id : Text) (at now : ℕ)
      (ancestors : List Ancestor) (a : Ancestor)
      → q.type ≡ some t
      → q.at ≡ some at
      → q.cascade ≡ true
      → revoke digest_of line_bytes limits r q ≡ ok s
      → Reaches digest_of line_bytes limits s later
      → at ≤ now
      → In a ancestors
      → a.id ≡ q.id
      → type_fits a.type t ≡ true
      → is_revoked digest_of line_bytes limits later u id (some now) ancestors ≢ ok not_revoked
  unfolding is_cascade new_entry
  revoke-cascades r s later q t u id at now ancestors a ty time c h reached le i same_id fits n =
      let j = recorded digest_of line_bytes limits r s later q t at ty time h reached in
      let k = (clear later u id now ancestors _ j n).1 in
      cascades later.entries now ancestors a _ i j covers k
    where
      covers :
          is_cascade a now (new_entry digest_of line_bytes limits (last_sequence r.entries) t at q)
          ≡ true
      covers =
          let b : same q.id a.id ≡ true =
            subst (λ x. same q.id x ≡ true) (sym same_id) (same_refl q.id) in
          ground (arith, b, c, le, fits)
