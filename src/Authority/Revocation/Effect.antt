-- ===== src/Authority/Revocation/Effect.antt =====
-- What a successful revocation does to the registry: RevocationRegistry of packages/core/src/authority/revocation.js.
use ruleoak.Common.{
  ℕ, ◌-◌, ◌^◌, Bool, true, false, ◌≡◌, ◌∙◌, refl, sym, ap, subst, Option, none, some, List, [], ◌∷◌,
  ◌++◌, ltb, leb, if◌then◌else◌, inl, inr, Bool-cases, In, head, tail, is_empty, length,
}
use ruleoak.Common.Results.{ok, err, >>=-eq-ok}
use ruleoak.Common.Texts.{Text}
use ruleoak.Authority.Revocation.{
  SubjectType, principal, authority_grant, authority_envelope, execution_lease, session,
  same_subject, Revocation, Entry, Registry, RevocationError, Limits, last_sequence, the_type,
  the_time, Request, valid_entry, file_bytes, check_file, load_from, load, persist, new_entry,
  append_entry, revoke,
}

pub same_subject_refl : (t : SubjectType) → same_subject t t ≡ true
unfolding same_subject
same_subject_refl principal = refl
same_subject_refl authority_grant = refl
same_subject_refl authority_envelope = refl
same_subject_refl execution_lease = refl
same_subject_refl session = refl

pub last_entry : (e : Entry) (es : List Entry) → In e (es ++ e ∷ [])
last_entry e [] = head refl
last_entry e (x ∷ es) = tail (last_entry e es)

append_keeps : (e : Entry) (es more : List Entry) → In e es → In e (es ++ more)
append_keeps e [] more i = elim i [ ]
append_keeps e (x ∷ es) more (head h) = head h
append_keeps e (x ∷ es) more (tail i) = tail (append_keeps e es more i)

module _ (digest_of : ℕ → Revocation → Text) (line_bytes : Entry → ℕ) (limits : Limits) where
  pub load_from-eq :
      (f : Bool) (es out : List Entry)
      → load_from digest_of line_bytes limits f es ≡ ok out
      → out ≡ es
  unfolding load_from
  load_from-eq false es out h = cc h
  load_from-eq true es out h =
      let e = (>>=-eq-ok (check_file digest_of line_bytes limits es) (λ c. ok es) h).2 in cc e

  pub persist-eq :
      (f : Bool) (es : List Entry) (r : Registry)
      → persist digest_of line_bytes limits f es ≡ ok r
      → (r.in_file ≡ f) × (r.entries ≡ es)
  unfolding persist
  persist-eq false es r h = (cc h, cc h)
  persist-eq true es r h = elim (Bool-cases (ltb limits.max_records (length es))) [
    | inl t ↦ absurd (cc (rw t at h))
    | inr f ↦ elim (Bool-cases (ltb limits.max_bytes (file_bytes digest_of line_bytes limits es))) [
      | inl t ↦ absurd (cc (rw (f, t) at h))
      | inr g ↦
          let e : ok (record { in_file = true; entries = es })
              ≡ persist digest_of line_bytes limits true es =
            rw (f, g) refl in
          let k = e ∙ h in (cc k, cc k)
    ]
  ]

  -- What a successful revocation has done.
  pub record IsRevocation (r : Registry) (q : Request) (s : Registry) : Type 0 where
    pub type : SubjectType
    pub at : ℕ
    pub type_given : q.type ≡ some type
    pub at_given : q.at ≡ some at
    pub loaded : load digest_of line_bytes limits r ≡ ok r.entries
    pub valid :
        valid_entry digest_of line_bytes limits
          (new_entry digest_of line_bytes limits (last_sequence r.entries) type at q)
        ≡ true
    pub persisted :
        persist digest_of line_bytes limits r.in_file (
          r.entries
          ++ new_entry digest_of line_bytes limits (last_sequence r.entries) type at q ∷ [])
        ≡ ok s

  append_entry-eq :
      (r s : Registry) (es : List Entry) (t : SubjectType) (at : ℕ) (q : Request)
      → append_entry digest_of line_bytes limits r es t at q ≡ ok s
      → (valid_entry digest_of line_bytes limits
            (new_entry digest_of line_bytes limits (last_sequence es) t at q)
          ≡ true)
        × (persist digest_of line_bytes limits r.in_file
              (es ++ new_entry digest_of line_bytes limits (last_sequence es) t at q ∷ [])
            ≡ ok s)
  unfolding append_entry
  append_entry-eq r s es t at q h = elim (Bool-cases (leb (2 ^ 53 - 1) (last_sequence es))) [
    | inl full ↦ absurd (cc (rw full at h))
    | inr f ↦
        elim (Bool-cases (
          valid_entry digest_of line_bytes limits
            (new_entry digest_of line_bytes limits (last_sequence es) t at q))) [
              | inr bad ↦ absurd (cc (rw (f, bad) at h))
              | inl v ↦ (v, rw (f, v) at h)
            ]
  ]

  the_type-eq : (o : Option SubjectType) (t : SubjectType) → the_type o ≡ ok t → o ≡ some t
  the_type-eq none t h = absurd (cc h)
  the_type-eq (some u) t h = cc h

  the_time-eq : (o : Option ℕ) (t : ℕ) → the_time o ≡ ok t → o ≡ some t
  the_time-eq none t h = absurd (cc h)
  the_time-eq (some u) t h = cc h

  pub revoke-IsRevocation :
      (r : Registry) (q : Request) (s : Registry)
      → revoke digest_of line_bytes limits r q ≡ ok s
      → IsRevocation r q s
  unfolding revoke load
  revoke-IsRevocation r q s h =
      let a = >>=-eq-ok (the_type q.type) _ h in
      let b =
        >>=-eq-ok (if is_empty q.id then err RevocationError.id_required else ok q.id) _ a.2 in
      let c = >>=-eq-ok (load digest_of line_bytes limits r) _ b.2 in
      let d = >>=-eq-ok (the_time q.at) _ c.2 in
      let same_entries = load_from-eq r.in_file r.entries c.0 c.1 in
      let e = append_entry-eq r s c.0 a.0 d.0 q d.2 in
      record {
        type = a.0;
        at = d.0;
        type_given = the_type-eq q.type a.0 a.1;
        at_given = the_time-eq q.at d.0 d.1;
        loaded = c.1 ∙ ap ok same_entries;
        valid =
            subst
              (λ es.
                valid_entry digest_of line_bytes limits
                  (new_entry digest_of line_bytes limits (last_sequence es) a.0 d.0 q)
                ≡ true)
              same_entries e.0;
        persisted =
            subst
              (λ es.
                persist digest_of line_bytes limits r.in_file
                  (es ++ new_entry digest_of line_bytes limits (last_sequence es) a.0 d.0 q ∷ [])
                ≡ ok s)
              same_entries e.1;
      }

  -- Revocations that succeed, one after another.
  pub data Reaches (r : Registry) : Registry → Type 0 where
    here : Reaches r r
    next :
        {s t : Registry} (q : Request)
        → Reaches r s
        → revoke digest_of line_bytes limits s q ≡ ok t
        → Reaches r t

  pub revoke-entries :
      (r : Registry) (q : Request) (s : Registry)
      → (k : IsRevocation r q s)
      → s.entries
        ≡ r.entries
          ++ new_entry digest_of line_bytes limits (last_sequence r.entries) k.type k.at q ∷ []
  revoke-entries r q s k = (persist-eq r.in_file _ s k.persisted).1

  -- An entry of the registry stays.
  pub Reaches-In : (r s : Registry) (e : Entry) → Reaches r s → In e r.entries → In e s.entries
  Reaches-In r s e here i = i
  Reaches-In r s e (next {s = m} q reached h) i =
      let k = revoke-IsRevocation m q s h in
      subst (In e) (sym (revoke-entries m q s k))
        (append_keeps e m.entries _ (Reaches-In r m e reached i))

  pub recorded :
      (r s later : Registry) (q : Request) (t : SubjectType) (at : ℕ)
      → q.type ≡ some t
      → q.at ≡ some at
      → revoke digest_of line_bytes limits r q ≡ ok s
      → Reaches s later
      → In (new_entry digest_of line_bytes limits (last_sequence r.entries) t at q) later.entries
  recorded r s later q t at ty time h reached =
      let k = revoke-IsRevocation r q s h in
      let e = new_entry digest_of line_bytes limits (last_sequence r.entries) k.type k.at q in
      let i : In e s.entries =
        subst (In e) (sym (revoke-entries r q s k)) (last_entry e r.entries) in
      let same_type : k.type ≡ t = cc (k.type_given, ty) in
      let same_time : k.at ≡ at = cc (k.at_given, time) in
      subst
        (λ t.
          In (new_entry digest_of line_bytes limits (last_sequence r.entries) t at q) later.entries)
        same_type
        (subst
          (λ n.
            In (new_entry digest_of line_bytes limits (last_sequence r.entries) k.type n q)
              later.entries)
          same_time (Reaches-In s later e reached i))
