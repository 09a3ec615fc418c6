-- ===== src/Authority/Revocation/Loading.antt =====
-- revoke and the loading of the file: RevocationRegistry of
-- packages/core/src/authority/revocation.js.
use ruleoak.Common.{
  ℕ, ◌+◌, ◌≤◌, ◌<◌, Bool, true, false, ◌≡◌, refl, sym, subst, List, [], ◌∷◌, ◌++◌, arith, ltb, leb,
  inl, inr, Bool-cases, In, length,
}
use ruleoak.Common.Results.{ok, err, >>=-eq-ok}
use ruleoak.Common.Texts.{Text}
use ruleoak.Authority.Revocation.{
  Numbering, v1_0, v1_1, Revocation, Entry, Registry, Limits, greater, last_sequence, Request,
  valid_entry, next_sequence, check_lines, line_too_long, file_bytes, check_file, load_from, load,
  persist, new_entry, revoke,
}
use ruleoak.Authority.Revocation.Effect.{
  persist-eq, IsRevocation, revoke-IsRevocation, revoke-entries, last_entry,
}

module _ (digest_of : ℕ → Revocation → Text) (line_bytes : Entry → ℕ) (limits : Limits) where
  abbrev Accepts : ℕ → Entry → List Entry → Bool → Type 0
  Accepts last e es b =
      (ltb limits.max_line_bytes (line_bytes e) ≡ false)
      × (valid_entry digest_of line_bytes limits e ≡ true)
      × (k : ℕ) × (next_sequence digest_of line_bytes limits last e.numbering ≡ ok k)
      × (check_lines digest_of line_bytes limits k es ≡ ok b)

  check_lines-Accepts :
      (last : ℕ) (e : Entry) (es : List Entry) (b : Bool)
      → check_lines digest_of line_bytes limits last (e ∷ es) ≡ ok b
      → Accepts last e es b
  unfolding check_lines
  check_lines-Accepts last e es b h = elim (Bool-cases (ltb limits.max_line_bytes (line_bytes e))) [
    | inl long ↦ absurd (cc (rw long at h))
    | inr f ↦ elim (Bool-cases (valid_entry digest_of line_bytes limits e)) [
      | inr bad ↦ absurd (cc (rw (f, bad) at h))
      | inl v ↦
          let r =
            >>=-eq-ok (next_sequence digest_of line_bytes limits last e.numbering) _
              (rw (f, v) at h) in
          (f, v, r.0, r.1, r.2)
    ]
  ]

  Accepts-check_lines :
      (last : ℕ) (e : Entry) (es : List Entry) (b : Bool)
      → Accepts last e es b
      → check_lines digest_of line_bytes limits last (e ∷ es) ≡ ok b
  unfolding check_lines
  Accepts-check_lines last e es b h = let (f, v, k, n, c) = h in rw (f, v, n) c

  next_sequence-below :
      (last n m k : ℕ) (num : Numbering)
      → last < n
      → greater num m < n
      → next_sequence digest_of line_bytes limits last num ≡ ok k
      → (k < n) × (m < n)
  unfolding next_sequence
  next_sequence-below last n m k v1_0 lt g h = (subst (λ k. k < n) (cc h) lt, g)
  next_sequence-below last n m k (v1_1 j d) lt g h = elim (Bool-cases (leb j last)) [
    | inl t ↦ absurd (cc (rw t at h))
    | inr f ↦
        let e : ok j ≡ next_sequence digest_of line_bytes limits last (v1_1 j d) = rw f refl in
        let same_number : j ≡ k = cc (e, h) in
        let bounds : (j < n) × (m < n) = ground arith in
        (subst (λ k. k < n) same_number bounds.0, bounds.1)
  ]

  next_sequence-above :
      (last n : ℕ) (num : Numbering) (d : Text)
      → num ≡ v1_1 n d
      → last < n
      → next_sequence digest_of line_bytes limits last num ≡ ok n
  unfolding next_sequence
  next_sequence-above last n num d e lt = rw e (ground (arith, lt))

  -- A line that fits, holds a valid entry and has a number above every other can be added.
  check_lines-append :
      (last : ℕ) (es : List Entry) (e : Entry) (n : ℕ) (d : Text)
      → e.numbering ≡ v1_1 n d
      → valid_entry digest_of line_bytes limits e ≡ true
      → ltb limits.max_line_bytes (line_bytes e) ≡ false
      → last < n
      → last_sequence es < n
      → (b : Bool) → check_lines digest_of line_bytes limits last es ≡ ok b
      → check_lines digest_of line_bytes limits last (es ++ e ∷ []) ≡ ok true
  unfolding last_sequence check_lines
  check_lines-append last [] e n d num v fits lt lt' b h =
      Accepts-check_lines last e [] true
        (fits, v, n, next_sequence-above last n e.numbering d num lt, ended)
    where
      ended : check_lines digest_of line_bytes limits n [] ≡ ok true
      ended = refl
  check_lines-append last (x ∷ es) e n d num v fits lt lt' b h =
      let (f, w, k, next, c) = check_lines-Accepts last x es b h in
      let below = next_sequence-below last n (last_sequence es) k x.numbering lt lt' next in
      Accepts-check_lines last x (es ++ e ∷ []) true
        (f, w, k, next, check_lines-append k es e n d num v fits below.0 below.1 b c)

  persisted-sizes :
      (es : List Entry) (s : Registry)
      → persist digest_of line_bytes limits true es ≡ ok s
      → (ltb limits.max_records (length es) ≡ false)
        × (ltb limits.max_bytes (file_bytes digest_of line_bytes limits es) ≡ false)
  unfolding persist
  persisted-sizes es s h = elim (Bool-cases (ltb limits.max_records (length es))) [
    | inl t ↦ absurd (cc (rw t at h))
    | inr f ↦ elim (Bool-cases (ltb limits.max_bytes (file_bytes digest_of line_bytes limits es))) [
      | inl t ↦ absurd (cc (rw (f, t) at h))
      | inr g ↦ (f, g)
    ]
  ]

  check_file-lines :
      (es : List Entry) (b : Bool)
      → check_file digest_of line_bytes limits es ≡ ok b
      → check_lines digest_of line_bytes limits 0 es ≡ ok b
  unfolding check_file
  check_file-lines es b h =
      elim (Bool-cases (ltb limits.max_bytes (file_bytes digest_of line_bytes limits es))) [
        | inl t ↦ absurd (cc (rw t at h))
        | inr f ↦ elim (Bool-cases (ltb limits.max_records (length es))) [
          | inl t ↦ absurd (cc (rw (f, t) at h))
          | inr g ↦ rw (f, g) at h
        ]
      ]

  load_from-append :
      (in_file : Bool) (es out : List Entry) (e : Entry) (n : ℕ) (d : Text) (s : Registry)
      → e.numbering ≡ v1_1 n d
      → last_sequence es < n
      → valid_entry digest_of line_bytes limits e ≡ true
      → line_bytes e ≤ limits.max_line_bytes
      → persist digest_of line_bytes limits in_file (es ++ e ∷ []) ≡ ok s
      → load_from digest_of line_bytes limits in_file es ≡ ok out
      → load_from digest_of line_bytes limits in_file (es ++ e ∷ []) ≡ ok (es ++ e ∷ [])
  unfolding load_from check_file
  load_from-append false es out e n d s num lt v fits p h = refl
  load_from-append true es out e n d s num lt v fits p h =
      let c = >>=-eq-ok (check_file digest_of line_bytes limits es) _ h in
      let lines = check_file-lines es c.0 c.1 in
      let z = persisted-sizes (es ++ e ∷ []) s p in
      let short : ltb limits.max_line_bytes (line_bytes e) ≡ false = ground (arith, fits) in
      let positive : 0 < n = omega (arith, lt) in
      rw (z.1, z.0, check_lines-append 0 es e n d num v short positive lt c.0 lines) refl

  -- The entry that a successful revocation adds.
  abbrev pub added :
      (r : Registry) (q : Request) (s : Registry)
      → IsRevocation digest_of line_bytes limits r q s
      → Entry
  added r q s k = new_entry digest_of line_bytes limits (last_sequence r.entries) k.type k.at q

  -- After a revocation that succeeds, the entries of the registry are those from before followed by
  -- one whose number is the last number plus one, and the registry loads, provided that every line
  -- of the result is within the limit on lines.
  pub revoke-loads :
      (r s : Registry) (q : Request)
      → revoke digest_of line_bytes limits r q ≡ ok s
      → ((e : Entry) → In e s.entries → line_bytes e ≤ limits.max_line_bytes)
      → (load digest_of line_bytes limits s ≡ ok s.entries)
        × (e : Entry) × (d : Text) × (s.entries ≡ r.entries ++ e ∷ [])
        × (e.numbering ≡ v1_1 (last_sequence r.entries + 1) d)
  unfolding load new_entry
  revoke-loads r s q h fits =
      let k = revoke-IsRevocation digest_of line_bytes limits r q s h in
      let e = added r q s k in
      let same_entries = revoke-entries digest_of line_bytes limits r q s k in
      let last : In e s.entries = subst (In e) (sym same_entries) (last_entry e r.entries) in
      let m = last_sequence r.entries in
      let d = digest_of (m + 1) e.revocation in
      let loaded =
        load_from-append r.in_file r.entries r.entries e (m + 1) d s refl (omega arith) k.valid
          (fits e last) k.persisted k.loaded in
      (
        stored (persist-eq digest_of line_bytes limits r.in_file _ s k.persisted) loaded,
        e,
        d,
        same_entries,
        refl,
      )
    where
      stored :
          {f : Bool} {es : List Entry}
          → (s.in_file ≡ f) × (s.entries ≡ es)
          → load_from digest_of line_bytes limits f es ≡ ok es
          → load_from digest_of line_bytes limits s.in_file s.entries ≡ ok s.entries
      stored {f} {es} e l = rw (e.0, e.1) l

  check_lines-long :
      (last : ℕ) (es : List Entry) (e : Entry) (b : Bool)
      → ltb limits.max_line_bytes (line_bytes e) ≡ true
      → check_lines digest_of line_bytes limits last es ≡ ok b
      → check_lines digest_of line_bytes limits last (es ++ e ∷ []) ≡ err line_too_long
  unfolding check_lines
  check_lines-long last [] e b long h = rw long refl
  check_lines-long last (x ∷ es) e b long h =
      let (f, w, k, next, c) = check_lines-Accepts last x es b h in
      rw (f, w, next) (check_lines-long k es e b long c)

  -- A revocation that succeeds on a registry in a file and whose line exceeds the limit on lines
  -- leaves a registry that does not load: loading it throws, as it meets the line.
  pub revoke-unreadable :
      (r s : Registry) (q : Request)
      → revoke digest_of line_bytes limits r q ≡ ok s
      → r.in_file ≡ true
      → ((e : Entry) → s.entries ≡ r.entries ++ e ∷ [] → limits.max_line_bytes < line_bytes e)
      → load digest_of line_bytes limits s ≡ err line_too_long
  unfolding load load_from check_file
  revoke-unreadable r s q h in_file long =
      let k = revoke-IsRevocation digest_of line_bytes limits r q s h in
      let e = added r q s k in
      let same_entries = revoke-entries digest_of line_bytes limits r q s k in
      let exceeds = long e same_entries in
      let too_long : ltb limits.max_line_bytes (line_bytes e) ≡ true = ground (arith, exceeds) in
      let l : load_from digest_of line_bytes limits true r.entries ≡ ok r.entries =
        subst (λ f. load_from digest_of line_bytes limits f r.entries ≡ ok r.entries) in_file
          k.loaded in
      let c = >>=-eq-ok (check_file digest_of line_bytes limits r.entries) _ l in
      let lines = check_file-lines r.entries c.0 c.1 in
      let p : persist digest_of line_bytes limits true (r.entries ++ e ∷ []) ≡ ok s =
        subst (λ f. persist digest_of line_bytes limits f (r.entries ++ e ∷ []) ≡ ok s) in_file
          k.persisted in
      let z = persisted-sizes (r.entries ++ e ∷ []) s p in
      let stored = persist-eq digest_of line_bytes limits r.in_file _ s k.persisted in
      rw
        (
          stored.0,
          in_file,
          same_entries,
          z.1,
          z.0,
          check_lines-long 0 r.entries e c.0 too_long lines,
        )
        refl
