-- ===== src/Project/OverrideTrust/Stamped.antt =====
-- What a machine writes into a dg.json counts on it, src/project/override-trust.ts.
use dg_cli.Common.{
  ◌≡◌, refl, sym, subst, ◌∙◌, ◌⊎◌, inl, inr, String, true, false, not, ◌&&◌, string_Eq, str_eq_iff,
  if◌then◌else◌, Bool-cases, Option, none, some, Option-cases, [], ◌∷◌, map, any, has, All,
  All-mapped, All-always, All-weaken, any-none, template, arith,
}
use dg_cli.Common.Json.{text, Fields, end}
use dg_cli.Common.Json.Keys.{lookup-put}
use dg_cli.Project.DgFile.{CooldownExemption, DecisionEntry, DgFile}
use dg_cli.Project.OverrideTrust.{
  auth_field, extra_at, stamped_extra, read_secret, or_create, read_or_create_secret,
  exemption_identity, decision_identity, auth_tag, stamp_exemption, stamp_decision, stamp_with,
  stamp_authored_entries,
}
use dg_cli.Project.OverrideTrust.Authored.{has_tag, is_authored_exemption, is_authored_decision}

-- A new secret is read back as it was written: 64 hexadecimal digits are.
abbrev pub IsReadBack : Option String → Type 0
IsReadBack fresh =
    (secret : String)
    → fresh ≡ some secret
    → read_secret (some (template (secret ∷ "\n" ∷ []))) ≡ some secret

stamped-has_tag :
    (extra : Option Fields) (tag : String)
    → has_tag (extra_at (stamped_extra extra tag) auth_field) tag ≡ true
stamped-has_tag none tag = rw (lookup-put end auth_field (text tag)) ((str_eq_iff tag tag).1 refl)
stamped-has_tag (some extra) tag =
    rw (lookup-put extra auth_field (text tag)) ((str_eq_iff tag tag).1 refl)

created-read :
    (content fresh : Option String)
    → IsReadBack fresh
    → read_secret ((read_or_create_secret content fresh).1)
      ≡ (read_or_create_secret content fresh).0
unfolding read_or_create_secret
created-read content fresh readable = elim (Option-cases (read_secret content)) [
  | inr (secret, h) ↦ (rw h h)
  | inl h ↦ (rw h (by_fresh fresh readable h))
]
  where
    by_fresh :
        (f : Option String)
        → IsReadBack f
        → read_secret content ≡ none
        → read_secret ((or_create none content f).1) ≡ (or_create none content f).0
    by_fresh none readable h = h
    by_fresh (some secret) readable h = readable secret refl

module _ (hmac : String → String → String) (real_path : String → Option String) where
  -- An exemption that was there before, or one that counts on this machine.
  abbrev pub OldOrAuthored : DgFile → Option String → String → CooldownExemption → Type 0
  OldOrAuthored prior secret root e =
      (has (map exemption_identity prior.cooldown_exemptions) (exemption_identity e) ≡ true)
      ⊎ (is_authored_exemption hmac real_path secret root e ≡ true)

  abbrev pub OldOrAuthoredDecision : DgFile → Option String → String → DecisionEntry → Type 0
  OldOrAuthoredDecision prior secret root d =
      (has (map decision_identity prior.decisions) (decision_identity d) ≡ true)
      ⊎ (is_authored_decision hmac real_path secret root d ≡ true)

  stamp_exemption-counts :
      (secret root : String) (prior : DgFile) (e : CooldownExemption)
      → OldOrAuthored prior (some secret) root (
          stamp_exemption hmac real_path secret root
            (map exemption_identity prior.cooldown_exemptions)
            e)
  unfolding exemption_identity
  stamp_exemption-counts secret root prior e =
      elim (Bool-cases
        (has (map exemption_identity prior.cooldown_exemptions) (exemption_identity e))) [
          | inl old ↦ (rw old (inl old))
          | inr new ↦
              (rw new (
                inr (
                  stamped-has_tag e.extra
                    (auth_tag hmac real_path secret root (exemption_identity e)))))
        ]

  stamp_decision-counts :
      (secret root : String) (prior : DgFile) (d : DecisionEntry)
      → OldOrAuthoredDecision prior
          (some secret)
          root
          (stamp_decision hmac real_path secret root (map decision_identity prior.decisions) d)
  unfolding decision_identity
  stamp_decision-counts secret root prior d =
      elim (Bool-cases (has (map decision_identity prior.decisions) (decision_identity d))) [
        | inl old ↦ (rw old (inl old))
        | inr new ↦
            (rw new (
              inr (
                stamped-has_tag d.extra
                  (auth_tag hmac real_path secret root (decision_identity d)))))
      ]

  abbrev pub IsStamped : DgFile → DgFile × Option String → String → String → Type 0
  IsStamped prior stamped secret root =
      All (OldOrAuthored prior (some secret) root) (stamped.0.cooldown_exemptions)
      × All (OldOrAuthoredDecision prior (some secret) root) (stamped.0.decisions)

  stamp_with-counts :
      (next prior : DgFile) (root secret : String) (created content : Option String)
      → created ≡ some secret
      → IsStamped prior (stamp_with hmac real_path created next prior root, content) secret root
  stamp_with-counts next prior root secret created content h = rw h (
    All-mapped _ _ next.cooldown_exemptions
        (All-always _ (stamp_exemption-counts secret root prior) next.cooldown_exemptions),
    All-mapped _ _ next.decisions
        (All-always _ (stamp_decision-counts secret root prior) next.decisions),
  )

  -- Each exemption and each decision of the file that is written was in the file before, or counts on
  -- this machine from then on, where the secret can be read after the writing, and a new one is read
  -- back as it was written.
  pub stamp_authored_entries-counts :
      (next prior : DgFile) (root : String) (content fresh : Option String) (secret : String)
      → IsReadBack fresh
      → read_secret ((stamp_authored_entries hmac real_path next prior root content fresh).1)
        ≡ some secret
      → IsStamped prior
          (stamp_authored_entries hmac real_path next prior root content fresh)
          secret
          root
  unfolding stamp_authored_entries
  stamp_authored_entries-counts next prior root content fresh secret readable h =
      let added_exemption =
        any
          (λ e. not (has (map exemption_identity prior.cooldown_exemptions) (exemption_identity e)))
          next.cooldown_exemptions in
      let added_decision =
        any (λ d. not (has (map decision_identity prior.decisions) (decision_identity d)))
          next.decisions in
      elim (Bool-cases (not added_exemption && not added_decision)) [
        | inl none_added ↦
            let no_exemption : added_exemption ≡ false = ground arith in
            let no_decision : added_decision ≡ false = ground arith in
            (rw none_added (
              All-weaken _ _ (λ e old. inl old) next.cooldown_exemptions
                  (any-none _ _ no_exemption),
              All-weaken _ _ (λ d old. inl old) next.decisions (any-none _ _ no_decision),
            ))
        | inr some_added ↦
            let read : read_secret ((read_or_create_secret content fresh).1) ≡ some secret =
              subst
                (λ b.
                  read_secret (
                    (if◌then◌else◌ {A = DgFile × Option String} b (next, content)
                      (
                        stamp_with hmac real_path ((read_or_create_secret content fresh).0) next
                            prior root,
                        (read_or_create_secret content fresh).1,
                      )).1)
                  ≡ some secret)
                some_added h in
            (rw some_added (
              stamp_with-counts next prior root secret ((read_or_create_secret content fresh).0)
                ((read_or_create_secret content fresh).1)
                (sym (created-read content fresh readable) ∙ read)))
      ]
