-- ===== src/Policy/Cooldown/Keys.antt =====
-- The keys that src/project/dgfile.ts gives to exemptions tell ecosystems and names apart.
use Prim.Native.Char.{code}
use Prim.Native.String
use text.Mathlib.TextLemmas.{append_cancel_left, append-nil, cons-append, nil-append}
use dg_cli.Common.{
  ◌≡◌, refl, sym, subst, ap, ap₂, ◌∙◌, inl, inr, String, true, false, ◌==◌, string_Eq, str_eq_iff,
  Bool-cases, and-true, ◌∷◌, ◌++◌, codes, arith,
}
use dg_cli.Project.DgFile.{ExemptionEcosystem}
use dg_cli.Project.DgFile.Exemptions.{
  exemption_key, exemption_ecosystem_text, is_for, same_exemption_ecosystem,
}

codes-append : (s t : String) → codes (String.◌++◌ s t) ≡ codes s ++ codes t
codes-append String.[] t = rw (nil-append t) refl
codes-append (String.◌∷◌ c s) t = rw (cons-append c s t) (ap (λ cs. code c ∷ cs) (codes-append s t))

key-name : (e : ExemptionEcosystem) (n t : String) → exemption_key e n ≡ exemption_key e t → n ≡ t
key-name e n t h =
    let behind : String.◌++◌ ":" (String.◌++◌ n "") ≡ String.◌++◌ ":" (String.◌++◌ t "") =
      append_cancel_left (exemption_ecosystem_text e) _ _ h in
    let name : String.◌++◌ n "" ≡ String.◌++◌ t "" = append_cancel_left ":" _ _ behind in
    sym (append-nil n) ∙ name ∙ append-nil t

key-codes :
    (e : ExemptionEcosystem) (n : String)
    → codes (exemption_key e n)
      ≡ codes (exemption_ecosystem_text e) ++ codes (String.◌++◌ ":" (String.◌++◌ n ""))
key-codes e n = codes-append (exemption_ecosystem_text e) (String.◌++◌ ":" (String.◌++◌ n ""))

key-colon :
    (n : String) → codes (String.◌++◌ ":" (String.◌++◌ n "")) ≡ 58 ∷ codes (String.◌++◌ n "")
key-colon n = codes-append ":" (String.◌++◌ n "")

apart :
    (e f : ExemptionEcosystem) (n t : String)
    → same_exemption_ecosystem e f ≡ false
    → codes (exemption_ecosystem_text e) ++ 58 ∷ codes (String.◌++◌ n "")
      ≡ codes (exemption_ecosystem_text f) ++ 58 ∷ codes (String.◌++◌ t "")
    → ⊥
apart ExemptionEcosystem.npm ExemptionEcosystem.npm n t h same = ground arith
apart ExemptionEcosystem.npm ExemptionEcosystem.pypi n t h same = ground arith
apart ExemptionEcosystem.npm ExemptionEcosystem.cargo n t h same = ground arith
apart ExemptionEcosystem.pypi ExemptionEcosystem.npm n t h same = ground arith
apart ExemptionEcosystem.pypi ExemptionEcosystem.pypi n t h same = ground arith
apart ExemptionEcosystem.pypi ExemptionEcosystem.cargo n t h same = ground arith
apart ExemptionEcosystem.cargo ExemptionEcosystem.npm n t h same = ground arith
apart ExemptionEcosystem.cargo ExemptionEcosystem.pypi n t h same = ground arith
apart ExemptionEcosystem.cargo ExemptionEcosystem.cargo n t h same = ground arith

pub same-eq : (e f : ExemptionEcosystem) → same_exemption_ecosystem e f ≡ true → e ≡ f
same-eq ExemptionEcosystem.npm ExemptionEcosystem.npm h = refl
same-eq ExemptionEcosystem.npm ExemptionEcosystem.pypi h = ground arith
same-eq ExemptionEcosystem.npm ExemptionEcosystem.cargo h = ground arith
same-eq ExemptionEcosystem.pypi ExemptionEcosystem.npm h = ground arith
same-eq ExemptionEcosystem.pypi ExemptionEcosystem.pypi h = refl
same-eq ExemptionEcosystem.pypi ExemptionEcosystem.cargo h = ground arith
same-eq ExemptionEcosystem.cargo ExemptionEcosystem.npm h = ground arith
same-eq ExemptionEcosystem.cargo ExemptionEcosystem.pypi h = ground arith
same-eq ExemptionEcosystem.cargo ExemptionEcosystem.cargo h = refl

-- Two keys are the same exactly if the exemptions are for the same package.
pub key-is_for :
    (e f : ExemptionEcosystem) (n t : String)
    → (exemption_key e n == exemption_key f t) ≡ is_for e n f t
key-is_for e f n t = elim (Bool-cases (exemption_key e n == exemption_key f t)) [
  | inl keys ↦ elim (Bool-cases (same_exemption_ecosystem e f)) [
    | inl here ↦
        let at : e ≡ f = same-eq e f here in
        let name : n ≡ t =
          key-name f n t
            (subst (λ g. exemption_key g n ≡ exemption_key f t) at ((str_eq_iff _ _).0 keys)) in
        keys ∙ sym (rw here ((str_eq_iff n t).1 name))
    | inr off ↦
        elim (apart e f n t off (
          subst
            (λ cs.
              codes (exemption_ecosystem_text e) ++ cs
              ≡ codes (exemption_ecosystem_text f) ++ 58 ∷ codes (String.◌++◌ t ""))
            (key-colon n)
            (subst
              (λ cs.
                codes (exemption_ecosystem_text e) ++ codes (String.◌++◌ ":" (String.◌++◌ n ""))
                ≡ codes (exemption_ecosystem_text f) ++ cs)
              (key-colon t)
              (sym (key-codes e n)
                ∙ ap (λ s. codes s) ((str_eq_iff _ _).0 keys)
                ∙ key-codes f t)))) [ ]
  ]
  | inr keys ↦ elim (Bool-cases (is_for e n f t)) [
    | inl same ↦
        let (here, name) = and-true (same_exemption_ecosystem e f) (n == t) same in
        let keys_too : (exemption_key e n == exemption_key f t) ≡ true =
          (str_eq_iff _ _).1 (ap₂ exemption_key (same-eq e f here) ((str_eq_iff n t).0 name)) in
        ground arith
    | inr other ↦ keys ∙ sym other
  ]
]
