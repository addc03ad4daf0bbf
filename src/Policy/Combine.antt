-- ===== src/Policy/Combine.antt =====
-- How the verdicts of the checks of src/policy.ts combine.
use ssh_mcp_pro.Base.{
  ◌≡◌, ◌↔◌, ◌⊎◌, inl, inr, refl, Bool, true, false, not, ◌&&◌, List, [], ◌∷◌, Option, none, some,
  Text, text_eq, if◌then◌else◌, any, or_else, arith, subst, sym, ap,
}
use ssh_mcp_pro.Policy.Engine.{DenyReason, is_nonempty, ◌then_check◌, deny_when}

pub then_check-none :
    (a b : Option DenyReason) → (a then_check b ≡ none) ↔ ((a ≡ none) × (b ≡ none))
then_check-none none b = (λ h. (refl, h), λ h. h.1)
then_check-none (some r) b = (λ h. absurd (ground arith), λ h. absurd (ground (arith, h.0)))

pub deny_when-none : (b : Bool) (r : DenyReason) → (deny_when b r ≡ none) ↔ (b ≡ false)
deny_when-none true r = ground arith
deny_when-none false r = ground arith

-- Equivalences side by side, one after the other, and two checks as one.
pub both_iff : {A B C D : Type 0} → (A ↔ B) → (C ↔ D) → (A × C) ↔ (B × D)
both_iff (f, g) (h, k) = (λ (a, c). (f a, h c), λ (b, d). (g b, k d))

pub checks_iff :
    {P Q : Type 0} (a b : Option DenyReason)
    → ((a ≡ none) ↔ P)
    → ((b ≡ none) ↔ Q)
    → (a then_check b ≡ none) ↔ (P × Q)
checks_iff a b (f, g) (h, k) =
    let (split, join) = then_check-none a b in
    (λ e. (f (split e).0, h (split e).1), λ (p, q). join (g p, k q))

pub when_iff :
    {P : Type 0} (b : Bool) (o : Option DenyReason)
    → ((o ≡ none) ↔ P)
    → ((if b then o else none) ≡ none) ↔ ((b ≡ false) ⊎ P)
when_iff true o (f, g) =
    (λ e. inr (f e), λ h. elim h [ inl bad ↦ absurd (ground arith) | inr p ↦ g p ])
when_iff false o (f, g) = (λ e. inl refl, λ h. refl)

pub either_iff :
    {P Q : Type 0} (b : Bool) (o o' : Option DenyReason)
    → ((o ≡ none) ↔ P)
    → ((o' ≡ none) ↔ Q)
    → ((if b then o else o') ≡ none) ↔ (((b ≡ true) × P) ⊎ ((b ≡ false) × Q))
either_iff true o o' (f, g) k = (
  λ e. inl (refl, f e),
  λ h. elim h [ inl (holds, p) ↦ g p | inr (bad, q) ↦ absurd (ground arith) ],
)
either_iff false o o' k (f, g) = (
  λ e. inr (refl, f e),
  λ h. elim h [ inl (bad, p) ↦ absurd (ground arith) | inr (otherwise, q) ↦ g q ],
)

pub at_normal_iff :
    (P : Text → Type 0) (o : Option DenyReason) (normal : Text)
    → ((o ≡ none) ↔ P normal)
    → (o ≡ none) ↔ ((x : Text) × (some normal ≡ some x) × P x)
at_normal_iff P o normal (f, g) = (
  λ e. (normal, refl, f e),
  λ (x, e, p). g (subst P (sym (ap (λ found. or_else found normal) e)) p),
)

pub local_verdict_iff :
    (under : Text → Bool) (d : Bool) (allow : List Text) (r r' r'' : DenyReason)
    → (deny_when d r
          then_check deny_when (not (is_nonempty allow)) r'
          then_check deny_when (not (any under allow)) r''
        ≡ none)
      ↔ ((d ≡ false) × (any under allow ≡ true))
local_verdict_iff under true allow r r' r'' = ground arith
local_verdict_iff under false [] r r' r'' = ground arith
local_verdict_iff under false (p ∷ ps) r r' r'' = ground arith

pub remote_verdict_iff :
    (d destructive everywhere under : Bool) (r r' : DenyReason)
    → (deny_when d r then_check deny_when (destructive && not everywhere && not under) r' ≡ none)
      ↔ ((d ≡ false) × ((destructive ≡ false) ⊎ (everywhere ≡ true) ⊎ (under ≡ true)))
remote_verdict_iff true destructive everywhere under r r' = ground arith
remote_verdict_iff false destructive everywhere under r r' = ground arith
