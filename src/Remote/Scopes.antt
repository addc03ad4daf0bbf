-- ===== src/Remote/Scopes.antt =====
-- src/remote/scopes.ts: the capabilities that scopes grant.
use ssh_mcp_pro.Base.{
  ◌≡◌, ◌↔◌, refl, Bool, true, false, List, [], ◌∷◌, ◌++◌, Eq, includes, if◌then◌else◌, ◌||◌, any,
  arith,
}
use ssh_mcp_pro.Remote.Types.{RemoteCapability, RemoteScope, scope_capability_map}

capability_discrete : Discrete RemoteCapability
capability_discrete = hlevel

decided : {a b : RemoteCapability} → Dec (a ≡ b) → Bool
decided (yes h) = true
decided (no h) = false

decided_iff : {a b : RemoteCapability} (d : Dec (a ≡ b)) → (decided d ≡ true) ↔ (a ≡ b)
unfolding decided
decided_iff (yes h) = (λ _. h, λ _. refl)
decided_iff (no h) = (λ e. absurd (ground arith), λ e. absurd (h e))

unfoldable pub capability_beq : RemoteCapability → RemoteCapability → Bool
unfolding decided capability_discrete
capability_beq a b = decided (capability_discrete a b)

pub capability_beq_iff : (a b : RemoteCapability) → (capability_beq a b ≡ true) ↔ (a ≡ b)
unfolding capability_beq
capability_beq_iff a b = decided_iff (capability_discrete a b)

instance abbrev pub capability_eq : Eq RemoteCapability
capability_eq = record { equal = capability_beq; equal_iff = capability_beq_iff }

-- `set.add(capability)` over the capabilities of one scope.
add_all : List RemoteCapability → List RemoteCapability → List RemoteCapability
add_all [] capabilities = capabilities
add_all (c ∷ cs) capabilities =
    add_all cs (if includes capabilities c then capabilities else capabilities ++ c ∷ [])

add_scopes : List RemoteScope → List RemoteCapability → List RemoteCapability
unfolding add_all
add_scopes [] capabilities = capabilities
add_scopes (scope ∷ scopes) capabilities =
    add_scopes scopes (add_all (scope_capability_map scope) capabilities)

pub capabilities_from_scopes : List RemoteScope → List RemoteCapability
unfolding add_scopes
capabilities_from_scopes scopes = add_scopes scopes []

unfoldable pub has_capability : List RemoteCapability → RemoteCapability → Bool
has_capability capabilities capability = includes capabilities capability

includes-append :
    (xs ys : List RemoteCapability) (c : RemoteCapability)
    → includes (xs ++ ys) c ≡ (includes xs c || includes ys c)
includes-append [] ys c = refl
includes-append (x ∷ xs) ys c = ground (arith, includes-append xs ys c)

has-add_all :
    (cs capabilities : List RemoteCapability) (c : RemoteCapability)
    → includes (add_all cs capabilities) c ≡ (includes capabilities c || includes cs c)
unfolding add_all
has-add_all [] capabilities c = ground arith
has-add_all (d ∷ cs) capabilities c = ground (
  arith,
  has-add_all cs (if includes capabilities d then capabilities else capabilities ++ d ∷ []) c,
  includes-append capabilities (d ∷ []) c,
  capability_beq_iff d c,
)

has-add_scopes :
    (scopes : List RemoteScope) (capabilities : List RemoteCapability) (c : RemoteCapability)
    → includes (add_scopes scopes capabilities) c ≡ (
        includes capabilities c
        || any (λ (scope : RemoteScope). includes (scope_capability_map scope) c) scopes)
unfolding add_scopes
has-add_scopes [] capabilities c = ground arith
has-add_scopes (scope ∷ scopes) capabilities c = ground (
  arith,
  has-add_scopes scopes (add_all (scope_capability_map scope) capabilities) c,
  has-add_all (scope_capability_map scope) capabilities c,
)

-- A principal holds a capability exactly when one of the scopes of the token grants it.
pub has_capability-from_scopes :
    (scopes : List RemoteScope) (capability : RemoteCapability)
    → has_capability (capabilities_from_scopes scopes) capability
      ≡ any (λ (scope : RemoteScope). includes (scope_capability_map scope) capability) scopes
unfolding has_capability capabilities_from_scopes
has_capability-from_scopes scopes capability = has-add_scopes scopes [] capability
