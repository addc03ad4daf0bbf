-- ===== src/Remote/Nonces/Window.antt =====
-- What the nonce windows of src/remote/http-util.ts remember, and for how long.
use ssh_mcp_pro.Base.{
  ℕ, ◌+◌, ◌≤◌, ◌<◌, ◌≡◌, ◌≢◌, refl, true, false, String, List, [], ◌∷◌, none, some, if◌then◌else◌,
  length, arith, All, string_eq, ◌==◌,
}
use ssh_mcp_pro.Table.{Table, get, set, has, IsMap, get-set, size-set}
use ssh_mcp_pro.Remote.Nonces.{
  agent_nonce_ttl_ms, max_agent_connection_nonces, prune_nonce_window, has_seen_nonce, drop_oldest,
  remember_nonce,
}

prune-absent :
    (k : String) (m : Table String ℕ) (now : ℕ)
    → get k m ≡ none
    → get k (prune_nonce_window m now) ≡ none
unfolding prune_nonce_window get
prune-absent k [] now h = refl
prune-absent k ((i, e) ∷ m) now h = ground (arith, prune-absent k m now)

-- Pruning keeps the nonces that have not expired.
pub get-prune_live :
    (k : String) (e : ℕ) (m : Table String ℕ) (now : ℕ)
    → get k m ≡ some e
    → now < e
    → get k (prune_nonce_window m now) ≡ some e
unfolding prune_nonce_window get
get-prune_live k e [] now h l = h
get-prune_live k e ((i, f) ∷ m) now h l = ground (arith, get-prune_live k e m now)

pub prune-IsMap : (m : Table String ℕ) (now : ℕ) → IsMap m → IsMap (prune_nonce_window m now)
unfolding prune_nonce_window
prune-IsMap [] now u = tt
prune-IsMap ((i, e) ∷ m) now u = ground (arith, prune-IsMap m now u.1, prune-absent i m now u.0)

-- The number of entries behind a nonce, which are younger.
pub behind : String → Table String ℕ → ℕ
behind k [] = 0
behind k ((j, v) ∷ m) = if j == k then length m else behind k m

length-prune-le : (m : Table String ℕ) (now : ℕ) → length (prune_nonce_window m now) ≤ length m
unfolding prune_nonce_window
length-prune-le [] now = omega arith
length-prune-le ((i, e) ∷ m) now = ground (arith, length-prune-le m now)

behind-prune-le :
    (k : String) (e : ℕ) (m : Table String ℕ) (now : ℕ)
    → get k m ≡ some e
    → now < e
    → behind k (prune_nonce_window m now) ≤ behind k m
unfolding prune_nonce_window get behind
behind-prune-le k e [] now h l = omega arith
behind-prune-le k e ((i, f) ∷ m) now h l =
    ground (arith, behind-prune-le k e m now, length-prune-le m now)

length-set-le : (j : String) (v : ℕ) (m : Table String ℕ) → length (set j v m) ≤ length m + 1
length-set-le j v m = ground (arith, size-set j v m)

behind-set_ne-le :
    (k j : String) (v : ℕ) (m : Table String ℕ) → j ≢ k → behind k (set j v m) ≤ behind k m + 1
unfolding set behind
behind-set_ne-le k j v [] ne = ground arith
behind-set_ne-le k j v ((i, f) ∷ m) ne = ground (
  arith,
  string_eq.equal_iff i j,
  string_eq.equal_iff j k,
  string_eq.equal_iff i k,
  length-set-le j v m,
  behind-set_ne-le k j v m,
)

behind-set_new :
    (k : String) (v : ℕ) (m : Table String ℕ) → get k m ≡ none → behind k (set k v m) ≡ 0
unfolding set behind get
behind-set_new k v [] h = ground arith
behind-set_new k v ((i, f) ∷ m) h = ground (arith, behind-set_new k v m)

-- Dropping the oldest entries spares one that has fewer than `limit` younger ones.
pub drop_oldest_keeps :
    (limit : ℕ) (k : String) (m : Table String ℕ)
    → behind k m < limit
    → (get k (drop_oldest limit m) ≡ get k m) × (behind k (drop_oldest limit m) ≡ behind k m)
unfolding drop_oldest get behind
drop_oldest_keeps limit k [] l = (refl, refl)
drop_oldest_keeps limit k ((i, f) ∷ m) l = ground (arith, drop_oldest_keeps limit k m)

pub length-drop_oldest : (limit : ℕ) (m : Table String ℕ) → length (drop_oldest limit m) ≤ limit
unfolding drop_oldest
length-drop_oldest limit [] = omega arith
length-drop_oldest limit (entry ∷ m) = ground (arith, length-drop_oldest limit m)

-- A run of acceptances, each with its time.
pub remember_all : Table String ℕ → List (String × ℕ) → Table String ℕ
remember_all nonces [] = nonces
remember_all nonces ((nonce, now) ∷ later) = remember_all (remember_nonce nonces nonce now) later

remember-keeps :
    (k : String) (e : ℕ) (m : Table String ℕ) (j : String) (now : ℕ)
    → get k m ≡ some e
    → now < e
    → j ≢ k
    → behind k m + 1 < max_agent_connection_nonces
    → (get k (remember_nonce m j now) ≡ some e)
      × (behind k (remember_nonce m j now) ≤ behind k m + 1)
unfolding remember_nonce
remember-keeps k e m j now h l ne b =
    let live = prune_nonce_window m now in
    let held = set j (now + agent_nonce_ttl_ms) live in
    ground (
      arith,
      get-prune_live k e m now h l,
      behind-prune-le k e m now h l,
      get-set j k (now + agent_nonce_ttl_ms) live,
      string_eq.equal_iff j k,
      behind-set_ne-le k j (now + agent_nonce_ttl_ms) live ne,
      drop_oldest_keeps max_agent_connection_nonces k held,
    )

remember_all-keeps :
    (k : String) (e : ℕ) (m : Table String ℕ) (later : List (String × ℕ))
    → get k m ≡ some e
    → behind k m + length later < max_agent_connection_nonces
    → All (λ r. (r.0 ≢ k) × (r.1 < e)) later
    → get k (remember_all m later) ≡ some e
unfolding remember_all
remember_all-keeps k e m [] h b a = h
remember_all-keeps k e m ((j, now) ∷ later) h b (a, rest) =
    let kept = remember-keeps k e m j now h a.1 a.0 (omega arith) in
    remember_all-keeps k e (remember_nonce m j now) later kept.0 (omega arith) rest

remember-fresh :
    (k : String) (m : Table String ℕ) (now : ℕ)
    → get k (prune_nonce_window m now) ≡ none
    → (get k (remember_nonce m k now) ≡ some (now + agent_nonce_ttl_ms))
      × (behind k (remember_nonce m k now) ≡ 0)
unfolding remember_nonce
remember-fresh k m now h =
    let live = prune_nonce_window m now in
    let held = set k (now + agent_nonce_ttl_ms) live in
    ground (
      arith,
      get-set k k (now + agent_nonce_ttl_ms) live,
      string_eq.equal_iff k k,
      behind-set_new k (now + agent_nonce_ttl_ms) live h,
      drop_oldest_keeps max_agent_connection_nonces k held,
    )

-- A nonce that was not seen and is remembered at `t` is reported as seen at every time before
-- `t + 300000`, provided that since `t` fewer than 4096 other nonces were remembered, each of them
-- different from it and before it expired.
pub has_seen_nonce-remember :
    (nonce : String) (nonces : Table String ℕ) (t now : ℕ) (later : List (String × ℕ))
    → (has_seen_nonce nonces nonce t).1 ≡ false
    → length later < max_agent_connection_nonces
    → All (λ r. (r.0 ≢ nonce) × (r.1 < t + agent_nonce_ttl_ms)) later
    → now < t + agent_nonce_ttl_ms
    → (has_seen_nonce (remember_all (remember_nonce nonces nonce t) later) nonce now).1 ≡ true
unfolding has_seen_nonce has
has_seen_nonce-remember nonce nonces t now later unseen few others soon =
    let (held, young) = remember-fresh nonce nonces t (ground arith) in
    let kept =
      remember_all-keeps nonce (t + agent_nonce_ttl_ms) (remember_nonce nonces nonce t) later held
        (omega arith) others in
    ground (
      arith,
      get-prune_live nonce (t + agent_nonce_ttl_ms)
          (remember_all (remember_nonce nonces nonce t) later) now kept soon,
    )

-- Whatever was remembered and when, a window holds at most 4096 nonces after an acceptance.
pub length-remember_nonce :
    (nonces : Table String ℕ) (nonce : String) (now : ℕ)
    → length (remember_nonce nonces nonce now) ≤ max_agent_connection_nonces
unfolding remember_nonce
length-remember_nonce nonces nonce now =
    length-drop_oldest max_agent_connection_nonces
      (set nonce (now + agent_nonce_ttl_ms) (prune_nonce_window nonces now))
