-- ===== src/RateLimiter/Log.antt =====
-- One key's log in src/rate-limiter.ts: dropping what has expired, and counting what lies in a window.
use ssh_mcp_pro.Base.{
  ℕ, suc, ◌+◌, ◌≤◌, ◌<◌, ◌≡◌, refl, List, [], ◌∷◌, ◌++◌, if◌then◌else◌, leb, ltb, length, arith,
  All, ◌&&◌,
}
use ssh_mcp_pro.RateLimiter.{drop_expired, active}

pub length-drop_expired-le :
    (w now : ℕ) (log : List ℕ) → length (drop_expired w now log) ≤ length log
unfolding drop_expired
length-drop_expired-le w now [] = omega arith
length-drop_expired-le w now (t ∷ log) = ground (arith, length-drop_expired-le w now log)

-- A later drop subsumes an earlier one, also when an entry was added in between.
pub drop_expired_later :
    (w now now' : ℕ) (log tail : List ℕ)
    → now ≤ now'
    → drop_expired w now' (drop_expired w now log ++ tail) ≡ drop_expired w now' (log ++ tail)
unfolding drop_expired
drop_expired_later w now now' [] tail h = refl
drop_expired_later w now now' (t ∷ log) tail h =
    ground (arith, drop_expired_later w now now' log tail h)

-- Oldest first, from `lo` on.
abbrev pub IsAscending : ℕ → List ℕ → Type 0
IsAscending lo [] = Unit
IsAscending lo (t ∷ log) = (lo ≤ t) × IsAscending t log

IsAscending-mono : (lo lo' : ℕ) (log : List ℕ) → lo' ≤ lo → IsAscending lo log → IsAscending lo' log
IsAscending-mono lo lo' [] h a = tt
IsAscending-mono lo lo' (t ∷ log) h a = (omega arith, a.1)

pub active_all :
    (w now lo : ℕ) (log : List ℕ) → now < lo + w → IsAscending lo log → active w now log ≡ log
active_all w now lo [] h a = refl
active_all w now lo (t ∷ log) h a = ground (arith, active_all w now t log)

-- On a log in order of time, the filter of the cleanup and of `getUsage` keeps what the loop of
-- `check` keeps.
pub active-eq-drop_expired :
    (w now lo : ℕ) (log : List ℕ) → IsAscending lo log → active w now log ≡ drop_expired w now log
unfolding drop_expired
active-eq-drop_expired w now lo [] a = refl
active-eq-drop_expired w now lo (t ∷ log) a =
    ground (arith, active-eq-drop_expired w now t log a.1, active_all w now t log)

pub drop_expired-IsAscending :
    (w now lo : ℕ) (log : List ℕ) → IsAscending lo log → IsAscending lo (drop_expired w now log)
unfolding drop_expired
drop_expired-IsAscending w now lo [] a = tt
drop_expired-IsAscending w now lo (t ∷ log) a = ground (
  arith,
  drop_expired-IsAscending w now t log a.1,
  IsAscending-mono t lo (drop_expired w now log),
)

pub append-IsAscending :
    (lo now : ℕ) (log : List ℕ)
    → IsAscending lo log
    → All (λ t. t ≤ now) log
    → lo ≤ now
    → IsAscending lo (log ++ now ∷ [])
append-IsAscending lo now [] a p h = (h, tt)
append-IsAscending lo now (t ∷ log) a p h = (a.0, append-IsAscending t now log a.1 p.1 p.0)

pub drop_expired-All :
    (w now last : ℕ) (log : List ℕ)
    → All (λ t. t ≤ last) log
    → All (λ t. t ≤ last) (drop_expired w now log)
unfolding drop_expired
drop_expired-All w now last [] p = tt
drop_expired-All w now last (t ∷ log) p = ground (arith, drop_expired-All w now last log p.1)

pub All-mono :
    (last now : ℕ) (log : List ℕ) → last ≤ now → All (λ t. t ≤ last) log → All (λ t. t ≤ now) log
All-mono last now [] h p = tt
All-mono last now (t ∷ log) h p = (omega arith, All-mono last now log h p.1)

-- How many entries lie in the half-open interval from `a`, excluded, to `b`, included.
unfoldable pub count_in : ℕ → ℕ → List ℕ → ℕ
count_in a b [] = 0
count_in a b (t ∷ log) =
    let rest = count_in a b log in if ltb a t && leb t b then suc rest else rest

pub count_in-append :
    (a b now : ℕ) (log : List ℕ)
    → count_in a b (log ++ now ∷ [])
      ≡ (if ltb a now && leb now b then suc (count_in a b log) else count_in a b log)
unfolding count_in
count_in-append a b now [] = refl
count_in-append a b now (t ∷ log) = ground (arith, count_in-append a b now log)

count_in-le : (a b : ℕ) (log : List ℕ) → count_in a b log ≤ length log
unfolding count_in
count_in-le a b [] = omega arith
count_in-le a b (t ∷ log) = ground (arith, count_in-le a b log)

-- A window that reaches up to `now` holds only entries that have not expired at `now`.
pub count_in-le-drop_expired :
    (w now a : ℕ) (log : List ℕ)
    → now ≤ a + w
    → count_in a (a + w) log ≤ length (drop_expired w now log)
unfolding count_in drop_expired
count_in-le-drop_expired w now a [] h = omega arith
count_in-le-drop_expired w now a (t ∷ log) h =
    ground (arith, count_in-le-drop_expired w now a log h, count_in-le a (a + w) log)
