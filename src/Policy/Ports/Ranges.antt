-- ===== src/Policy/Ports/Ranges.antt =====
-- The ranges that `parsePortRange` of src/policy.ts reads.
use ssh_mcp_pro.Base.{
  ℕ, ◌≡◌, ◌≤◌, true, ◌&&◌, List, [], ◌∷◌, some, Text, arith, Bool-cases, Option-cases, ==_refl,
  includes, subst, text_eq, inl, inr, leb, length, nat_eq, ◌==◌,
}
use ssh_mcp_pro.Policy.Ports.{
  PortRange, checked_range, range_tail, parse_port_range, matches_port_policy, in_range, number,
  digits, after_digits, is_run, trim, hyphen,
}

checked_range-bounds :
    (start end : ℕ) (range : PortRange)
    → checked_range start end ≡ some range
    → (range.start ≤ range.end) × (range.end ≤ 65535)
checked_range-bounds start end range h = elim (Bool-cases (leb end 65535 && leb start end)) [
  | inl ok ↦ ground (arith)
  | inr bad ↦ ground (arith)
]

range_tail-bounds :
    (run rest : Text) (range : PortRange)
    → range_tail run rest ≡ some range
    → (range.start ≤ range.end) × (range.end ≤ 65535)
range_tail-bounds run [] range h = checked_range-bounds (number run) (number run) range h
range_tail-bounds run (c ∷ s) range h =
    elim (Bool-cases (c == hyphen && is_run (digits s) && leb (length (after_digits s)) 0)) [
      | inl ok ↦ ground (arith, checked_range-bounds (number run) (number (digits s)) range)
      | inr bad ↦ ground (arith)
    ]

parse_port_range-bounds :
    (policy : Text) (range : PortRange)
    → parse_port_range policy ≡ some range
    → (range.start ≤ range.end) × (range.end ≤ 65535)
unfolding parse_port_range
parse_port_range-bounds policy range h = elim (Bool-cases (is_run (digits (trim policy)))) [
  | inl ok ↦
      ground (arith, range_tail-bounds (digits (trim policy)) (after_digits (trim policy)) range)
  | inr bad ↦ ground (arith)
]

-- A port that a port policy matches lies in the range that some entry of the policy is read as, and
-- that range ends at port 65535 at most.
pub matches_port_policy-within :
    (port : ℕ) (policies : List Text)
    → matches_port_policy port policies ≡ true
    → (policy : Text) × (range : PortRange) × (includes policies policy ≡ true)
      × (parse_port_range policy ≡ some range)
      × (range.start ≤ port)
      × (port ≤ range.end)
      × (range.end ≤ 65535)
unfolding matches_port_policy
matches_port_policy-within port [] h = ground arith
matches_port_policy-within port (p ∷ ps) h =
    elim (Bool-cases (in_range port (parse_port_range p))) [
      | inl here ↦ elim (Option-cases (parse_port_range p)) [
        | inl e ↦ absurd (ground arith)
        | inr (range, e) ↦
            let bounds = parse_port_range-bounds p range e in
            let inside = subst (λ r. in_range port r ≡ true) e here in
            (p, range, ground (arith, ==_refl p), e, ground arith, ground arith, bounds.1)
      ]
      | inr there ↦
          let (q, range, member, e, from, to, bound) =
            matches_port_policy-within port ps (ground arith) in
          (q, range, ground arith, e, from, to, bound)
    ]
