-- ===== src/Policy/Ports.antt =====
-- `parsePortRange` and `matchesPortPolicy` of src/policy.ts, over code units.
pub mod Ranges
use ssh_mcp_pro.Base.{
  ℕ, zero, suc, ◌+◌, ◌-◌, ◌*◌, Bool, true, false, ◌&&◌, ◌||◌, List, [], ◌∷◌, reverse, Option, none,
  some, Text, if◌then◌else◌, leb, length, any, includes, nat_eq, ◌==◌,
}

abbrev pub hyphen : ℕ
hyphen = b'-'

-- The code units that `String.prototype.trim` takes off.
unfoldable pub is_space : ℕ → Bool
is_space c =
    leb 9 c && leb c 13
    || leb 8192 c && leb c 8202
    || includes (32 ∷ 160 ∷ 5760 ∷ 8232 ∷ 8233 ∷ 8239 ∷ 8287 ∷ 12288 ∷ 65279 ∷ []) c

unfoldable pub drop_spaces : Text → Text
drop_spaces [] = []
drop_spaces (c ∷ s) = let rest = drop_spaces s in if is_space c then rest else c ∷ s

-- `text.trim()`.
unfoldable pub trim : Text → Text
trim s = reverse (drop_spaces (reverse (drop_spaces s)))

abbrev pub is_digit : ℕ → Bool
is_digit c = leb b'0' c && leb c b'9'

-- The longest run of digits, and what follows it.
abbrev pub digits : Text → Text
digits [] = []
digits (c ∷ s) = let rest = digits s in if is_digit c then c ∷ rest else []

abbrev pub after_digits : Text → Text
after_digits [] = []
after_digits (c ∷ s) = let rest = after_digits s in if is_digit c then rest else c ∷ s

-- `Number(digits)`.
abbrev pub number_from : ℕ → Text → ℕ
number_from acc [] = acc
number_from acc (c ∷ s) = number_from (acc * 10 + (c - b'0')) s

abbrev pub number : Text → ℕ
number = number_from 0

abbrev pub is_run : Text → Bool
is_run run = leb 1 (length run) && leb (length run) 5

pub record PortRange : Type 0 where
  pub start : ℕ
  pub end : ℕ

-- The tests after the match; `start < 0` is false of a run of digits.
abbrev pub checked_range : ℕ → ℕ → Option PortRange
checked_range start end =
    if leb end 65535 && leb start end then some (record { start = start; end = end }) else none

-- What follows the first run: nothing, or a hyphen and a second run.
abbrev pub range_tail : Text → Text → Option PortRange
range_tail run [] = checked_range (number run) (number run)
range_tail run (c ∷ s) =
    if c == hyphen && is_run (digits s) && leb (length (after_digits s)) 0
    then checked_range (number run) (number (digits s))
    else none

-- `/^(\d{1,5})(?:-(\d{1,5}))?$/` on the trimmed text: a run of digits is taken whole, since neither a
-- hyphen nor the end stands inside it.
unfoldable pub parse_port_range : Text → Option PortRange
unfolding trim
parse_port_range policy =
    let trimmed = trim policy in
    if is_run (digits trimmed) then range_tail (digits trimmed) (after_digits trimmed) else none

abbrev pub in_range : ℕ → Option PortRange → Bool
in_range port none = false
in_range port (some range) = leb range.start port && leb port range.end

unfoldable pub matches_port_policy : ℕ → List Text → Bool
unfolding parse_port_range
matches_port_policy port policies = any (λ policy. in_range port (parse_port_range policy)) policies
