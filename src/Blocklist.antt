-- ===== src/Blocklist.antt =====
-- internal/middleware/ip_blocklist.go: addresses that are turned away before anything else. The set is
-- a test on addresses; net.SplitHostPort is an argument, with `none` for its error.
pub mod Entries
use astra_backend.Prelude.{
  ℕ, Bool, true, false, ◌||◌, Option, none, some, List, [], ◌∷◌, ◌++◌, Text, text_eq, is_empty,
  trim_space, ◌==◌, if◌then◌else◌,
}

-- `map[string]struct{}`
abbrev pub Ips : Type 0
Ips = Text → Bool

abbrev pub no_ips : Ips
no_ips ip = false

-- `Add`
unfoldable pub add : Text → Ips → Ips
add ip ips other = text_eq ip other || ips other

-- One step of the loops of `newIPBlocklist`.
unfoldable pub add_trimmed : Text → Ips → Ips
unfolding add
add_trimmed given ips = let ip = trim_space given in if is_empty ip then ips else add ip ips

unfoldable pub add_all : List Text → Ips → Ips
unfolding add_trimmed
add_all [] ips = ips
add_all (ip ∷ rest) ips = add_all rest (add_trimmed ip ips)

-- `strings.Split(s, ",")`, with the part read so far.
unfoldable pub split_from : Text → Text → List Text
split_from part [] = part ∷ []
split_from part (c ∷ s) =
    if c == b',' then part ∷ split_from [] s else split_from (part ++ c ∷ []) s

-- `newIPBlocklist`, with the value of BLOCKED_IPS.
unfoldable pub new_ip_blocklist : List Text → Text → Ips
unfolding add_all split_from
new_ip_blocklist seeds env =
    let hardcoded = add_all seeds no_ips in
    if is_empty env then hardcoded else add_all (split_from [] env) hardcoded

-- `BlockIP`, for each of a list of addresses.
unfoldable pub block_ips : List Text → Ips → Ips
unfolding add
block_ips [] ips = ips
block_ips (ip ∷ rest) ips = block_ips rest (add ip ips)

-- `stripPort`
unfoldable pub strip_port : (Text → Option Text) → Text → Text
strip_port split_host_port addr = elim (split_host_port addr) [ none ↦ addr | some host ↦ host ]

pub data Verdict : Type 0 where
  forbidden passed : Verdict

-- The handler of `IPBlocklistMiddleware`.
unfoldable pub serve : (Text → Option Text) → Ips → Text → Verdict
unfolding strip_port
serve split_host_port ips remote_addr =
    if ips (strip_port split_host_port remote_addr) then forbidden else passed
