-- ===== src/Blocklist/Entries.antt =====
-- internal/middleware/ip_blocklist.go: who is turned away.
use astra_backend.Prelude.{
  ◌≡◌, refl, Bool, false, ◌||◌, Option, List, [], ◌∷◌, arith, Text, text_eq, is_empty, trim_space,
  if◌then◌else◌, ap, ◌∙◌,
}
use astra_backend.Blocklist.{
  Ips, no_ips, add, add_trimmed, add_all, split_from, new_ip_blocklist, block_ips, strip_port,
  Verdict, forbidden, passed, serve,
}

-- An entry is this address.
unfoldable pub names : Text → List Text → Bool
names ip [] = false
names ip (e ∷ rest) = text_eq e ip || names ip rest

-- An entry, without the space around it, is this address, and is not empty.
unfoldable pub lists : Text → List Text → Bool
lists ip [] = false
lists ip (e ∷ rest) =
    (if is_empty (trim_space e) then false else text_eq (trim_space e) ip) || lists ip rest

add_all-lists :
    (entries : List Text) (ips : Ips) (ip : Text)
    → add_all entries ips ip ≡ (lists ip entries || ips ip)
unfolding add_all add_trimmed add lists
add_all-lists [] ips ip = refl
add_all-lists (e ∷ rest) ips ip = ground (arith, add_all-lists rest (add_trimmed e ips) ip)

block_ips-names :
    (added : List Text) (ips : Ips) (ip : Text)
    → block_ips added ips ip ≡ (names ip added || ips ip)
unfolding block_ips add names
block_ips-names [] ips ip = refl
block_ips-names (a ∷ rest) ips ip = ground (arith, block_ips-names rest (add a ips) ip)

-- With BLOCKED_IPS unset there is no entry of it.
unfoldable pub env_lists : Text → Text → Bool
env_lists ip env = if is_empty env then false else lists ip (split_from [] env)

new_ip_blocklist-lists :
    (seeds : List Text) (env ip : Text)
    → new_ip_blocklist seeds env ip ≡ (env_lists ip env || lists ip seeds)
unfolding new_ip_blocklist env_lists
new_ip_blocklist-lists seeds env ip = ground (
  arith,
  add_all-lists seeds no_ips ip,
  add_all-lists (split_from [] env) (add_all seeds no_ips) ip,
)

-- What the handler answers.
abbrev pub verdict : Bool → Verdict
verdict b = if b then forbidden else passed

-- A request is turned away exactly if the address that it came from, without the port, was blocked at
-- run time, or is an entry of the fixed list or of BLOCKED_IPS, space around entries not counted.
pub serve-eq_lists :
    (split_host_port : Text → Option Text) (seeds added : List Text) (env addr : Text)
    → serve split_host_port (block_ips added (new_ip_blocklist seeds env)) addr
      ≡ verdict (
          names (strip_port split_host_port addr) added
          || (env_lists (strip_port split_host_port addr) env
              || lists (strip_port split_host_port addr) seeds))
unfolding serve
serve-eq_lists split_host_port seeds added env addr =
    let ip = strip_port split_host_port addr in
    ap verdict (
      block_ips-names added (new_ip_blocklist seeds env) ip
      ∙ ap (λ (b : Bool). names ip added || b) (new_ip_blocklist-lists seeds env ip))
