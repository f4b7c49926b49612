-- ===== src/Inventory/Valid.antt =====
-- What every parsed inventory is like.
use pipe_shell_x.Base.{
  ℕ, ◌≡◌, ◌≤◌, ◌<◌, refl, subst, inl, inr, Option, none, some, true, ◌||◌, Bytes, length, ltb, ◌==◌,
  arith, Bool-cases, All,
}
use pipe_shell_x.Text.{equal}
use pipe_shell_x.Text.Lists.{IsUnique}
use pipe_shell_x.Inventory.{
  Host, Hosts, parsed, parse_port, port_of, unsigned_of, is_supported_transport, new_host,
}
use pipe_shell_x.Inventory.Unique.{names, parsed-injective, malformed-not_parsed}

abbrev pub IsPort : ℕ → Type 0
IsPort port = (0 < port) × (port ≤ 65535)

abbrev pub IsFilled : Bytes → Type 0
IsFilled s = 0 < length s

-- A host of a parsed inventory; it is known by its address.
pub record IsHost (h : Host) : Type 0 where
  pub addressed : h.name ≡ h.host
  pub port_ok : IsPort h.port
  pub native_ok : h.native_port ≤ 65535
  pub supported : is_supported_transport h.transport ≡ true
  pub groups_unique : IsUnique h.groups
  pub groups_filled : All IsFilled h.groups
  pub tags_unique : IsUnique h.tags
  pub tags_filled : All IsFilled h.tags

pub record IsInventory (hosts : Hosts) : Type 0 where
  pub unique : IsUnique (names hosts)
  pub each : All IsHost hosts

pub new_host-IsHost : (name : Bytes) → IsHost (new_host name)
unfolding new_host is_supported_transport equal
new_host-IsHost name = record {
  addressed = refl;
  port_ok = (omega arith, omega arith);
  native_ok = omega arith;
  supported = refl;
  groups_unique = tt;
  groups_filled = tt;
  tags_unique = tt;
  tags_filled = tt;
}

port_of-IsPort :
    (value : Bytes) (line : ℕ) (number : Option ℕ) (port : ℕ)
    → port_of value line number ≡ parsed port
    → IsPort port
unfolding port_of
port_of-IsPort value line none port e = absurd (malformed-not_parsed e)
port_of-IsPort value line (some n) port e = elim (Bool-cases ((n == 0) || ltb 65535 n)) [
  | inl bad ↦ absurd (malformed-not_parsed (simp (bad) at e))
  | inr fine ↦ subst IsPort (parsed-injective (simp (fine) at e)) (ground (arith, fine))
]

pub parse_port-IsPort :
    (value : Bytes) (line port : ℕ) → parse_port value line ≡ parsed port → IsPort port
unfolding parse_port
parse_port-IsPort value line port e = port_of-IsPort value line (unsigned_of value) port e
