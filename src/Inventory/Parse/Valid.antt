-- ===== src/Inventory/Parse/Valid.antt =====
-- Every line keeps the inventory well-formed.
use pipe_shell_x.Base.{
  ℕ, suc, ◌≡◌, ◌<◌, refl, sym, subst, ◌∙◌, inl, inr, [], ◌∷◌, List, Option, none, some, Bool, true,
  false, ◌&&◌, Bytes, codes, length, ◌==◌, if◌then◌else◌, arith, Bool-cases,
}
use pipe_shell_x.Text.{equal, pieces}
use pipe_shell_x.Text.Lists.{IsUnique}
use pipe_shell_x.Inventory.{
  Host, Hosts, Problem, Outcome, malformed, parsed, ◌>>=◌, parse_port, upsert, trim,
  split_whitespace, unknown_default, host_before_group, expected_default, unterminated_section,
}
use pipe_shell_x.Inventory.Parse.{
  Scan, start_scan, options_on, listed, enter, host_on, entry_on, trimmed_on, line_on, parse_lines,
  parse, section_on, unbracket, default_on, default_with, section_of, host_with, set_default,
}
use pipe_shell_x.Inventory.Unique.{
  names, >>=-parsed, parsed-injective, malformed-not_parsed, add_unique-IsUnique, add_unique-All,
  upsert-names, upsert-All,
}
use pipe_shell_x.Inventory.Valid.{
  IsPort, IsFilled, IsHost, IsInventory, new_host-IsHost, parse_port-IsPort,
}
use pipe_shell_x.Inventory.Parse.Options.{Kept, options_on-Kept}

pub record IsScan (scan : Scan) : Type 0 where
  pub inventory : IsInventory scan.hosts
  pub default_ok : IsPort scan.default_port

listed-IsHost :
    (user host : Bytes) (scan : Scan) (e : Host)
    → IsScan scan
    → 0 < length scan.current_group
    → e.name ≡ host
    → IsHost e
    → IsHost (listed user host scan e)
unfolding listed
listed-IsHost user host scan e ok group name is = record {
  addressed = name;
  port_ok = elim (Bool-cases (scan.default_port_set && (e.port == 22))) [
    | inl default ↦ rw (default) ok.default_ok
    | inr kept ↦ rw (kept) is.port_ok
  ];
  native_ok = is.native_ok;
  supported = is.supported;
  groups_unique = add_unique-IsUnique e.groups scan.current_group is.groups_unique;
  groups_filled = add_unique-All IsFilled e.groups scan.current_group is.groups_filled group;
  tags_unique = is.tags_unique;
  tags_filled = is.tags_filled;
}

listed-name : (user host : Bytes) (scan : Scan) (e : Host) → (listed user host scan e).name ≡ e.name
unfolding listed
listed-name user host scan e = refl

-- An outcome whose scan, if there is one, is well-formed.
Sound : Outcome Scan → Type 0
Sound o = (scan' : Scan) → o ≡ parsed scan' → IsScan scan'

malformed-Sound : (line : ℕ) (problem : Problem) → Sound (malformed line problem)
unfolding Sound
malformed-Sound line problem scan' e = absurd (malformed-not_parsed e)

parsed-Sound : (scan : Scan) → IsScan scan → Sound (parsed scan)
unfolding Sound
parsed-Sound scan ok scan' e = subst IsScan (parsed-injective e) ok

either : (b : Bool) (x y : Outcome Scan) → Sound x → Sound y → Sound (if b then x else y)
either true x y p q = p
either false x y p q = q

enter-Sound :
    (number : ℕ) (user host : Bytes) (opts : List Bytes) (scan : Scan)
    → IsScan scan
    → 0 < length scan.current_group
    → Sound (enter number user host opts scan)
unfolding enter Sound
enter-Sound number user host opts scan ok group scan' e =
    let change : Host → Outcome Host =
      λ entry. options_on number opts (listed user host scan entry) in
    let (hosts', entered, is) =
      >>=-parsed (upsert host change scan.hosts) (λ hosts. parsed (record scan { hosts = hosts }))
        e in
    let kept : (a b : Host) → change a ≡ parsed b → Kept (listed user host scan a) b =
      λ a b made. options_on-Kept number opts (listed user host scan a) b made in
    let same_names =
      upsert-names host change
        (λ a b made. (kept a b made).name_kept ∙ listed-name user host scan a) scan.hosts hosts'
        entered in
    let hosts_ok =
      upsert-All host change IsHost (new_host-IsHost host)
        (λ a b name is_host made.
          (kept a b made).still (listed-IsHost user host scan a ok group name is_host))
        scan.hosts hosts' entered ok.inventory.each in
    subst IsScan (parsed-injective is) (record {
      inventory = record {
        unique =
            subst IsUnique (sym same_names)
              (add_unique-IsUnique (names scan.hosts) host ok.inventory.unique);
        each = hosts_ok;
      };
      default_ok = ok.default_ok;
    })

host_with-Sound :
    (number : ℕ) (tokens : List Bytes) (scan : Scan)
    → IsScan scan
    → 0 < length scan.current_group
    → Sound (host_with number tokens scan)
unfolding host_with
host_with-Sound number [] scan ok group = parsed-Sound scan ok
host_with-Sound number (spec ∷ opts) scan ok group = enter-Sound number _ _ opts scan ok group

section_of-Sound :
    (number : ℕ) (middle : Option Bytes) (scan : Scan)
    → IsScan scan
    → Sound (section_of number middle scan)
unfolding section_of
section_of-Sound number none scan ok = malformed-Sound number unterminated_section
section_of-Sound number (some middle) scan ok =
    let same : (b : Bool) (g : Bytes)
        → IsScan (record scan { in_defaults = b; current_group = g }) =
      λ b g. record { inventory = ok.inventory; default_ok = ok.default_ok } in
    either _ _ _ (parsed-Sound _ (same true [])) (parsed-Sound _ (same false (trim middle)))

port-Sound :
    (value : Bytes) (number : ℕ) (scan : Scan)
    → IsScan scan
    → Sound (
        parse_port value number >>= λ port.
        parsed (record scan { default_port = port; default_port_set = true }))
unfolding Sound
port-Sound value number scan ok scan' e =
    let (port, is, made) =
      >>=-parsed (parse_port value number)
        (λ port. parsed (record scan { default_port = port; default_port_set = true })) e in
    subst IsScan (parsed-injective made)
      (record { inventory = ok.inventory; default_ok = parse_port-IsPort value number port is })

set_default-Sound :
    (number : ℕ) (key value : Bytes) (scan : Scan)
    → IsScan scan
    → Sound (set_default number key value scan)
unfolding set_default
set_default-Sound number key value scan ok =
    let with_user : IsScan (record scan { default_user = value }) = record {
      inventory = ok.inventory;
      default_ok = ok.default_ok;
    } in
    let with_identity : IsScan (record scan { default_identity = value }) = record {
      inventory = ok.inventory;
      default_ok = ok.default_ok;
    } in
    either (equal key (codes "user")) _ _ (parsed-Sound _ with_user) (
      either (equal key (codes "identity")) _ _ (parsed-Sound _ with_identity) (
        either (equal key (codes "port")) _ _ (port-Sound value number scan ok)
          (malformed-Sound number (unknown_default key))))

default_with-Sound :
    (number : ℕ) (key rest : Bytes) (scan : Scan)
    → IsScan scan
    → Sound (default_with number key rest scan)
unfolding default_with
default_with-Sound number key [] scan ok = malformed-Sound number expected_default
default_with-Sound number key (c ∷ value) scan ok =
    set_default-Sound number (trim key) (trim value) scan ok

grouped-Sound :
    (number : ℕ) (line : Bytes) (scan : Scan)
    → IsScan scan
    → Sound (
        if length scan.current_group == 0
        then malformed number (host_before_group line)
        else host_on number line scan)
unfolding host_on
grouped-Sound number line scan ok = elim (Bool-cases (length scan.current_group == 0)) [
  | inl early ↦
      subst
        (λ b.
          Sound (if b then malformed number (host_before_group line) else host_on number line scan))
        (sym early) (malformed-Sound number (host_before_group line))
  | inr group ↦
      subst
        (λ b.
          Sound (if b then malformed number (host_before_group line) else host_on number line scan))
        (sym group) (host_with-Sound number (split_whitespace line) scan ok (ground (arith, group)))
]

entry_on-Sound :
    (number : ℕ) (line : Bytes) (scan : Scan) → IsScan scan → Sound (entry_on number line scan)
unfolding entry_on default_on
entry_on-Sound number line scan ok =
    either scan.in_defaults _ _ (default_with-Sound number _ _ scan ok)
      (grouped-Sound number line scan ok)

trimmed_on-Sound :
    (number : ℕ) (line : Bytes) (scan : Scan) → IsScan scan → Sound (trimmed_on number line scan)
unfolding trimmed_on section_on
trimmed_on-Sound number [] scan ok = parsed-Sound scan ok
trimmed_on-Sound number (c ∷ behind) scan ok =
    either _ _ _ (section_of-Sound number (unbracket behind) scan ok)
      (entry_on-Sound number (c ∷ behind) scan ok)

parse_lines-Sound :
    (number : ℕ) (lines : List Bytes) (scan : Scan)
    → IsScan scan
    → Sound (parse_lines number lines scan)
unfolding parse_lines line_on Sound
parse_lines-Sound number [] scan ok = parsed-Sound scan ok
parse_lines-Sound number (raw ∷ lines) scan ok = λ scan' e.
    let (next, step, rest) =
      >>=-parsed (line_on (suc number) raw scan) (λ s. parse_lines (suc number) lines s) e in
    parse_lines-Sound (suc number) lines next (trimmed_on-Sound (suc number) _ scan ok next step)
      scan' rest

-- A parsed inventory names each host once, and each of its hosts is known by its address, has ports in
-- range, a transport that is supported, and groups and tags that are not empty and not repeated.
pub parse-IsInventory :
    (text : Bytes) (hosts : Hosts) → parse text ≡ parsed hosts → IsInventory hosts
unfolding parse Sound
parse-IsInventory text hosts e =
    let (scan, lines, is) =
      >>=-parsed (parse_lines 0 (pieces 10 text) start_scan) (λ scan. parsed scan.hosts) e in
    let start : IsScan start_scan = record {
      inventory = record { unique = tt; each = tt };
      default_ok = (omega arith, omega arith);
    } in
    subst IsInventory (parsed-injective is)
      (parse_lines-Sound 0 (pieces 10 text) start_scan start scan lines).inventory
