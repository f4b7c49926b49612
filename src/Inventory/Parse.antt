-- ===== src/Inventory/Parse.antt =====
-- `Inventory::parse`: the sections, the defaults and the hosts of the INI text.
pub mod Options
pub mod Valid
mod Tests
use pipe_shell_x.Base.{
  ℕ, zero, suc, [], ◌∷◌, ◌++◌, List, Option, none, some, Bool, true, false, not, ◌&&◌, ◌||◌, Bytes,
  codes, length, ◌==◌, if◌then◌else◌,
}
use pipe_shell_x.Text.{equal, span_to, pieces}
use pipe_shell_x.Inventory.{
  Host, Hosts, Problem, unterminated_section, expected_default, unknown_default, host_before_group,
  expected_option, bad_transport, unknown_option, Outcome, malformed, parsed, ◌>>=◌, trim,
  strip_comment, split_whitespace, parse_port, add_unique, is_supported_transport, upsert,
}

unfoldable pub is_equals : ℕ → Bool
is_equals c = c == 61

pub is_at : ℕ → Bool
is_at c = c == 64

-- The variables of the loop over the lines.
pub record Scan : Type 0 where
  pub hosts : Hosts
  pub default_user : Bytes
  pub default_identity : Bytes
  pub default_port : ℕ
  pub default_port_set : Bool
  pub current_group : Bytes
  pub in_defaults : Bool

abbrev pub start_scan : Scan
start_scan = record {
  hosts = [];
  default_user = [];
  default_identity = [];
  default_port = 22;
  default_port_set = false;
  current_group = [];
  in_defaults = false;
}

-- What is before the `]` at the end.
pub unbracket : Bytes → Option Bytes
unbracket [] = none
unbracket (c ∷ s) =
    let rest = unbracket s in
    elim s [
      | [] ↦ if c == 93 then some [] else none
      | _ ∷ _ ↦ elim rest [ none ↦ none | some middle ↦ some (c ∷ middle) ]
    ]

pub section_of : ℕ → Option Bytes → Scan → Outcome Scan
section_of number none scan = malformed number unterminated_section
section_of number (some middle) scan =
    let section = trim middle in
    if equal section (codes "defaults")
    then parsed (record scan { in_defaults = true; current_group = [] })
    else parsed (record scan { in_defaults = false; current_group = section })

pub section_on : ℕ → Bytes → Scan → Outcome Scan
section_on number behind scan = section_of number (unbracket behind) scan

pub set_default : ℕ → Bytes → Bytes → Scan → Outcome Scan
set_default number key value scan =
    if equal key (codes "user")
    then parsed (record scan { default_user = value })
    else if equal key (codes "identity")
    then parsed (record scan { default_identity = value })
    else if equal key (codes "port")
    then parse_port value number
      >>= (λ port. parsed (record scan { default_port = port; default_port_set = true }))
    else malformed number (unknown_default key)

-- `rest` starts at the `=`, if there is one.
pub default_with : ℕ → Bytes → Bytes → Scan → Outcome Scan
default_with number key [] scan = malformed number expected_default
default_with number key (_ ∷ value) scan = set_default number (trim key) (trim value) scan

pub default_on : ℕ → Bytes → Scan → Outcome Scan
default_on number line scan =
    let (key, rest) = span_to is_equals line in default_with number key rest scan

-- The tags between the commas; empty ones are passed over.
pub add_tags : List Bytes → List Bytes → List Bytes
add_tags [] tags = tags
add_tags (tag ∷ more) tags = add_tags more (if length tag == 0 then tags else add_unique tags tag)

pub set_option : ℕ → Bytes → Bytes → Host → Outcome Host
set_option number key value entry =
    if equal key (codes "user")
    then parsed (record entry { user = value })
    else if equal key (codes "port")
    then parse_port value number >>= (λ port. parsed (record entry { port = port }))
    else if equal key (codes "identity")
    then parsed (record entry { identity = value })
    else if equal key (codes "transport")
    then (if is_supported_transport value
        then parsed (record entry { transport = value })
        else malformed number (bad_transport value))
    else if equal key (codes "san")
    then parsed (record entry { san = value })
    else if equal key (codes "native_port")
    then parse_port value number >>= (λ port. parsed (record entry { native_port = port }))
    else if equal key (codes "tag")
    then parsed (record entry { tags = add_tags (pieces 44 value) entry.tags })
    else malformed number (unknown_option key)

pub option_with : ℕ → Bytes → Bytes → Bytes → Host → Outcome Host
option_with number opt key [] entry = malformed number (expected_option opt)
option_with number opt key (_ ∷ value) entry = set_option number key value entry

pub option_on : ℕ → Bytes → Host → Outcome Host
option_on number opt entry =
    let (key, rest) = span_to is_equals opt in option_with number opt key rest entry

-- The loop over the options of a host.
pub options_on : ℕ → List Bytes → Host → Outcome Host
options_on number [] entry = parsed entry
options_on number (opt ∷ opts) entry =
    option_on number opt entry >>= λ entry'. options_on number opts entry'

-- What a listing sets of its host before the options.
pub listed : Bytes → Bytes → Scan → Host → Host
listed user host scan entry = record entry {
  host = host;
  user =
      if not (length user == 0)
      then user
      else if length entry.user == 0
      then scan.default_user
      else entry.user;
  identity = if length entry.identity == 0 then scan.default_identity else entry.identity;
  port = if scan.default_port_set && (entry.port == 22) then scan.default_port else entry.port;
  groups = add_unique entry.groups scan.current_group;
}

-- The user and the host of `user@host` or `host`.
pub user_and_host : Bytes → Bytes → Bytes × Bytes
user_and_host default_user spec =
    let (user, rest) = span_to is_at spec in
    elim rest [ [] ↦ (default_user, spec) | _ ∷ host ↦ (user, host) ]

pub enter : ℕ → Bytes → Bytes → List Bytes → Scan → Outcome Scan
enter number user host opts scan =
    upsert host (λ entry. options_on number opts (listed user host scan entry)) scan.hosts
    >>= λ hosts. parsed (record scan { hosts = hosts })

-- The tokens of a host line; there is one, as the line is not empty.
pub host_with : ℕ → List Bytes → Scan → Outcome Scan
host_with number [] scan = parsed scan
host_with number (spec ∷ opts) scan =
    let (user, host) = user_and_host scan.default_user spec in enter number user host opts scan

pub host_on : ℕ → Bytes → Scan → Outcome Scan
host_on number line scan = host_with number (split_whitespace line) scan

pub entry_on : ℕ → Bytes → Scan → Outcome Scan
entry_on number line scan =
    if scan.in_defaults
    then default_on number line scan
    else if length scan.current_group == 0
    then malformed number (host_before_group line)
    else host_on number line scan

pub trimmed_on : ℕ → Bytes → Scan → Outcome Scan
trimmed_on number [] scan = parsed scan
trimmed_on number (c ∷ behind) scan =
    if c == 91 then section_on number behind scan else entry_on number (c ∷ behind) scan

pub line_on : ℕ → Bytes → Scan → Outcome Scan
line_on number raw scan = trimmed_on number (trim (strip_comment raw)) scan

-- The loop, `number` being the line before.
pub parse_lines : ℕ → List Bytes → Scan → Outcome Scan
parse_lines number [] scan = parsed scan
parse_lines number (raw ∷ lines) scan =
    line_on (suc number) raw scan >>= λ scan'. parse_lines (suc number) lines scan'

pub parse : Bytes → Outcome Hosts
parse text = parse_lines 0 (pieces 10 text) start_scan >>= λ scan. parsed scan.hosts
