-- ===== src/Inventory/Import.antt =====
-- `Inventory::importClientsTxt`: the legacy list of hosts, turned to INI text and parsed.
pub mod Secrets
mod Tests
use pipe_shell_x.Base.{
  ℕ, zero, suc, [], ◌∷◌, ◌++◌, List, Option, none, some, Bool, true, false, not, ◌&&◌, ◌||◌, Bytes,
  codes, length, ◌==◌, if◌then◌else◌,
}
use pipe_shell_x.Text.{has_any, equal, span_to, pieces, is_listed}
use pipe_shell_x.Inventory.{
  Host, Hosts, Problem, embedded_credentials, invalid_query, not_one_host, unsupported_query,
  duplicate_query, duplicate_host, Outcome, malformed, parsed, ◌>>=◌, trim,
}
use pipe_shell_x.Inventory.Parse.{is_equals, is_at, parse}

-- What is behind a prefix.
pub behind_prefix : Bytes → Bytes → Option Bytes
behind_prefix [] s = some s
behind_prefix (p ∷ prefix) [] = none
behind_prefix (p ∷ prefix) (c ∷ s) =
    let rest = behind_prefix prefix s in if p == c then rest else none

-- What is before and behind the last `sep`: `rfind`.
pub split_last : ℕ → Bytes → Option (Bytes × Bytes)
split_last sep [] = none
split_last sep (c ∷ s) = elim (split_last sep s) [
  | some (front, back) ↦ some (c ∷ front, back)
  | none ↦ if c == sep then some ([], s) else none
]

-- A `:` before the first `@`.
pub has_credentials : Bytes → Bool
has_credentials s =
    let (user, rest) = span_to is_at s in elim rest [ [] ↦ false | _ ∷ _ ↦ has_any (58 ∷ []) user ]

-- `user@host:port`, with the port as an option.
pub with_port : Bytes → Bytes
with_port rest = elim (split_last 58 rest) [
  | none ↦ rest
  | some (front, port) ↦
      if not (has_any (64 ∷ []) rest) || has_any (64 ∷ []) front
      then front ++ codes " port=" ++ port
      else rest
]

-- The parameters between the `&`s; there is none behind a `&` at the end.
pub without_last_empty : List Bytes → List Bytes
without_last_empty [] = []
without_last_empty (p ∷ ps) =
    let rest = without_last_empty ps in
    elim ps [ [] ↦ if length p == 0 then [] else p ∷ [] | _ ∷ _ ↦ p ∷ rest ]

pub is_secret : Bytes → Bool
is_secret key =
    is_listed key (codes "password" ∷ codes "pass" ∷ codes "secret" ∷ codes "token" ∷ [])

pub renamed : Bytes → Bytes
renamed key = if equal key (codes "key") then codes "identity" else key

pub is_supported_query : Bytes → Bool
is_supported_query key = is_listed key (codes "identity" ∷ codes "san" ∷ codes "native_port" ∷ [])

-- A parameter that is no secret, `keys` being those seen: the option it becomes.
pub query_option : ℕ → List Bytes → Bytes → Bytes → Outcome (List Bytes × Bytes)
query_option number keys key value =
    if not (is_supported_query key)
    then malformed number (unsupported_query key)
    else if is_listed key keys
    then malformed number (duplicate_query key)
    else parsed (key ∷ keys, 32 ∷ key ++ 61 ∷ value)

pub parameter_with : ℕ → List Bytes → Bytes → Bytes → Outcome (List Bytes × Bytes)
parameter_with number keys key [] = malformed number invalid_query
parameter_with number keys key (_ ∷ value) =
    if (length key == 0) || (length value == 0)
    then malformed number invalid_query
    else if is_secret key
    then parsed (keys, [])
    else query_option number keys (renamed key) value

pub parameter_on : ℕ → List Bytes → Bytes → Outcome (List Bytes × Bytes)
parameter_on number keys parameter =
    let (key, rest) = span_to is_equals parameter in parameter_with number keys key rest

-- The loop over the parameters: the options they become.
pub query_on : ℕ → List Bytes → List Bytes → Outcome Bytes
query_on number keys [] = parsed []
query_on number keys (parameter ∷ parameters) = parameter_on number keys parameter >>= λ seen.
    query_on number seen.0 parameters >>= λ more. parsed (seen.1 ++ more)

pub url_on : ℕ → Bytes → Outcome Bytes
url_on number url =
    let (rest, asked) = span_to (λ c. c == 63) url in
    let query : Bytes = elim asked [ [] ↦ [] | _ ∷ q ↦ q ] in
    if has_credentials rest
    then malformed number embedded_credentials
    else query_on number [] (without_last_empty (pieces 38 query))
      >>= (λ options. parsed (with_port rest ++ options))

pub normalize : ℕ → Bytes → Outcome Bytes
normalize number line = elim (behind_prefix (codes "ssh://") line) [
  | some url ↦ url_on number url
  | none ↦ if has_credentials line then malformed number embedded_credentials else parsed line
]

abbrev pub all_header : Bytes
all_header = codes "[all]" ++ 10 ∷ []

-- The name of the one host of an entry.
pub single_name : ℕ → Hosts → Outcome Bytes
single_name number [] = malformed number not_one_host
single_name number (h ∷ []) = parsed h.name
single_name number (h ∷ g ∷ hosts) = malformed number not_one_host

-- An entry that is normalized: its host is a new one.
pub entry_name : ℕ → List Bytes → Bytes → Outcome Bytes
entry_name number imported normalized = parse (all_header ++ normalized ++ 10 ∷ []) >>= λ single.
    single_name number single >>= λ name.
    if is_listed name imported then malformed number (duplicate_host name) else parsed name

pub is_passed_over : Bytes → Bool
is_passed_over [] = true
is_passed_over (c ∷ s) = c == 35

-- The loop, `number` being the line before and `ini` the text so far.
pub import_lines : ℕ → List Bytes → List Bytes → Bytes → Outcome Bytes
import_lines number [] imported ini = parsed ini
import_lines number (raw ∷ lines) imported ini =
    let line = trim raw in
    let skipping = import_lines (suc number) lines imported ini in
    if is_passed_over line
    then skipping
    else normalize (suc number) line >>= (λ normalized.
      entry_name (suc number) imported normalized >>= (λ name.
        import_lines (suc number) lines (name ∷ imported) (ini ++ normalized ++ 10 ∷ [])))

pub import_clients_txt : Bytes → Outcome Hosts
import_clients_txt text = import_lines 0 (pieces 10 text) [] all_header >>= λ ini. parse ini
