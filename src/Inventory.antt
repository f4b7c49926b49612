-- ===== src/Inventory.antt =====
-- include/psx/inventory/inventory.hpp and src/inventory/inventory.cpp: the hosts of a run. A text is the
-- list of its bytes. What is thrown is `malformed` with the line and what its message names.
pub mod Parse
pub mod Import
pub mod Select
pub mod Unique
pub mod Valid
use pipe_shell_x.Base.{
  ℕ, zero, suc, ◌+◌, ◌*◌, ◌-◌, ◌^◌, [], ◌∷◌, ◌++◌, List, Option, none, some, Bool, true, false, not,
  ◌&&◌, ◌||◌, Bytes, codes, length, leb, ltb, ◌==◌, if◌then◌else◌,
}
use pipe_shell_x.Text.{is_one_of, equal, trim_by, is_listed}

pub record Host : Type 0 where
  pub name : Bytes
  pub user : Bytes
  pub host : Bytes
  pub port : ℕ
  pub identity : Bytes
  pub transport : Bytes
  pub san : Bytes
  pub native_port : ℕ
  pub groups : List Bytes
  pub tags : List Bytes

-- `inventory.hosts_`, in order; the source path is only kept for display.
abbrev pub Hosts : Type 0
Hosts = List Host

pub data Problem : Type 0 where
  unterminated_section expected_default : Problem
  unknown_default host_before_group expected_option bad_transport unknown_option invalid_port :
      Bytes → Problem
  embedded_credentials invalid_query not_one_host : Problem
  unsupported_query duplicate_query duplicate_host : Bytes → Problem

pub data Outcome {ℓ} (A : Type ℓ) : Type ℓ where
  malformed : ℕ → Problem → Outcome A
  parsed : A → Outcome A

infixl 5 ◌>>=◌
-- An exception leaves its function.
abbrev pub ◌>>=◌ {ℓ κ} : {A : Type ℓ} {B : Type κ} → Outcome A → (A → Outcome B) → Outcome B
malformed line problem >>= next = malformed line problem
parsed a >>= next = next a

pub is_blank : ℕ → Bool
is_blank c = is_one_of (32 ∷ 9 ∷ 13 ∷ 10 ∷ []) c

pub trim : Bytes → Bytes
trim s = trim_by is_blank s

pub is_space : ℕ → Bool
is_space c = (c == 32) || (c == 9)

-- `stripComment`: whether a byte that starts a comment may stand here, and the text from here on.
pub strip_from : Bool → Bytes → Bytes
strip_from may_start [] = []
strip_from may_start (c ∷ line) =
    let rest = strip_from (is_space c) line in
    if ((c == 35) || (c == 59)) && may_start then [] else c ∷ rest

pub strip_comment : Bytes → Bytes
strip_comment line = strip_from true line

-- `splitWhitespace`: the token that the first byte would extend, and the tokens behind it.
pub tokens_after : Bytes → Bytes × List Bytes
tokens_after [] = ([], [])
tokens_after (c ∷ s) =
    let (token, tokens) = tokens_after s in
    if not (is_space c)
    then (c ∷ token, tokens)
    else if length token == 0
    then ([], tokens)
    else ([], token ∷ tokens)

pub split_whitespace : Bytes → List Bytes
split_whitespace s =
    let (token, tokens) = tokens_after s in if length token == 0 then tokens else token ∷ tokens

-- `std::from_chars` on all of the text, for an `unsigned int`.
pub unsigned_from : ℕ → Bytes → Option ℕ
unsigned_from value [] = some value
unsigned_from value (c ∷ s) =
    let next = value * 10 + (c - 48) in
    let rest = unsigned_from next s in
    if (leb 48 c && leb c 57) && ltb next (2 ^ 32) then rest else none

pub unsigned_of : Bytes → Option ℕ
unsigned_of [] = none
unsigned_of (c ∷ s) = unsigned_from 0 (c ∷ s)

-- The port of the number that the text is, if it is one.
pub port_of : Bytes → ℕ → Option ℕ → Outcome ℕ
port_of value line none = malformed line (invalid_port value)
port_of value line (some port) =
    if (port == 0) || ltb 65535 port then malformed line (invalid_port value) else parsed port

pub parse_port : Bytes → ℕ → Outcome ℕ
parse_port value line = port_of value line (unsigned_of value)

pub add_unique : List Bytes → Bytes → List Bytes
add_unique list value = if is_listed value list then list else list ++ value ∷ []

abbrev pub ssh : Bytes
ssh = codes "ssh"

abbrev pub native : Bytes
native = codes "native"

pub is_supported_transport : Bytes → Bool
is_supported_transport value = equal value ssh || equal value native

-- `Host host; host.name = name; host.host = name;`
pub new_host : Bytes → Host
new_host name = record {
  name = name;
  user = [];
  host = name;
  port = 22;
  identity = [];
  transport = ssh;
  san = [];
  native_port = 0;
  groups = [];
  tags = [];
}

-- `Inventory::upsert`, with what its caller does through the reference it returns.
pub upsert : Bytes → (Host → Outcome Host) → Hosts → Outcome Hosts
upsert name change [] = change (new_host name) >>= λ entry. parsed (entry ∷ [])
upsert name change (h ∷ hosts) =
    let rest = upsert name change hosts in
    if equal h.name name
    then change h >>= (λ entry. parsed (entry ∷ hosts))
    else rest >>= (λ hosts'. parsed (h ∷ hosts'))
