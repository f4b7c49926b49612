-- ===== src/Inventory/Select.antt =====
-- Selections of hosts, and the changes of the `hosts` commands.
pub mod Changes
pub mod Found
pub mod Groups
mod Tests
use pipe_shell_x.Base.{
  ℕ, zero, suc, [], ◌∷◌, ◌++◌, List, Option, none, some, Bool, true, false, not, ◌&&◌, ◌||◌, Bytes,
  codes, length, ◌==◌, if◌then◌else◌,
}
use pipe_shell_x.Text.{equal, is_listed}
use pipe_shell_x.Pipeline.Parser.{digits}
use pipe_shell_x.Inventory.{Host, Hosts, add_unique, is_supported_transport}

pub select_group : Bytes → Hosts → Hosts
select_group group [] = []
select_group group (h ∷ hosts) =
    let out = select_group group hosts in if is_listed group h.groups then h ∷ out else out

pub select_tag : Bytes → Hosts → Hosts
select_tag tag [] = []
select_tag tag (h ∷ hosts) =
    let out = select_tag tag hosts in if is_listed tag h.tags then h ∷ out else out

-- The test of `selectHosts` and `remove`.
pub answers_to : Bytes → Host → Bool
answers_to name h = equal h.name name || equal h.host name

pub find_host : Bytes → Hosts → Option Host
find_host name [] = none
find_host name (h ∷ hosts) =
    let rest = find_host name hosts in if answers_to name h then some h else rest

pub data Change {ℓ} (A : Type ℓ) : Type ℓ where
  no_such_host already_exists bad_transport : Bytes → Change A
  empty_name : Change A
  done : A → Change A

pub onto_found : Bytes → Option Host → Change Hosts → Change Hosts
onto_found name none rest = no_such_host name
onto_found name (some h) (done out) = done (h ∷ out)
onto_found name (some h) failed = failed

-- `selectHosts`
pub select_hosts : List Bytes → Hosts → Change Hosts
select_hosts [] hosts = done []
select_hosts (name ∷ names) hosts =
    onto_found name (find_host name hosts) (select_hosts names hosts)

pub add_all : List Bytes → List Bytes → List Bytes
add_all out [] = out
add_all out (value ∷ values) = add_all (add_unique out value) values

-- The loop of `groups`, and of `tags`.
pub groups_from : List Bytes → Hosts → List Bytes
groups_from out [] = out
groups_from out (h ∷ hosts) = groups_from (add_all out h.groups) hosts

pub groups : Hosts → List Bytes
groups hosts = groups_from [] hosts

pub tags_from : List Bytes → Hosts → List Bytes
tags_from out [] = out
tags_from out (h ∷ hosts) = tags_from (add_all out h.tags) hosts

pub tags : Hosts → List Bytes
tags hosts = tags_from [] hosts

-- The loop of `join`.
pub join_onto : Bytes → List Bytes → Bytes
join_onto result [] = result
join_onto result (value ∷ values) =
    join_onto ((if length result == 0 then [] else result ++ 44 ∷ []) ++ value) values

pub join : List Bytes → Bytes
join values = join_onto [] values

pub when_filled : Bytes → Bytes → Bytes
when_filled key value = if length value == 0 then [] else key ++ value

-- A line of `serialize`.
pub write_host : Host → Bytes
write_host h =
    (if length h.user == 0 then [] else h.user ++ 64 ∷ [])
    ++ h.host
    ++ codes " transport="
    ++ h.transport
    ++ (if h.port == 22 then [] else codes " port=" ++ digits (suc h.port) h.port)
    ++ when_filled (codes " identity=") h.identity
    ++ (if length h.tags == 0 then [] else codes " tag=" ++ join h.tags)
    ++ when_filled (codes " san=") h.san
    ++ (if h.native_port == 0
        then []
        else codes " native_port=" ++ digits (suc h.native_port) h.native_port)
    ++ 10 ∷ []

pub write_hosts : Hosts → Bytes
write_hosts [] = []
write_hosts (h ∷ hosts) = write_host h ++ write_hosts hosts

pub write_groups : List Bytes → Hosts → Bytes
write_groups [] hosts = []
write_groups (group ∷ more) hosts =
    91 ∷ group
    ++ 93 ∷ 10 ∷ write_hosts (select_group group hosts)
    ++ elim more [ [] ↦ [] | _ ∷ _ ↦ 10 ∷ [] ]
    ++ write_groups more hosts

pub serialize : Hosts → Bytes
serialize hosts = write_groups (groups hosts) hosts

pub is_taken : Host → Hosts → Bool
is_taken host [] = false
is_taken host (h ∷ hosts) =
    (equal h.name host.name || equal h.host host.host) || is_taken host hosts

pub in_a_group : Host → Host
in_a_group host = record host {
  groups = if length host.groups == 0 then codes "all" ∷ [] else host.groups;
}

pub add : Host → Hosts → Change Hosts
add host hosts =
    if (length host.name == 0) || (length host.host == 0)
    then empty_name
    else if not (is_supported_transport host.transport)
    then bad_transport host.transport
    else if is_taken host hosts
    then already_exists host.name
    else done (hosts ++ in_a_group host ∷ [])

-- Whether a host was found, and the hosts without it.
pub remove : Bytes → Hosts → Bool × Hosts
remove name [] = (false, [])
remove name (h ∷ hosts) =
    let (found, rest) = remove name hosts in
    if answers_to name h then (true, hosts) else (found, h ∷ rest)
