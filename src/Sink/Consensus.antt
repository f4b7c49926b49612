-- ===== src/Sink/Consensus.antt =====
-- src/sink/consensus.cpp: `consensus`. `std::map` is the list of its entries in the order of their keys.
pub mod Counts
mod Tests
use pipe_shell_x.Base.{
  ℕ, zero, suc, ◌+◌, [], ◌∷◌, ◌++◌, List, Bool, true, false, Bytes, length, ltb, ◌==◌,
  if◌then◌else◌,
}
use pipe_shell_x.Text.{equal}

-- `ConsensusReport::Bucket`
pub record Bucket : Type 0 where
  pub output : Bytes
  pub hosts : List Bytes

pub record ConsensusReport : Type 0 where
  pub buckets : List Bucket

-- The order of `std::string`.
pub less : Bytes → Bytes → Bool
less [] [] = false
less [] (b ∷ y) = true
less (a ∷ x) [] = false
less (a ∷ x) (b ∷ y) = let rest = less x y in if a == b then rest else ltb a b

-- `byOutput[output].push_back(host)`
pub push_host : Bytes → Bytes → List Bucket → List Bucket
push_host output host [] = record { output = output; hosts = host ∷ [] } ∷ []
push_host output host (b ∷ buckets) =
    let rest = push_host output host buckets in
    if equal b.output output
    then record b { hosts = b.hosts ++ host ∷ [] } ∷ buckets
    else if less output b.output
    then record { output = output; hosts = host ∷ [] } ∷ (b ∷ buckets)
    else b ∷ rest

pub by_output : List (Bytes × Bytes) → List Bucket → List Bucket
by_output [] buckets = buckets
by_output ((host, output) ∷ outputs) buckets = by_output outputs (push_host output host buckets)

-- `std::sort` on the hosts of a bucket
pub insert_host : Bytes → List Bytes → List Bytes
insert_host host [] = host ∷ []
insert_host host (h ∷ hosts) =
    let rest = insert_host host hosts in if less h host then h ∷ rest else host ∷ (h ∷ hosts)

pub sort_hosts : List Bytes → List Bytes
sort_hosts [] = []
sort_hosts (h ∷ hosts) = insert_host h (sort_hosts hosts)

pub sorted : List Bucket → List Bucket
sorted [] = []
sorted (b ∷ buckets) = record b { hosts = sort_hosts b.hosts } ∷ sorted buckets

-- `std::stable_sort` by size, the largest first
pub insert_bucket : Bucket → List Bucket → List Bucket
insert_bucket b [] = b ∷ []
insert_bucket b (c ∷ buckets) =
    let rest = insert_bucket b buckets in
    if ltb (length b.hosts) (length c.hosts) then c ∷ rest else b ∷ (c ∷ buckets)

pub rank : List Bucket → List Bucket
rank [] = []
rank (b ∷ buckets) = insert_bucket b (rank buckets)

pub consensus : List (Bytes × Bytes) → ConsensusReport
consensus outputs = record { buckets = rank (sorted (by_output outputs [])) }

pub total : List Bucket → ℕ
total [] = 0
total (b ∷ buckets) = length b.hosts + total buckets

pub host_count : ConsensusReport → ℕ
host_count report = total report.buckets
