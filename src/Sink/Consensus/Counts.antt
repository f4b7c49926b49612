-- ===== src/Sink/Consensus/Counts.antt =====
-- The sizes of the buckets of a consensus report, against the outputs of the hosts.
use pipe_shell_x.Base.{
  ℕ, suc, ◌+◌, ◌≡◌, ◌≤◌, refl, ap, ◌∙◌, inl, inr, [], ◌∷◌, ◌++◌, List, Bool, true, Bytes, length,
  ltb, if◌then◌else◌, arith, Bool-cases,
}
use pipe_shell_x.Text.{equal}
use pipe_shell_x.Text.Lists.{equal-≡}
use pipe_shell_x.Sink.Consensus.{
  Bucket, less, push_host, by_output, insert_host, sort_hosts, sorted, insert_bucket, rank,
  consensus, total, host_count,
}

-- The hosts in the buckets of an output that `p` holds of, and the hosts whose output it holds of.
pub size : (Bytes → Bool) → List Bucket → ℕ
size p [] = 0
size p (b ∷ buckets) =
    let rest = size p buckets in if p b.output then length b.hosts + rest else rest

pub votes : (Bytes → Bool) → List (Bytes × Bytes) → ℕ
votes p [] = 0
votes p ((host, output) ∷ outputs) =
    let rest = votes p outputs in if p output then suc rest else rest

pub HasAtMost : ℕ → List Bucket → Type 0
HasAtMost n [] = Unit
HasAtMost n (b ∷ buckets) = (length b.hosts ≤ n) × HasAtMost n buckets

-- No bucket is larger than one before it.
pub IsRanked : List Bucket → Type 0
IsRanked [] = Unit
IsRanked (b ∷ buckets) = HasAtMost (length b.hosts) buckets × IsRanked buckets

length-snoc : (hosts : List Bytes) (host : Bytes) → length (hosts ++ host ∷ []) ≡ suc (length hosts)
length-snoc [] host = refl
length-snoc (h ∷ hosts) host = ap suc (length-snoc hosts host)

size-push_host :
    (p : Bytes → Bool) (output host : Bytes) (buckets : List Bucket)
    → size p (push_host output host buckets)
      ≡ (if p output then suc (size p buckets) else size p buckets)
unfolding size push_host
size-push_host p output host [] = refl
size-push_host p output host (b ∷ buckets) = elim (Bool-cases (equal b.output output)) [
  | inl same ↦
      let there : p b.output ≡ p output = ap p (equal-≡ b.output output same) in
      elim (Bool-cases (p output)) [
        | inl holds ↦ rw (same, there, holds, length-snoc b.hosts host) (omega arith)
        | inr fails ↦ rw (same, there, fails) refl
      ]
  | inr differs ↦ elim (Bool-cases (less output b.output)) [
    | inl before ↦ elim (Bool-cases (p output)) [
      | inl holds ↦ rw (differs, before, holds) (omega arith)
      | inr fails ↦ rw (differs, before, fails) refl
    ]
    | inr behind ↦
        rw (differs, behind, size-push_host p output host buckets)
          (elim (Bool-cases (p output)) [
            | inl holds ↦ elim (Bool-cases (p b.output)) [
              | inl here ↦ rw (holds, here) (omega arith)
              | inr elsewhere ↦ rw (holds, elsewhere) refl
            ]
            | inr fails ↦ rw (fails) refl
          ])
  ]
]

size-by_output :
    (p : Bytes → Bool) (outputs : List (Bytes × Bytes)) (buckets : List Bucket)
    → size p (by_output outputs buckets) ≡ votes p outputs + size p buckets
unfolding by_output votes
size-by_output p [] buckets = omega arith
size-by_output p ((host, output) ∷ outputs) buckets =
    size-by_output p outputs (push_host output host buckets)
    ∙ ap (λ n. votes p outputs + n) (size-push_host p output host buckets)
    ∙ elim (Bool-cases (p output)) [
      | inl holds ↦ rw (holds) (omega arith)
      | inr fails ↦ rw (fails) refl
    ]

length-insert_host :
    (host : Bytes) (hosts : List Bytes) → length (insert_host host hosts) ≡ suc (length hosts)
unfolding insert_host
length-insert_host host [] = refl
length-insert_host host (h ∷ hosts) = elim (Bool-cases (less h host)) [
  | inl before ↦ rw (before) (ap suc (length-insert_host host hosts))
  | inr behind ↦ rw (behind) refl
]

length-sort_hosts : (hosts : List Bytes) → length (sort_hosts hosts) ≡ length hosts
unfolding sort_hosts
length-sort_hosts [] = refl
length-sort_hosts (h ∷ hosts) =
    length-insert_host h (sort_hosts hosts) ∙ ap suc (length-sort_hosts hosts)

size-sorted : (p : Bytes → Bool) (buckets : List Bucket) → size p (sorted buckets) ≡ size p buckets
unfolding size sorted
size-sorted p [] = refl
size-sorted p (b ∷ buckets) = rw (length-sort_hosts b.hosts, size-sorted p buckets) refl

size-insert_bucket :
    (p : Bytes → Bool) (b : Bucket) (buckets : List Bucket)
    → size p (insert_bucket b buckets) ≡ size p (b ∷ buckets)
unfolding size insert_bucket
size-insert_bucket p b [] = refl
size-insert_bucket p b (c ∷ buckets) = elim (Bool-cases (ltb (length b.hosts) (length c.hosts))) [
  | inr behind ↦ rw (behind) refl
  | inl before ↦
      rw (before, size-insert_bucket p b buckets)
        (elim (Bool-cases (p b.output)) [
          | inr fails ↦ rw (fails) refl
          | inl holds ↦ elim (Bool-cases (p c.output)) [
            | inl here ↦ rw (holds, here) (omega arith)
            | inr elsewhere ↦ rw (holds, elsewhere) refl
          ]
        ])
]

size-rank : (p : Bytes → Bool) (buckets : List Bucket) → size p (rank buckets) ≡ size p buckets
unfolding size rank
size-rank p [] = refl
size-rank p (b ∷ buckets) =
    size-insert_bucket p b (rank buckets)
    ∙ ap (λ n. if p b.output then length b.hosts + n else n) (size-rank p buckets)

HasAtMost-more :
    (m n : ℕ) (buckets : List Bucket) → m ≤ n → HasAtMost m buckets → HasAtMost n buckets
unfolding HasAtMost
HasAtMost-more m n [] le all = tt
HasAtMost-more m n (b ∷ buckets) le (first, all) = (omega arith, HasAtMost-more m n buckets le all)

insert_bucket-HasAtMost :
    (n : ℕ) (b : Bucket) (buckets : List Bucket)
    → length b.hosts ≤ n
    → HasAtMost n buckets
    → HasAtMost n (insert_bucket b buckets)
unfolding HasAtMost insert_bucket
insert_bucket-HasAtMost n b [] le all = (le, tt)
insert_bucket-HasAtMost n b (c ∷ buckets) le (first, all) =
    elim (Bool-cases (ltb (length b.hosts) (length c.hosts))) [
      | inl before ↦ rw (before) (first, insert_bucket-HasAtMost n b buckets le all)
      | inr behind ↦ rw (behind) (le, (first, all))
    ]

insert_bucket-IsRanked :
    (b : Bucket) (buckets : List Bucket) → IsRanked buckets → IsRanked (insert_bucket b buckets)
unfolding IsRanked HasAtMost insert_bucket
insert_bucket-IsRanked b [] ranked = (tt, tt)
insert_bucket-IsRanked b (c ∷ buckets) (all, ranked) =
    elim (Bool-cases (ltb (length b.hosts) (length c.hosts))) [
      | inl before ↦ rw (before) (
        insert_bucket-HasAtMost (length c.hosts) b buckets (ground arith) all,
        insert_bucket-IsRanked b buckets ranked,
      )
      | inr behind ↦
          let le : length c.hosts ≤ length b.hosts = ground arith in
          rw (behind)
            ((le, HasAtMost-more (length c.hosts) (length b.hosts) buckets le all), (all, ranked))
    ]

rank-IsRanked : (buckets : List Bucket) → IsRanked (rank buckets)
unfolding IsRanked rank
rank-IsRanked [] = tt
rank-IsRanked (b ∷ buckets) = insert_bucket-IsRanked b (rank buckets) (rank-IsRanked buckets)

total-size : (buckets : List Bucket) → total buckets ≡ size (λ output. true) buckets
unfolding total size
total-size [] = refl
total-size (b ∷ buckets) = ap (λ n. length b.hosts + n) (total-size buckets)

votes-length : (outputs : List (Bytes × Bytes)) → votes (λ output. true) outputs ≡ length outputs
unfolding votes
votes-length [] = refl
votes-length ((host, output) ∷ outputs) = ap suc (votes-length outputs)

-- For every test of an output, the buckets that it holds of have as many hosts as there are hosts whose
-- output it holds of; no bucket is larger than one before it; and every host is counted once.
pub consensus-IsRanked :
    (outputs : List (Bytes × Bytes))
    → ((p : Bytes → Bool) → size p (consensus outputs).buckets ≡ votes p outputs)
      × (IsRanked (consensus outputs).buckets)
      × (host_count (consensus outputs) ≡ length outputs)
unfolding consensus host_count size
consensus-IsRanked outputs =
    let grouped : List Bucket = by_output outputs [] in
    let counts : (p : Bytes → Bool) → size p (rank (sorted grouped)) ≡ votes p outputs = λ p.
      size-rank p (sorted grouped)
      ∙ size-sorted p grouped
      ∙ size-by_output p outputs []
      ∙ omega arith in
    (
      counts,
      rank-IsRanked (sorted grouped),
      total-size (rank (sorted grouped)) ∙ counts (λ output. true) ∙ votes-length outputs,
    )
