-- ===== src/Stream/Channel/Writes.antt =====
-- What a spooling channel accepts stands behind all that it holds.
use pipe_shell_x.Base.{
  ℕ, ◌+◌, ◌-◌, ◌^◌, ◌≡◌, ◌≤◌, ◌<◌, refl, sym, ap, ap₂, ◌∙◌, inl, inr, [], ◌++◌, true, false, Bytes,
  length, take, drop, min, ◌==◌, if◌then◌else◌, arith, Bool-cases, append-nil, append_assoc,
  length-drop, take-all, take-append-drop, take-append_right, take-min,
}
use pipe_shell_x.Stream.Buffer
use pipe_shell_x.Stream.Buffer.Valid.{contents, length-contents}
use pipe_shell_x.Stream.Buffer.Append.Spec.{kept_by, accepted_by}
use pipe_shell_x.Stream.Buffer.Append.Refines.{append-Appended}
use pipe_shell_x.Stream.Spool
use pipe_shell_x.Stream.Spool.{Stdio}
use pipe_shell_x.Stream.Spool.Laws.{Keeps, unread, spool_append-Spooled}
use pipe_shell_x.Stream.Channel.{
  Stream, write, is_live, is_spool, append_spool, append_both, append_behind,
}
use pipe_shell_x.Stream.Channel.Reads.{IsValid, pending, unread-empty}

-- A write that accepts the front of `bytes`.
pub record Accepted (bytes : Bytes) (s : Stream) (r : ℕ × Stream) : Type 0 where
  pub queue : pending r.1 ≡ pending s ++ take r.0 bytes
  pub within : r.0 ≤ length bytes
  pub valid : IsValid r.1

-- The front of the new bytes that fits a spooling buffer of `cap` bytes with `q`.
take_fitting :
    (cap : ℕ) (q bytes : Bytes)
    → length q ≤ cap
    → take cap (q ++ bytes) ≡ q ++ take (min (length bytes) (cap - length q)) bytes
take_fitting cap q bytes h =
    take-append_right cap q bytes h ∙ ap (λ w. q ++ w) (sym (take-min (cap - length q) bytes))

is_spool-spool : is_spool Buffer.spool ≡ true
unfolding is_spool
is_spool-spool = refl

module _ (io : Stdio) (keeps : Keeps io) (bytes : Bytes) (s : Stream) (v : IsValid s)
    (fits : s.spool.size + length bytes < 2 ^ 63) where
  append_behind-Accepted : Accepted bytes s (append_behind io bytes s)
  unfolding append_behind
  append_behind-Accepted =
      let a = spool_append-Spooled io keeps bytes s.spool v.spool fits in
      let (ok, file) = Spool.append io bytes s.spool in
      elim (Bool-cases ok) [
        | inl taken ↦
            let grown : unread file ≡ unread s.spool ++ bytes =
              a.queue ∙ ap (λ k. if k then unread s.spool ++ bytes else unread s.spool) taken in
            simp taken (record {
              queue =
                  ap (λ w. contents s.buffer ++ w)
                    (grown
                      ∙ ap (λ w. unread s.spool ++ w)
                          (sym (take-all (length bytes) bytes (omega arith))))
                  ∙ sym (
                      append_assoc (contents s.buffer) (unread s.spool)
                        (take (length bytes) bytes));
              within = omega arith;
              valid = record { buffer = v.buffer; spool = a.valid; spools = v.spools };
            })
        | inr lost ↦
            let same : unread file ≡ unread s.spool =
              a.queue ∙ ap (λ k. if k then unread s.spool ++ bytes else unread s.spool) lost in
            simp lost (record {
              queue = ap (λ w. contents s.buffer ++ w) same ∙ sym (append-nil (pending s));
              within = omega arith;
              valid = record { buffer = v.buffer; spool = a.valid; spools = v.spools };
            })
      ]

  append_both-Accepted : Spool.is_empty s.spool ≡ true → Accepted bytes s (append_both io bytes s)
  unfolding append_both
  append_both-Accepted e =
      let accepted = (Buffer.append bytes s.buffer).0 in
      let a = append-Appended s.buffer bytes v.buffer (omega arith) in
      let count : accepted ≡ min (length bytes) (s.buffer.capacity - length (contents s.buffer)) =
        a.count ∙ ap (λ p. accepted_by p s.buffer.capacity (contents s.buffer) bytes) v.spools in
      let kept : contents (Buffer.append bytes s.buffer).1
          ≡ contents s.buffer ++ take accepted bytes =
        a.kept
        ∙ ap (λ p. kept_by p s.buffer.capacity (contents s.buffer) bytes) v.spools
        ∙ take_fitting s.buffer.capacity (contents s.buffer) bytes
            (omega (arith, length-contents s.buffer, v.buffer.size_in))
        ∙ ap (λ k. contents s.buffer ++ take k bytes) (sym count) in
      let bare : unread s.spool ≡ [] = unread-empty s.spool v.spool e in
      let spilled =
        spool_append-Spooled io keeps (drop accepted bytes) s.spool v.spool
          (omega (arith, length-drop accepted bytes)) in
      let spools = a.same_policy ∙ v.spools in
      let before : contents s.buffer ≡ pending s =
        sym (ap (λ w. contents s.buffer ++ w) bare ∙ append-nil (contents s.buffer)) in
      elim (Bool-cases (accepted == length bytes)) [
        | inl all ↦ simp all (record {
          queue =
              ap₂ (λ w u. w ++ u) kept bare
              ∙ append-nil (contents s.buffer ++ take accepted bytes)
              ∙ ap (λ w. w ++ take accepted bytes) before;
          within = omega (arith, count);
          valid = record { buffer = a.valid; spool = v.spool; spools = spools };
        })
        | inr part ↦ elim (Bool-cases (Spool.append io (drop accepted bytes) s.spool).0) [
          | inl taken ↦
              let grown : unread (Spool.append io (drop accepted bytes) s.spool).1
                  ≡ drop accepted bytes =
                spilled.queue
                ∙ ap (λ k. if k then unread s.spool ++ drop accepted bytes else unread s.spool)
                    taken
                ∙ ap (λ w. w ++ drop accepted bytes) bare in
              simp (part, taken)
                (record {
                  queue =
                      ap₂ (λ w u. w ++ u) kept grown
                      ∙ append_assoc (contents s.buffer) (take accepted bytes) (drop accepted bytes)
                      ∙ ap₂ (λ w u. w ++ u) before
                          (take-append-drop accepted bytes
                            ∙ sym (take-all (length bytes) bytes (omega arith)));
                  within = omega arith;
                  valid = record { buffer = a.valid; spool = spilled.valid; spools = spools };
                })
          | inr lost ↦
              let same : unread (Spool.append io (drop accepted bytes) s.spool).1 ≡ [] =
                spilled.queue
                ∙ ap (λ k. if k then unread s.spool ++ drop accepted bytes else unread s.spool) lost
                ∙ bare in
              simp (part, lost)
                (record {
                  queue =
                      ap₂ (λ w u. w ++ u) kept same
                      ∙ append-nil (contents s.buffer ++ take accepted bytes)
                      ∙ ap (λ w. w ++ take accepted bytes) before;
                  within = omega (arith, count);
                  valid = record { buffer = a.valid; spool = spilled.valid; spools = spools };
                })
        ]
      ]

  pub append_spool-Accepted : Accepted bytes s (append_spool io bytes s)
  unfolding append_spool
  append_spool-Accepted = elim (Bool-cases (length bytes == 0)) [
    | inl nothing ↦
        simp nothing
          (record { queue = sym (append-nil (pending s)); within = omega arith; valid = v })
    | inr some_bytes ↦ elim (Bool-cases (Spool.is_empty s.spool)) [
      | inl e ↦ simp (some_bytes, e) (append_both-Accepted e)
      | inr behind ↦ simp (some_bytes, behind) append_behind-Accepted
    ]
  ]

  written-Accepted : Accepted bytes s (write io bytes s)
  unfolding write
  written-Accepted = elim (Bool-cases (is_live s.state)) [
    | inl going ↦
        let spooling : is_spool s.buffer.policy ≡ true = ap is_spool v.spools ∙ is_spool-spool in
        simp (going, spooling) append_spool-Accepted
    | inr done ↦
        simp done (record { queue = sym (append-nil (pending s)); within = omega arith; valid = v })
  ]

  -- Where a call on the spill file that fails loses none of its bytes, the bytes that a spooling channel
  -- accepts stand in order behind all that it holds; a channel that is not open accepts none and stays as
  -- it is.
  pub write-Accepted :
      Accepted bytes s (write io bytes s) × (is_live s.state ≡ false → write io bytes s ≡ (0, s))
  unfolding write
  write-Accepted = (written-Accepted, λ done. simp done refl)
