-- ===== src/Transport/Frame/Chunks.antt =====
-- How the transport cuts the byte stream into chunks makes no difference to the frames.
use pipe_shell_x.Base.{
  ℕ, ◌≡◌, refl, sym, ap, ◌∙◌, [], ◌∷◌, ◌++◌, List, true, false, Bytes, flatten, append_assoc,
  append-nil, Bool-cases, inl, inr,
}
use pipe_shell_x.Base.Errors.{Result, ok}
use pipe_shell_x.Transport.Frame.{
  Frame, incomplete, next_frame, Decoded, decode, FrameDecoder, create, push, feed,
}
use pipe_shell_x.Transport.Frame.Decode.{
  stopped, frames_then, decode_waits, decode-append, decode-append_refused, decode-rest,
}

-- A decoder that is not poisoned holds less than a frame.
abbrev pub IsSettled : FrameDecoder → Type 0
IsSettled d = d.failed ≡ false → next_frame d.max_payload d.buffer ≡ incomplete

pub create-IsSettled : (max : ℕ) → IsSettled (create max)
unfolding create next_frame
create-IsSettled max _ = refl

module _ (bytes : Bytes) (d : FrameDecoder) where
  push_poisoned : d.failed ≡ true → ((push bytes d).1 ≡ []) × ((push bytes d).2 ≡ d)
  unfolding push
  push_poisoned e = simp e (refl, refl)

  pub push_ok :
      d.failed ≡ false
      → (decode d.max_payload (d.buffer ++ bytes)).violation ≡ false
      → push bytes d ≡ (
        ok tt,
        (decode d.max_payload (d.buffer ++ bytes)).frames,
        record d { buffer = (decode d.max_payload (d.buffer ++ bytes)).rest },
      )
  unfolding push
  push_ok live fine = simp (live, fine) refl

  push_violation :
      d.failed ≡ false
      → (decode d.max_payload (d.buffer ++ bytes)).violation ≡ true
      → ((push bytes d).1 ≡ (decode d.max_payload (d.buffer ++ bytes)).frames)
        × ((push bytes d).2 ≡ record d { buffer = d.buffer ++ bytes; failed = true })
  unfolding push
  push_violation live bad = simp (live, bad) (refl, refl)

abbrev Pushed : Type 0
Pushed = Result (Unit {0}) × List Frame × FrameDecoder

true_ne_false : true ≡ false → ⊥
true_ne_false e = cc

-- A run of chunks and one push agree: on the frames, on whether the decoder is poisoned, and, if it is
-- not, on the decoder left.
pub record Agree (r : List Frame × FrameDecoder) (s : Result (Unit {0}) × List Frame × FrameDecoder)
    : Type 0 where
  pub frames : r.0 ≡ s.1
  pub failed : r.1.failed ≡ s.2.failed
  pub left : r.1.failed ≡ false → r.1 ≡ s.2

feed_poisoned :
    (chunks : List Bytes) (d : FrameDecoder) → d.failed ≡ true → (feed chunks d ≡ ([], d))
unfolding feed
feed_poisoned [] d e = refl
feed_poisoned (chunk ∷ chunks) d e =
    let (none_out, same) = push_poisoned chunk d e in
    rw (none_out, same, feed_poisoned chunks d e) refl

feed_one :
    (chunk : Bytes) (chunks : List Bytes) (d : FrameDecoder)
    → feed (chunk ∷ chunks) d
      ≡ ((push chunk d).1 ++ (feed chunks (push chunk d).2).0, (feed chunks (push chunk d).2).1)
unfolding feed
feed_one chunk chunks d = refl

module _ (chunk rest : Bytes) (d : FrameDecoder) (live : d.failed ≡ false) where
  -- The decoder behind a chunk that held no violation.
  abbrev behind_ok : FrameDecoder
  behind_ok = record d { buffer = (decode d.max_payload (d.buffer ++ chunk)).rest }

  -- Pushing the rest behind a chunk is pushing both.
  push_both :
      (decode d.max_payload (d.buffer ++ chunk)).violation ≡ false
      → decode d.max_payload (d.buffer ++ (chunk ++ rest))
        ≡ frames_then d.max_payload
            (decode d.max_payload (d.buffer ++ chunk)).frames
            (decode d.max_payload (behind_ok.buffer ++ rest))
  push_both fine =
      ap (decode d.max_payload) (sym (append_assoc d.buffer chunk rest))
      ∙ decode-append d.max_payload (d.buffer ++ chunk) rest fine

  Agree-ok :
      (r : List Frame × FrameDecoder)
      → (decode d.max_payload (d.buffer ++ chunk)).violation ≡ false
      → Agree r (push rest behind_ok)
      → Agree
          ((decode d.max_payload (d.buffer ++ chunk)).frames ++ r.0, r.1)
          (push (chunk ++ rest) d)
  Agree-ok r fine a =
      elim (Bool-cases (decode d.max_payload (behind_ok.buffer ++ rest)).violation) [
        | inl bad ↦
            let (fs, e) = push_violation rest behind_ok live bad in
            let (gs, f) =
              push_violation (chunk ++ rest) d live
                (ap (λ (o : Decoded). o.violation) (push_both fine) ∙ bad) in
            let poisoned : r.1.failed ≡ true = a.failed ∙ ap (λ (x : FrameDecoder). x.failed) e in
            record {
              frames =
                  ap (λ w. (decode d.max_payload (d.buffer ++ chunk)).frames ++ w) (a.frames ∙ fs)
                  ∙ ap (λ (o : Decoded). o.frames) (sym (push_both fine))
                  ∙ sym gs;
              failed = poisoned ∙ sym (ap (λ (x : FrameDecoder). x.failed) f);
              left = λ alive. absurd (true_ne_false (sym poisoned ∙ alive));
            }
        | inr fine' ↦
            let p = push_ok rest behind_ok live fine' in
            let q =
              push_ok (chunk ++ rest) d live
                (ap (λ (o : Decoded). o.violation) (push_both fine) ∙ fine') in
            record {
              frames =
                  ap (λ w. (decode d.max_payload (d.buffer ++ chunk)).frames ++ w)
                    (a.frames ∙ ap (λ (x : Pushed). x.1) p)
                  ∙ ap (λ (o : Decoded). o.frames) (sym (push_both fine))
                  ∙ sym (ap (λ (x : Pushed). x.1) q);
              failed =
                  a.failed
                  ∙ ap (λ (x : Pushed). x.2.failed) p
                  ∙ sym (ap (λ (x : Pushed). x.2.failed) q);
              left = λ alive.
                  a.left alive
                  ∙ ap (λ (x : Pushed). x.2) p
                  ∙ ap (λ (o : Decoded). record d { buffer = o.rest }) (sym (push_both fine))
                  ∙ sym (ap (λ (x : Pushed). x.2) q);
            }
      ]

  -- A violation in the chunk poisons the decoder, whatever comes behind.
  Agree-violation :
      (decode d.max_payload (d.buffer ++ chunk)).violation ≡ true
      → Agree ((push chunk d).1 ++ [], (push chunk d).2) (push (chunk ++ rest) d)
  Agree-violation bad =
      let (fs, e) = push_violation chunk d live bad in
      let (v, same) = decode-append_refused d.max_payload (d.buffer ++ chunk) rest bad in
      let whole : decode d.max_payload (d.buffer ++ (chunk ++ rest))
          ≡ decode d.max_payload ((d.buffer ++ chunk) ++ rest) =
        ap (decode d.max_payload) (sym (append_assoc d.buffer chunk rest)) in
      let (gs, f) =
        push_violation (chunk ++ rest) d live (ap (λ (o : Decoded). o.violation) whole ∙ v) in
      record {
        frames =
            append-nil (push chunk d).1
            ∙ fs
            ∙ sym same
            ∙ ap (λ (o : Decoded). o.frames) (sym whole)
            ∙ sym gs;
        failed =
            ap (λ (x : FrameDecoder). x.failed) e ∙ sym (ap (λ (x : FrameDecoder). x.failed) f);
        left =
            λ alive. absurd (true_ne_false (sym (ap (λ (x : FrameDecoder). x.failed) e) ∙ alive));
      }

poisoned-Agree :
    (chunks : List Bytes) (d : FrameDecoder)
    → d.failed ≡ true
    → Agree (feed chunks d) (push (flatten chunks) d)
poisoned-Agree chunks d e =
    let (none_out, same) = push_poisoned (flatten chunks) d e in
    rw (feed_poisoned chunks d e) (record {
      frames = sym none_out;
      failed = ap (λ (x : FrameDecoder). x.failed) (sym same);
      left = λ alive. sym same;
    })

settled_nothing : (d : FrameDecoder) → IsSettled d → d.failed ≡ false → push [] d ≡ (ok tt, [], d)
settled_nothing d s live =
    let idle : decode d.max_payload (d.buffer ++ []) ≡ stopped false d.buffer =
      ap (decode d.max_payload) (append-nil d.buffer)
      ∙ decode_waits d.max_payload d.buffer (s live) in
    push_ok [] d live (ap (λ (o : Decoded). o.violation) idle)
    ∙ ap (λ (o : Decoded). (ok tt, o.frames, record d { buffer = o.rest })) idle

-- Chunks that arrive one by one give the sink the frames of the whole, and poison the decoder if and
-- only if the whole does; if they do not, they leave the same decoder.
pub feed-flatten :
    (chunks : List Bytes) (d : FrameDecoder)
    → IsSettled d
    → Agree (feed chunks d) (push (flatten chunks) d)
unfolding feed
feed-flatten [] d s = elim (Bool-cases d.failed) [
  | inl e ↦ poisoned-Agree [] d e
  | inr live ↦
      rw (settled_nothing d s live) (record { frames = refl; failed = refl; left = λ alive. refl })
]
feed-flatten (chunk ∷ chunks) d s = elim (Bool-cases d.failed) [
  | inl e ↦ poisoned-Agree (chunk ∷ chunks) d e
  | inr live ↦ elim (Bool-cases (decode d.max_payload (d.buffer ++ chunk)).violation) [
    | inl bad ↦
        let poisoned = ap (λ (x : FrameDecoder). x.failed) (push_violation chunk d live bad).1 in
        rw (feed_poisoned chunks (push chunk d).2 poisoned)
          (Agree-violation chunk (flatten chunks) d live bad)
    | inr fine ↦ rw (push_ok chunk d live fine) (
        Agree-ok chunk (flatten chunks) d live
          (feed chunks (behind_ok chunk (flatten chunks) d live)) fine
          (feed-flatten chunks (behind_ok chunk (flatten chunks) d live)
            (λ _. decode-rest d.max_payload (d.buffer ++ chunk) fine)))
  ]
]
