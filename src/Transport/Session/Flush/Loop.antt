-- ===== src/Transport/Session/Flush/Loop.antt =====
-- The flush loop: the queued bytes go out in order, on their channels, as far as credit allows.
use pipe_shell_x.Base.{
  ℕ, zero, suc, ◌+◌, ◌-◌, ◌^◌, ◌≡◌, ◌⊎◌, inl, inr, ◌≤◌, ◌<◌, refl, sym, ap, ◌∙◌, ◌∷◌, ◌++◌, [],
  List, Bool, true, false, Bytes, length, take, drop, min, ltb, ◌==◌, if◌then◌else◌, arith,
  length-append, length-take, append_assoc, take-append-drop, take-all, Bool-cases,
}
use pipe_shell_x.Transport.Frame.{Frame}
use pipe_shell_x.Transport.Session.State.{Channel, stdout, stderr, Segment, Stream}
use pipe_shell_x.Transport.Session.Flush.{
  channel_flag, data_flags, frame_of, flush_round, flush_loop, flush_data, frame_before,
}
use pipe_shell_x.Transport.Session.Flush.Tagged.{
  tag, tagged_queue, channel_of, tagged_frames, payload_total, tag-append, length-tag,
}

channel_of-data_flags :
    (id : ℕ) (c : Channel) (last : Bool) (payload : Bytes)
    → channel_of (frame_of id (data_flags c last) payload) ≡ c
unfolding channel_of frame_of data_flags channel_flag
channel_of-data_flags id stdout true payload = refl
channel_of-data_flags id stdout false payload = refl
channel_of-data_flags id stderr true payload = refl
channel_of-data_flags id stderr false payload = refl

-- What a run of the loop owes to the stream that it started from.
pub record Flushed (queue : List Segment) (st : Stream) (out : List Frame × Stream) : Type 0 where
  pub in_order : tagged_frames out.0 ++ tagged_queue out.1.send_queue ≡ tagged_queue queue
  pub paid : payload_total out.0 + out.1.send_credit ≡ st.send_credit
  pub counted : out.1.send_bytes + payload_total out.0 ≡ st.send_bytes
  pub same_exit : out.1.exit_pending ≡ st.exit_pending
  pub same_window : out.1.recv_window ≡ st.recv_window

-- A round sends the front of the queue and pays for it, and leaves the rest.
record Round (id : ℕ) (front : Segment) (rest : List Segment) (st : Stream) : Type 0 where
  in_order :
      tag (channel_of (flush_round id front rest st).0) (flush_round id front rest st).0.payload
        ++ tagged_queue (flush_round id front rest st).1.send_queue
      ≡ tagged_queue (front ∷ rest)
  size : length (flush_round id front rest st).0.payload ≡ min (length front.bytes) st.send_credit
  paid :
      (flush_round id front rest st).1.send_credit
      ≡ st.send_credit - min (length front.bytes) st.send_credit
  counted :
      (flush_round id front rest st).1.send_bytes
      ≡ st.send_bytes - min (length front.bytes) st.send_credit
  shorter :
      ((flush_round id front rest st).1.send_queue ≡ rest)
      ⊎ ((flush_round id front rest st).1.send_credit ≡ 0)

module _ (id : ℕ) (front : Segment) (rest : List Segment) (st : Stream) where
  abbrev chunk : ℕ
  chunk = min (length front.bytes) st.send_credit

  abbrev left_queue : List Segment
  left_queue =
      if chunk == length front.bytes
      then rest
      else record front { bytes = drop chunk front.bytes } ∷ rest

  left_in_order :
      tag front.channel (take chunk front.bytes) ++ tagged_queue left_queue
      ≡ tagged_queue (front ∷ rest)
  unfolding tagged_queue
  left_in_order = elim (Bool-cases (chunk == length front.bytes)) [
    | inl all ↦ rw all (
        ap (λ w. tag front.channel w ++ tagged_queue rest)
          (take-all chunk front.bytes (ground arith)))
    | inr part ↦ rw part (
        sym (
          append_assoc (tag front.channel (take chunk front.bytes))
            (tag front.channel (drop chunk front.bytes)) (tagged_queue rest))
        ∙ ap (λ w. w ++ tagged_queue rest)
            (sym (tag-append front.channel (take chunk front.bytes) (drop chunk front.bytes))
              ∙ ap (tag front.channel) (take-append-drop chunk front.bytes)))
  ]

  flush_round-Round :
      st.send_credit < 2 ^ 32
      → st.send_bytes < 2 ^ 64
      → length front.bytes ≤ st.send_bytes
      → Round id front rest st
  unfolding flush_round frame_of
  flush_round-Round word wide fits = record {
    in_order =
        ap (λ c. tag c (take chunk front.bytes) ++ tagged_queue left_queue)
          (channel_of-data_flags id front.channel _ (take chunk front.bytes))
        ∙ left_in_order;
    size = length-take chunk front.bytes ∙ omega arith;
    paid = omega arith;
    counted = omega arith;
    shorter = elim (Bool-cases (chunk == length front.bytes)) [
      | inl all ↦ inl (rw all refl)
      | inr part ↦ inr (ground arith)
    ];
  }

-- The queue's bytes are those that `sendBytes` counts, and the counters are as wide as their types.
pub record IsCounted (queue : List Segment) (st : Stream) : Type 0 where
  pub queue_is : st.send_queue ≡ queue
  pub total : st.send_bytes ≡ length (tagged_queue queue)
  pub wide : st.send_bytes < 2 ^ 64
  pub word : st.send_credit < 2 ^ 32

-- The loop's condition fails.
pub IsOver : List Frame × Stream → Type 0
IsOver out = (out.1.send_queue ≡ []) ⊎ (out.1.send_credit ≡ 0)

module _ (id : ℕ) where
  stop-Flushed :
      (queue : List Segment) (st : Stream) → IsCounted queue st → Flushed queue st ([], st)
  unfolding tagged_frames payload_total
  stop-Flushed queue st c = record {
    in_order = ap tagged_queue c.queue_is;
    paid = omega arith;
    counted = omega arith;
    same_exit = refl;
    same_window = refl;
  }

  round-IsCounted :
      (front : Segment) (rest : List Segment) (st : Stream)
      → IsCounted (front ∷ rest) st
      → Round id front rest st
        × IsCounted (flush_round id front rest st).1.send_queue (flush_round id front rest st).1
  unfolding tagged_queue
  round-IsCounted front rest st c =
      let fits : length front.bytes ≤ st.send_bytes = omega (
        arith,
        c.total,
        length-append (tag front.channel front.bytes) (tagged_queue rest),
        length-tag front.channel front.bytes,
      ) in
      let r = flush_round-Round id front rest st c.word c.wide fits in
      let lengths = ap length r.in_order in
      (
        r,
        record {
          queue_is = refl;
          total = omega (
            arith,
            lengths,
            r.size,
            r.counted,
            c.total,
            length-append
                (tag (channel_of (flush_round id front rest st).0)
                  (flush_round id front rest st).0.payload)
                (tagged_queue (flush_round id front rest st).1.send_queue),
            length-tag (channel_of (flush_round id front rest st).0)
                (flush_round id front rest st).0.payload,
          );
          wide = omega (arith, r.counted, c.wide);
          word = omega (arith, r.paid, c.word);
        },
      )

  flush_round-same :
      (front : Segment) (rest : List Segment) (st : Stream)
      → ((flush_round id front rest st).1.exit_pending ≡ st.exit_pending)
        × ((flush_round id front rest st).1.recv_window ≡ st.recv_window)
  unfolding flush_round
  flush_round-same front rest st = (refl, refl)

  -- One round before a run.
  before-Flushed :
      (front : Segment) (rest : List Segment) (st : Stream) (out : List Frame × Stream)
      → IsCounted (front ∷ rest) st
      → Flushed (flush_round id front rest st).1.send_queue (flush_round id front rest st).1 out
      → Flushed (front ∷ rest) st (frame_before (flush_round id front rest st).0 out)
  unfolding tagged_frames payload_total tagged_queue
  before-Flushed front rest st out c f =
      let (r, _) = round-IsCounted front rest st c in
      let (exit, window) = flush_round-same front rest st in
      let fits : length front.bytes ≤ st.send_bytes = omega (
        arith,
        c.total,
        length-append (tag front.channel front.bytes) (tagged_queue rest),
        length-tag front.channel front.bytes,
      ) in
      record {
        in_order =
            append_assoc
              (tag (channel_of (flush_round id front rest st).0)
                (flush_round id front rest st).0.payload)
              (tagged_frames out.0) (tagged_queue out.1.send_queue)
            ∙ ap
                (λ w.
                  tag (channel_of (flush_round id front rest st).0)
                    (flush_round id front rest st).0.payload
                  ++ w)
                f.in_order
            ∙ r.in_order;
        paid = omega (arith, f.paid, r.paid, r.size);
        counted = omega (arith, f.counted, r.counted, r.size, fits);
        same_exit = f.same_exit ∙ exit;
        same_window = f.same_window ∙ window;
      }

  flush_loop_runs :
      (fuel : ℕ) (front : Segment) (rest : List Segment) (st : Stream)
      → ltb 0 st.send_credit ≡ true
      → flush_loop (suc fuel) id (front ∷ rest) st
        ≡ frame_before (flush_round id front rest st).0 (
            flush_loop fuel id
              (flush_round id front rest st).1.send_queue
              (flush_round id front rest st).1)
  unfolding flush_loop flush_round
  flush_loop_runs fuel front rest st e = rw (flush_loop, e) refl

  flush_loop_stops :
      (fuel : ℕ) (front : Segment) (rest : List Segment) (st : Stream)
      → ltb 0 st.send_credit ≡ false
      → flush_loop (suc fuel) id (front ∷ rest) st ≡ ([], st)
  unfolding flush_loop
  flush_loop_stops fuel front rest st e = rw (flush_loop, e) refl

  flush_loop-Flushed :
      (fuel : ℕ) (queue : List Segment) (st : Stream)
      → IsCounted queue st
      → Flushed queue st (flush_loop fuel id queue st)
  unfolding flush_loop
  flush_loop-Flushed zero queue st c = stop-Flushed queue st c
  flush_loop-Flushed (suc fuel) [] st c = stop-Flushed [] st c
  flush_loop-Flushed (suc fuel) (front ∷ rest) st c =
      let next = (flush_round id front rest st).1 in
      let run = flush_loop-Flushed fuel next.send_queue next (round-IsCounted front rest st c).1 in
      elim (Bool-cases (ltb 0 st.send_credit)) [
        | inl e ↦ rw (flush_loop_runs fuel front rest st e) (before-Flushed front rest st _ c run)
        | inr e ↦ rw (flush_loop_stops fuel front rest st e) (stop-Flushed (front ∷ rest) st c)
      ]

  flush_loop_dry :
      (fuel : ℕ) (queue : List Segment) (st : Stream)
      → st.send_credit ≡ 0
      → flush_loop fuel id queue st ≡ ([], st)
  unfolding flush_loop
  flush_loop_dry zero queue st e = refl
  flush_loop_dry (suc fuel) [] st e = refl
  flush_loop_dry (suc fuel) (front ∷ rest) st e = flush_loop_stops fuel front rest st (ground arith)

  -- Fuel beyond the number of segments ends the loop.
  flush_loop-IsOver :
      (fuel : ℕ) (queue : List Segment) (st : Stream)
      → IsCounted queue st
      → length queue < fuel
      → IsOver (flush_loop fuel id queue st)
  unfolding flush_loop IsOver
  flush_loop-IsOver zero queue st c more = absurd (omega arith)
  flush_loop-IsOver (suc fuel) [] st c more = inl c.queue_is
  flush_loop-IsOver (suc fuel) (front ∷ rest) st c more =
      let next = (flush_round id front rest st).1 in
      let (r, counted) = round-IsCounted front rest st c in
      let run = flush_loop-IsOver fuel next.send_queue next counted in
      elim (Bool-cases (ltb 0 st.send_credit)) [
        | inl e ↦ rw (flush_loop_runs fuel front rest st e) (elim r.shorter [
          | inl left ↦ run (omega (arith, ap length left))
          | inr dry ↦ inr (rw (flush_loop_dry fuel next.send_queue next dry) dry)
        ])
        | inr e ↦ rw (flush_loop_stops fuel front rest st e) (inr (ground arith))
      ]

  -- Where the counters agree with the queue, the loop that `flushStream` runs sends a prefix of the
  -- queue's bytes in order, each on the channel it was queued for, pays one unit of credit for each
  -- byte, takes them off `sendBytes`, and ends only with the queue empty or the credit used up. The
  -- receive window and a deferred EXIT stay as they were.
  pub flush_data_lem :
      (st : Stream)
      → IsCounted st.send_queue st
      → Flushed st.send_queue st (flush_data id st) × IsOver (flush_data id st)
  unfolding flush_data
  flush_data_lem st c = (
    flush_loop-Flushed (suc (length st.send_queue)) st.send_queue st c,
    flush_loop-IsOver (suc (length st.send_queue)) st.send_queue st c (omega arith),
  )
