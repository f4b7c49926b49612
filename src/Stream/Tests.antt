-- ===== src/Stream/Tests.antt =====
-- The stream components at concrete inputs.
use pipe_shell_x.Base.{◌+◌, ◌-◌, ◌≡◌, refl, inl, inr, [], ◌∷◌, ◌++◌, true, arith, All}
use pipe_shell_x.Stream.Buffer
use pipe_shell_x.Stream.Buffer.{BoundedBuffer, drop_oldest}
use pipe_shell_x.Stream.Buffer.Valid
use pipe_shell_x.Stream.Buffer.Append.Spec.{Appended}
use pipe_shell_x.Stream.Buffer.Append.Refines.{append-Appended}
use pipe_shell_x.Stream.Buffer.Consume.{Consumed, consume-Consumed}
use pipe_shell_x.Stream.Framer.{LineFramer, lf, cr, push, flush}
use pipe_shell_x.Stream.Framer.Lines.{spelled, unsent, held, crlf_to_lf, push-spelled}
use pipe_shell_x.Stream.Framer.Bounds.{IsLine, IsBounded, IsFramed, push-IsFramed, flush_over_limit}
use pipe_shell_x.Stream.Credit.{CreditWindow, on_consumed}
use pipe_shell_x.Stream.Credit.Laws.{IsValid, peer_credit, on_consumed-grants}

-- 8, then 9, round the end of the storage.
abbrev wrapped : BoundedBuffer
wrapped = record {
  storage = 9 ∷ 7 ∷ 8 ∷ [];
  capacity = 3;
  head = 2;
  size = 2;
  dropped = 5;
  policy = drop_oldest;
}

wrapped-IsValid : Valid.IsValid wrapped
wrapped-IsValid = record {
  cells = refl;
  small = omega arith;
  head_in = inl (omega arith);
  size_in = omega arith;
  counted = omega arith;
}

append-Appended_example :
    Appended drop_oldest wrapped (1 ∷ 2 ∷ []) (Buffer.append (1 ∷ 2 ∷ []) wrapped)
append-Appended_example = append-Appended wrapped (1 ∷ 2 ∷ []) wrapped-IsValid (omega arith)

consume-Consumed_example : Consumed 2 wrapped (Buffer.consume 2 wrapped)
consume-Consumed_example = consume-Consumed 2 wrapped wrapped-IsValid

-- A full framer that holds a CR back.
abbrev full_framer : LineFramer
full_framer = record { pending = 65 ∷ 66 ∷ []; max_line_length = 2; pending_cr = true }

full_framer-IsBounded : IsBounded 2 full_framer
full_framer-IsBounded = record {
  limit = refl;
  positive = omega arith;
  within = omega arith;
  no_lf = ground arith;
}

push-spelled_example :
    spelled (push (lf ∷ 67 ∷ []) full_framer).0 ++ unsent (push (lf ∷ 67 ∷ []) full_framer).1
    ≡ full_framer.pending ++ crlf_to_lf (held true ++ lf ∷ 67 ∷ [])
push-spelled_example = push-spelled (lf ∷ 67 ∷ []) full_framer

push-IsFramed_example : IsFramed 2 (push (67 ∷ cr ∷ lf ∷ []) full_framer)
push-IsFramed_example = push-IsFramed 2 (67 ∷ cr ∷ lf ∷ []) full_framer full_framer-IsBounded

flush_over_limit_example : ¬ (All (IsLine 2) (flush full_framer).1)
flush_over_limit_example = flush_over_limit 2 full_framer full_framer-IsBounded refl refl

-- Ten bytes delivered of a window of 16, and three consumed and not advertised.
abbrev half_used : CreditWindow
half_used = record { window = 16; threshold = 8; outstanding = 10; pending_update = 3 }

half_used-IsValid : IsValid half_used
half_used-IsValid = record {
  word = omega arith;
  ledger = omega arith;
  pending_waits = inr (omega arith, omega arith);
}

on_consumed-grants_example :
    IsValid (on_consumed 6 half_used).1
    × (peer_credit (on_consumed 6 half_used).1
        ≡ peer_credit half_used + (on_consumed 6 half_used).0)
    × ((on_consumed 6 half_used).1.outstanding ≡ 10 - 6)
on_consumed-grants_example = on_consumed-grants 6 half_used half_used-IsValid
