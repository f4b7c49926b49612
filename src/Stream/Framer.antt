-- ===== src/Stream/Framer.antt =====
-- include/psx/stream/line_framer.hpp and src/stream/line_framer.cpp: chunks of bytes into whole lines.
-- The sink that the callers pass is the list of the lines it is given, in order.
mod Steps
pub mod Lines
pub mod Bounds
use pipe_shell_x.Base.{
  ℕ, ◌*◌, ◌∷◌, ◌++◌, [], List, Bool, true, false, Bytes, length, ◌==◌, if◌then◌else◌,
}

abbrev pub lf : ℕ
lf = 10

abbrev pub cr : ℕ
cr = 13

-- One call of the sink: the line without its terminator, and whether it was cut at the limit.
pub record Line : Type 0 where
  pub text : Bytes
  pub truncated : Bool

pub record LineFramer : Type 0 where
  pub pending : Bytes
  pub max_line_length : ℕ
  pub pending_cr : Bool

abbrev pub default_max_line_length : ℕ
default_max_line_length = 1024 * 1024

-- The constructor.
pub create : ℕ → LineFramer
create n = record {
  pending = [];
  max_line_length = if n == 0 then default_max_line_length else n;
  pending_cr = false;
}

-- `emit(pending_, …)` and `pending_.clear()`.
pub emit_pending : Bool → LineFramer → List Line × LineFramer
emit_pending truncated f =
    (record { text = f.pending; truncated = truncated } ∷ [], record f { pending = [] })

-- The lambda `pushData`.
pub push_data : ℕ → LineFramer → List Line × LineFramer
unfolding emit_pending
push_data byte f =
    let (out, f') =
      if length f.pending == f.max_line_length then emit_pending true f else ([], f) in
    (out, record f' { pending = f'.pending ++ byte ∷ [] })

-- The body of the loop behind the test of `pendingCr_`.
pub push_plain : ℕ → LineFramer → List Line × LineFramer
unfolding emit_pending push_data
push_plain c f =
    if c == lf
    then emit_pending false f
    else if c == cr
    then ([], record f { pending_cr = true })
    else push_data c f

-- One round of the loop of `push`.
pub push_byte : ℕ → LineFramer → List Line × LineFramer
unfolding emit_pending push_data push_plain
push_byte c f =
    if f.pending_cr
    then (let f' = record f { pending_cr = false } in
        if c == lf
        then emit_pending false f'
        else (let (first, g) = push_data cr f' in
            let (then_c, h) = push_plain c g in (first ++ then_c, h)))
    else push_plain c f

-- `push`
pub push : Bytes → LineFramer → List Line × LineFramer
push [] f = ([], f)
push (c ∷ bytes) f =
    let (out, g) = push_byte c f in let (more, h) = push bytes g in (out ++ more, h)

-- The first `if` of `flush`: a bare trailing CR is data.
pub release_cr : LineFramer → LineFramer
release_cr f =
    if f.pending_cr then record f { pending = f.pending ++ cr ∷ []; pending_cr = false } else f

-- The rest of `flush`.
pub flush_pending : LineFramer → Bool × List Line × LineFramer
flush_pending f =
    if length f.pending == 0
    then (false, [], f)
    else (true, record { text = f.pending; truncated = false } ∷ [], record f { pending = [] })

-- `flush`: whether a line went out, the lines, and the framer left.
pub flush : LineFramer → Bool × List Line × LineFramer
flush f = flush_pending (release_cr f)
