-- ===== src/Transport/Session/Flush/Tagged.antt =====
-- The bytes of a send queue and of the frames sent, each with its channel.
use Prim.Native.Nat.{bit_and}
use pipe_shell_x.Base.{
  ℕ, suc, ◌+◌, ◌≡◌, refl, ap, ◌∷◌, ◌++◌, [], List, not, Bytes, length, ◌==◌, if◌then◌else◌,
}
use pipe_shell_x.Transport.Frame.{Frame}
use pipe_shell_x.Transport.Session.State.{Channel, stdout, stderr, Segment}
use pipe_shell_x.Transport.Session.Flush.{flag_stderr}

-- A byte with the channel that it belongs to.
abbrev pub Tagged : Type 0
Tagged = List (Channel × ℕ)

unfoldable pub tag : Channel → Bytes → Tagged
tag c [] = []
tag c (b ∷ bytes) = (c, b) ∷ tag c bytes

unfoldable pub tagged_queue : List Segment → Tagged
unfolding tag
tagged_queue [] = []
tagged_queue (s ∷ queue) = tag s.channel s.bytes ++ tagged_queue queue

-- The channel that a receiver reads off a DATA frame.
unfoldable pub channel_of : Frame → Channel
channel_of f = if not (bit_and f.flags flag_stderr == 0) then stderr else stdout

unfoldable pub tagged_frames : List Frame → Tagged
unfolding tag channel_of
tagged_frames [] = []
tagged_frames (f ∷ fs) = tag (channel_of f) f.payload ++ tagged_frames fs

unfoldable pub payload_total : List Frame → ℕ
payload_total [] = 0
payload_total (f ∷ fs) = length f.payload + payload_total fs

pub tag-append : (c : Channel) (xs ys : Bytes) → tag c (xs ++ ys) ≡ tag c xs ++ tag c ys
unfolding tag
tag-append c [] ys = refl
tag-append c (x ∷ xs) ys = ap (λ w. (c, x) ∷ w) (tag-append c xs ys)

pub length-tag : (c : Channel) (bytes : Bytes) → length (tag c bytes) ≡ length bytes
unfolding tag
length-tag c [] = refl
length-tag c (b ∷ bytes) = ap suc (length-tag c bytes)
