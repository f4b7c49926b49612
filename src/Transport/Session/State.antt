-- ===== src/Transport/Session/State.antt =====
-- The state of a `Session`. Maps are association lists; what the session passes to its `write` callback
-- and to its observer stands in order in `log`. Calls that the observer makes back into the session
-- while a frame is dispatched are not modelled.
use pipe_shell_x.Base.{
  ℕ, ◌*◌, ◌∷◌, ◌++◌, [], List, Option, none, some, Bool, false, Bytes, ◌==◌, if◌then◌else◌,
}
use pipe_shell_x.Stream.Credit
use pipe_shell_x.Stream.Credit.{CreditWindow}
use pipe_shell_x.Transport.Frame
use pipe_shell_x.Transport.Frame.{Frame, FrameDecoder, default_max_frame_payload}
use pipe_shell_x.Transport.Control.{ExitStatus, exited}
use pipe_shell_x.Base.Int.{pos}
use pipe_shell_x.Transport.Open.{OpenRequest}

pub data Role : Type 0 where
  controller node : Role

pub data Channel : Type 0 where
  stdout stderr : Channel

abbrev pub default_stream_window : ℕ
default_stream_window = 256 * 1024

abbrev pub max_stream_window : ℕ
max_stream_window = 0x7fff_ffff

-- `Session::Stream::Segment`
pub record Segment : Type 0 where
  pub channel : Channel
  pub bytes : Bytes

-- `Session::Stream`
pub record Stream : Type 0 where
  pub recv_window : CreditWindow
  pub send_credit : ℕ
  pub send_queue : List Segment
  pub send_bytes : ℕ
  pub send_end_pending : Bool
  pub exit_pending : Bool
  pub local_data_closed : Bool
  pub peer_data_closed : Bool
  pub exit_status : ExitStatus

-- The constructor of `Stream`.
unfoldable pub create_stream : ℕ → Stream
create_stream window = record {
  recv_window = Credit.create window 0;
  send_credit = window;
  send_queue = [];
  send_bytes = 0;
  send_end_pending = false;
  exit_pending = false;
  local_data_closed = false;
  peer_data_closed = false;
  exit_status = record { kind = exited; code = pos 0 };
}

-- What a session does to the world: a frame whose encoding it writes, a call of a `SessionHandler`, or
-- a call of the callback that `onStreamWritable` sets.
pub data Effect : Type 0 where
  wrote : Frame → Effect
  on_open : ℕ → OpenRequest → Effect
  on_data : ℕ → Bytes → Bool → Channel → Effect
  on_exit : ℕ → ExitStatus → Effect
  on_go_away on_pong : Effect
  on_writable : ℕ → Effect

-- `locally_closed` maps a stream to `peerDataClosed` of `LocallyClosedStream`.
pub record Session : Type 0 where
  pub role : Role
  pub initial_window : ℕ
  pub decoder : FrameDecoder
  pub streams : List (ℕ × Stream)
  pub locally_closed : List (ℕ × Bool)
  pub next_stream_id : ℕ
  pub next_peer_stream_id : ℕ
  pub notifies_writable : Bool
  pub sent_go_away : Bool
  pub received_go_away : Bool
  pub protocol_failed : Bool
  pub log : List Effect

-- The constructor of `Session`.
unfoldable pub create : Role → ℕ → Session
create role initial_window = record {
  role = role;
  initial_window = initial_window;
  decoder = Frame.create default_max_frame_payload;
  streams = [];
  locally_closed = [];
  next_stream_id = 1;
  next_peer_stream_id = 1;
  notifies_writable = false;
  sent_go_away = false;
  received_go_away = false;
  protocol_failed = false;
  log = [];
}

module _ {ℓ} {V : Type ℓ} where
  unfoldable pub find : ℕ → List (ℕ × V) → Option V
  find k [] = none
  find k ((j, v) ∷ m) = if j == k then some v else find k m

  -- `insert_or_assign`, and a write through an iterator.
  unfoldable pub assign : ℕ → V → List (ℕ × V) → List (ℕ × V)
  assign k v [] = (k, v) ∷ []
  assign k v ((j, w) ∷ m) = if j == k then (k, v) ∷ m else (j, w) ∷ assign k v m

  unfoldable pub erase : ℕ → List (ℕ × V) → List (ℕ × V)
  erase k [] = []
  erase k ((j, w) ∷ m) = if j == k then erase k m else (j, w) ∷ erase k m

  -- `try_emplace`
  unfoldable pub try_emplace : ℕ → V → List (ℕ × V) → List (ℕ × V)
  unfolding find assign
  try_emplace k v m = elim (find k m) [ none ↦ assign k v m | some w ↦ m ]

-- A call of the observer.
abbrev pub tell : Effect → Session → Session
tell e s = record s { log = s.log ++ e ∷ [] }

-- `send`
unfoldable pub send : Frame → Session → Session
send f s = if s.protocol_failed then s else tell (wrote f) s

-- The session with the stream `id` changed.
abbrev pub put : ℕ → Stream → Session → Session
put id st s = record s { streams = assign id st s.streams }

-- `closeLocally`
unfoldable pub close_locally : ℕ → Bool → Session → Session
close_locally id peer_data_closed s = record s {
  locally_closed = assign id peer_data_closed s.locally_closed;
  streams = erase id s.streams;
}
