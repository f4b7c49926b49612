-- ===== src/Transport/Controller.antt =====
-- include/psx/transport/native_controller.hpp and src/transport/native_controller.cpp: the controller that
-- runs a command on a set of nodes. The output it captures is left out. Whether a connection can be made
-- is a parameter; what the connections report, and the timers, come as calls.
pub mod Tally
pub mod Inv
pub mod Ends
pub mod Cancel
pub mod Fill
pub mod Rest
pub mod Retire
pub mod Runs
mod Tests
use pipe_shell_x.Base.{
  ℕ, zero, suc, ◌+◌, ◌-◌, [], ◌∷◌, ◌++◌, List, Option, none, some, Bool, true, false, not, ◌&&◌,
  ◌||◌, Bytes, codes, length, ltb, ◌==◌, if◌then◌else◌, get_or, set, map,
}
use pipe_shell_x.Base.Int.{ℤ, pos, negsuc}
use pipe_shell_x.Text.{equal}
use pipe_shell_x.Transport.Control.{ExitStatus, ExitKind, exited}

pub record HostResult : Type 0 where
  pub host : Bytes
  pub ok : Bool
  pub exit_code : ℤ
  pub error : Bytes
  pub timed_out : Bool
  pub cancelled : Bool
  pub aborted : Bool

pub record Conn : Type 0 where
  pub result : HostResult
  pub active : Bool
  pub done : Bool

pub data CancelKind : Type 0 where
  other timeout interrupt fail_fast_kind : CancelKind

-- `timers` are the connections whose retirement is scheduled, `delivered` what `onComplete` is called
-- with.
pub record Controller : Type 0 where
  pub concurrency : ℕ
  pub fail_fast : Bool
  pub conns : List Conn
  pub next_to_start : ℕ
  pub active : ℕ
  pub remaining : ℕ
  pub filling : Bool
  pub cancelling : Bool
  pub completed : Bool
  pub timers : List ℕ
  pub delivered : List (List HostResult)

abbrev pub new_result : Bytes → HostResult
new_result host = record {
  host = host;
  ok = false;
  exit_code = negsuc 0;
  error = [];
  timed_out = false;
  cancelled = false;
  aborted = false;
}

-- There is no connection out of range.
abbrev pub no_conn : Conn
no_conn = record { result = new_result []; active = false; done = true }

abbrev pub conn_at : ℕ → Controller → Conn
conn_at i st = get_or st.conns i no_conn

pub complete_if_ready : Controller → Controller
complete_if_ready st =
    if not (st.remaining == 0) || (not (st.active == 0) || st.completed)
    then st
    else record st { completed = true; delivered = map (λ c. c.result) st.conns ∷ st.delivered }

-- `result.ok`, `exitCode` and `error` of a run that failed.
pub is_bad : HostResult → Bool
is_bad r =
    not r.ok
    || not (elim r.exit_code [ pos zero ↦ true | pos (suc _) ↦ false | negsuc _ ↦ false ])
    || not (length r.error == 0)

pub schedule : ℕ → Controller → Controller
schedule index st =
    if (conn_at index st).active then record st { timers = index ∷ st.timers } else st

-- `onConnDone`, with the call of `cancel`; from within `cancel` it is not made, `cancelling` being set.
pub on_conn_done_by : (Controller → Controller) → ℕ → Controller → Controller
on_conn_done_by cancel index st =
    let left = record st { remaining = st.remaining - 1 } in
    let stopped =
      if left.fail_fast && (not left.cancelling && is_bad (conn_at index left).result)
      then cancel left
      else left in
    complete_if_ready (schedule index stopped)

-- `Conn::finish`
pub finish_by : (Controller → Controller) → ℕ → HostResult → Controller → Controller
finish_by cancel index r st =
    if (conn_at index st).done
    then st
    else on_conn_done_by cancel index (record st {
      conns = set st.conns index (record (conn_at index st) { result = r; done = true });
    })

-- What `Conn::fail` writes.
pub failed_result : Bytes → CancelKind → HostResult → HostResult
failed_result message kind r = record r {
  error = message;
  ok = false;
  timed_out = elim kind [ timeout ↦ true | _ ↦ false ];
  cancelled = elim kind [ interrupt ↦ true | _ ↦ false ];
  aborted = elim kind [ fail_fast_kind ↦ true | _ ↦ false ];
}

pub fail_by : (Controller → Controller) → ℕ → Bytes → CancelKind → Controller → Controller
fail_by cancel index message kind st =
    finish_by cancel index (failed_result message kind (conn_at index st).result) st

-- The loop of `cancel`, over as many connections from `index` on.
pub fail_from : ℕ → ℕ → Bytes → CancelKind → Controller → Controller
fail_from zero index reason kind st = st
fail_from (suc more) index reason kind st =
    fail_from more (suc index) reason kind (fail_by (λ s. s) index reason kind st)

pub kind_of : Bytes → CancelKind → CancelKind
kind_of reason other =
    if equal reason (codes "timed out")
    then timeout
    else if equal reason (codes "fail-fast")
    then fail_fast_kind
    else if equal reason (codes "cancelled") || equal reason (codes "interrupted")
    then interrupt
    else other
kind_of reason timeout = timeout
kind_of reason interrupt = interrupt
kind_of reason fail_fast_kind = fail_fast_kind

pub cancel : Bytes → CancelKind → Controller → Controller
cancel reason kind st =
    if st.completed
    then st
    else complete_if_ready (
        fail_from (length st.conns) 0 reason (kind_of reason kind)
          (record st { cancelling = true }))

abbrev pub stop_all : Controller → Controller
stop_all st = cancel (codes "fail-fast") fail_fast_kind st

pub fail : ℕ → Bytes → Controller → Controller
fail index message st = fail_by stop_all index message other st

-- `Conn::onExit`
pub exit_result : ExitStatus → HostResult → HostResult
exit_result status r = record r {
  ok = true;
  exit_code = elim status.kind [ exited ↦ status.code | _ ↦ negsuc 0 ];
}

pub on_exit : ℕ → ExitStatus → Controller → Controller
on_exit index status st = finish_by stop_all index (exit_result status (conn_at index st).result) st

-- The connection can be made, or fails at once with a message.
pub connected : Option Bytes → ℕ → Controller → Controller
connected none index st = st
connected (some message) index st = fail index message st

pub launch : (ℕ → Option Bytes) → ℕ → Controller → Controller
launch connects index st = connected (connects index) index (record st {
  conns = set st.conns index (record (conn_at index st) { active = true });
  active = suc st.active;
})

abbrev pub limit : Controller → ℕ
limit st = if st.concurrency == 0 then length st.conns else st.concurrency

pub may_start : Controller → Bool
may_start st =
    ltb st.next_to_start (length st.conns) && (ltb st.active (limit st) && not st.cancelling)

-- The loop of `fillSlots`; a round starts a connection, so as many rounds as connections are enough.
pub fill_loop : ℕ → (ℕ → Option Bytes) → Controller → Controller
fill_loop zero connects st = st
fill_loop (suc fuel) connects st =
    let rest =
      fill_loop fuel connects
        (launch connects st.next_to_start (record st { next_to_start = suc st.next_to_start })) in
    if may_start st then rest else st

pub fill_slots : (ℕ → Option Bytes) → Controller → Controller
fill_slots connects st =
    if st.completed || (st.cancelling || st.filling)
    then st
    else record (fill_loop (length st.conns) connects (record st { filling = true })) {
      filling = false;
    }

pub leave : ℕ → Controller → Controller
leave index st =
    if (conn_at index st).active
    then record st {
      conns = set st.conns index (record (conn_at index st) { active = false });
      active = st.active - 1;
    }
    else st

-- The timer of a connection that is done has fired.
pub retire : (ℕ → Option Bytes) → ℕ → Controller → Controller
retire connects index st =
    let left = leave index st in
    complete_if_ready (if left.cancelling then left else fill_slots connects left)

pub new_conns : List Bytes → List Conn
new_conns [] = []
new_conns (host ∷ hosts) =
    record { result = new_result host; active = false; done = false } ∷ new_conns hosts

pub new_controller : ℕ → Bool → List Bytes → Controller
new_controller concurrency fail_fast hosts = record {
  concurrency = concurrency;
  fail_fast = fail_fast;
  conns = new_conns hosts;
  next_to_start = 0;
  active = 0;
  remaining = length hosts;
  filling = false;
  cancelling = false;
  completed = false;
  timers = [];
  delivered = [];
}

-- `start`, behind its checks of the arguments.
pub start : (ℕ → Option Bytes) → ℕ → Bool → List Bytes → Controller
start connects concurrency fail_fast hosts =
    let st = new_controller concurrency fail_fast hosts in
    if length hosts == 0
    then record st { completed = true; delivered = [] ∷ [] }
    else fill_slots connects st
