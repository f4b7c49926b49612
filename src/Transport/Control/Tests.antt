-- ===== src/Transport/Control/Tests.antt =====
-- The control payloads at concrete inputs.
use pipe_shell_x.Base.Int.{negsuc}
use pipe_shell_x.Transport.Control.{ExitStatus, exited}

abbrev pub killed : ExitStatus
killed = record { kind = exited; code = negsuc 8 }
