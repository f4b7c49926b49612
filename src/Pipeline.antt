-- ===== src/Pipeline.antt =====
-- include/psx/pipeline/pipeline.hpp: a pipeline of stages joined by edges.
pub mod Parser
pub mod Planner
use pipe_shell_x.Base.{List, Bytes}

pub record Stage : Type 0 where
  pub id : Bytes
  pub argv : List Bytes
  pub placement : Bytes

pub record Edge : Type 0 where
  pub from : Bytes
  pub to : Bytes

pub record Pipeline : Type 0 where
  pub stages : List Stage
  pub edges : List Edge
