-- ===== src/Context.antt =====
-- Go's `context.Context`, as far as the program reads it.
use go_fsm.Base.{ℕ, Option, none}

pub data CtxError : Type 0 where
  canceled : CtxError
  deadline_exceeded : CtxError

-- A context as a call finds it: which one it is, and what its `Err()` answers.
pub record Ctx : Type 0 where
  pub id : ℕ
  pub error : Option CtxError

-- `context.Background()`
abbrev pub background : Ctx
background = record { id = 0; error = none }
