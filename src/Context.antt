-- ===== src/Context.antt =====
-- context.Context, as far as the repository asks it: whether `ctx.Err()` is nil when it is asked.
use atoha.Prelude.{Option, none}
use atoha.Errors.{Error}

pub record Context : Type 0 where
  pub err : Option Error

-- context.WithTimeout(context.WithoutCancel(parent), timeout) with a positive timeout: at the time
-- it is made, the context is not done, whatever has become of its parent.
unfoldable pub detached : Context → Context
detached parent = record { err = none }
