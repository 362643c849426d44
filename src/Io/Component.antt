-- ===== src/Io/Component.antt =====
-- src/io/mod.rs: the trait `Component`, what a world takes its input from.
use tokactor.Common.{Option, Flow}
use tokactor.Address.{Reply}

-- `C` is the component, `Rd` and `Act` what it accepts: a reader and the actor that serves it; `D` is
-- what happens while it shuts down.
pub record Component (C Rd Act E D : Type 0) : Type 0 where
  -- one poll of the future of `accept`; `none` while it is pending
  pub accept : C → Flow (Option (Reply (Rd × Act) E) × C)
  -- a task of a connection that it has accepted ends by itself, while the component serves
  pub departed : C → C
  -- `blocked` if the shutdown does not come to its end in this way
  pub shutdown : C → D → Flow (Unit {0})
