-- ===== src/Trace.antt =====
-- src/trace.rs: the trait that every type implements whose values the collector manages.
use mo_gc.Common.{Bool, false}
use mo_gc.Heap.TraceStack.{TraceStack}

pub record Trace (T : Type 0) : Type 0 where
  -- Whether the type can contain pointers that the collector manages.
  pub traversible : T → Bool
  -- Visits each pointer of the value: pushes what it points at.
  pub trace : T → TraceStack → TraceStack

-- The trait's default methods, which the implementations for numbers and strings take over.
unfoldable pub default_trace : (T : Type 0) → Trace T
default_trace T = record { traversible = λ value. false; trace = λ value stack. stack }
