-- ===== src/Heap/TraceStack.antt =====
-- src/heap.rs, `TraceStack`: the objects that are still to be looked into. The head of the list is
-- the top of the stack, the last element of the `Vec`.
use mo_gc.Common.{Option, none, some, List, [], ◌∷◌, ◌++◌}
use mathlib.Core.List.{reverse}
use mo_gc.Heap.Object.{TraitObject, Object, from}

pub record TraceStack : Type 0 where
  pub stack : List Object

unfoldable pub new : TraceStack
new = record { stack = [] }

unfoldable pub push : TraceStack → Object → TraceStack
push s obj = record { stack = obj ∷ s.stack }

unfoldable pub pop : TraceStack → Option Object × TraceStack
pop s = elim s.stack [ [] ↦ (none, s) | obj ∷ rest ↦ (some obj, record { stack = rest }) ]

-- Create initial contents from a slice of Objects
unfoldable pub from_roots : TraceStack → List Object → TraceStack
from_roots s slice = record { stack = reverse slice ++ s.stack }

unfoldable pub push_to_trace : TraceStack → TraitObject → TraceStack
unfolding from
push_to_trace s tobj = record { stack = from tobj ∷ s.stack }
