-- ===== src/Flags/Mutation.antt =====
-- The part of a `useMutation` of @tanstack/react-query that the pages look at. `isPending` is
-- `pending`; `isError` is `failed`, with the message.
use vexil.Prelude.{Bool, true, false}
use vexil.Text.{Text}

pub data Mutation : Type 0 where
  idle pending succeeded : Mutation
  failed : Text → Mutation

abbrev pub is_pending : Mutation → Bool
is_pending pending = true
is_pending _ = false

abbrev pub is_error : Mutation → Bool
is_error (failed message) = true
is_error _ = false
