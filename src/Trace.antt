-- ===== src/Trace.antt =====
-- The tracing (src/r_exasol/debug_print/debug_printer.h, debug_printer.cpp and file_logger.cpp). The
-- file stream, the clock and the names of types are parameters; a text is the pieces that a stream is
-- fed with. The mutex that `logImpl` holds is left out: a line is one step.
pub mod Written
use r_exasol.Base.{
  Bool, List, Option, String, [], false, if◌then◌else◌, none, some, true, ℕ, ◌++◌, ◌∷◌,
}
use r_exasol.Answers.{Piece, text, chars}

abbrev pub Text : Type 0
Text = List Piece

-- `std::ofstream`: `write` is `<<` with a flush.
pub record Ofstream (F : Type 0) : Type 0 where
  pub open_file : List ℕ → F → F
  pub is_open : F → Bool
  pub write : F → Text → F

-- `gLogFunction`, none until it is set, works on the file of the `FileLogger`.
pub record Tracing (F : Type 0) : Type 0 where
  pub file : F
  pub log_function : Option (F → Text → F)

abbrev pub is_set : {A : Type 0} → Option A → Bool
is_set none = false
is_set (some _) = true

unfoldable pub is_logging_enabled : {F : Type 0} → Tracing F → Bool
is_logging_enabled t = is_set t.log_function

unfoldable pub set_logger : {F : Type 0} → (F → Text → F) → Tracing F → Tracing F
set_logger f t = record t { log_function = some f }

-- `printToStream`: the pieces behind one another.
unfoldable pub print_to_stream : Text → Piece → List Piece → Text
print_to_stream o t [] = o ++ (t ∷ [])
print_to_stream o t (x ∷ args) = print_to_stream (o ++ (t ∷ [])) x args

-- The line that `logImpl` makes of a message.
unfoldable pub log_line : String → Text → Text → Text
log_line caller time msg =
    text "([" ∷ text caller ∷ text "] " ∷ (time ++ (text "): " ∷ (msg ++ (text "\n" ∷ []))))

unfoldable pub log_impl : {F : Type 0} → String → Text → Text → Tracing F → Tracing F
unfolding log_line
log_impl caller time msg t = elim t.log_function [
  | none ↦ t
  | some log ↦ record t { file = log t.file (log_line caller time msg) }
]

-- `DebugPrinter::print`
unfoldable pub print : {F : Type 0} → String → Text → Piece → List Piece → Tracing F → Tracing F
unfolding is_logging_enabled log_impl print_to_stream
print caller time msg args t =
    if is_logging_enabled t then log_impl caller time (print_to_stream [] msg args) t else t

-- What `StackTraceLogger` prints when a function is entered and left.
unfoldable pub entering : {F : Type 0} → String → Text → String → Tracing F → Tracing F
unfolding print
entering caller time name t =
    print caller time (text "entering ") (text caller ∷ text "::" ∷ text name ∷ []) t

unfoldable pub exiting : {F : Type 0} → String → Text → String → Tracing F → Tracing F
unfolding print
exiting caller time name t =
    print caller time (text "exiting ") (text caller ∷ text "::" ∷ text name ∷ []) t

-- A function with a `STACK_PRINTER`.
unfoldable pub with_stack_printer :
    {F : Type 0} → String → Text → String → (Tracing F → Tracing F) → Tracing F → Tracing F
unfolding entering exiting
with_stack_printer caller time name body t =
    exiting caller time name (body (entering caller time name t))

-- The constructor and the destructor of `ObjectLifecycleLogger`: both print "entering".
unfoldable pub object_made : {F : Type 0} → String → Text → Tracing F → Tracing F
unfolding print
object_made caller time t =
    print caller time (text "entering ") (text caller ∷ text "::<ctor>" ∷ []) t

unfoldable pub object_gone : {F : Type 0} → String → Text → Tracing F → Tracing F
unfolding print
object_gone caller time t =
    print caller time (text "entering ") (text caller ∷ text "::<dtor>" ∷ []) t

module _ {F : Type 0} (os : Ofstream F) where
  -- The function that `enableLogging` sets.
  unfoldable pub write_open : F → Text → F
  write_open f msg = if os.is_open f then os.write f msg else f

  -- `FileLogger::enableLogging`
  unfoldable pub enable_logging : List ℕ → Tracing F → Bool × Tracing F
  unfolding set_logger
  enable_logging name t =
      let opened = os.open_file name t.file in
      (os.is_open opened, set_logger write_open (record t { file = opened }))
