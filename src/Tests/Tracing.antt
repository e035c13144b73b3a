-- ===== src/Tests/Tracing.antt =====
-- The tracing to a file in memory.
use r_exasol.Base.{Bool, List, [], codes, false, none, pos, refl, true, ℕ, ◌++◌, ◌∷◌, ◌≡◌}
use r_exasol.Answers.{text}
use r_exasol.Entry.Tracing.{async_enable_tracing, async_enable_tracing-twice}
use r_exasol.Trace.{Text, Ofstream, Tracing}
use r_exasol.Trace.Written.{Message, Documented, line_of, print_all}

record TestFile : Type 0 where
  opened : Bool
  healthy : Bool
  lines : List Text

abbrev open_test : TestFile → TestFile
open_test f = elim f.opened [
  | true ↦ record f { healthy = false }
  | false ↦ record { opened = true; healthy = true; lines = [] }
]

abbrev test_stream : Ofstream TestFile
test_stream = record {
  open_file = λ n f. open_test f;
  is_open = λ f. f.opened;
  write =
      λ f m. record f { lines = elim f.healthy [ true ↦ f.lines ++ (m ∷ []) | false ↦ f.lines ] };
}

open_test-first :
    (n : List ℕ) (f : TestFile)
    → f.opened ≡ false
    → (open_test f).opened ≡ true
    → ((open_test f).healthy ≡ true) × ((open_test f).lines ≡ [])
open_test-first n f e h = rw e (refl, refl)

open_test-again :
    (n : List ℕ) (f : TestFile)
    → f.opened ≡ true
    → ((open_test f).opened ≡ true)
      × ((open_test f).healthy ≡ false)
      × ((open_test f).lines ≡ f.lines)
open_test-again n f e = rw e (refl, refl, refl)

abbrev test_stream-Documented : Documented test_stream
test_stream-Documented = record {
  contents = λ f. f.lines;
  good = λ f. f.healthy;
  open_first = open_test-first;
  open_again = open_test-again;
  write_keeps = λ f m. (refl, refl);
  write_good = λ f m e. rw e refl;
  write_bad = λ f m e. rw e refl;
}

abbrev untraced : Tracing TestFile
untraced = record {
  file = record { opened = false; healthy = true; lines = [] };
  log_function = none;
}

abbrev hello : Message
hello = record {
  caller = "Socket";
  time = text "12:00:00" ∷ [];
  head = text "entering ";
  args = text "recv" ∷ [];
}

async_enable_tracing-twice_example :
    ((async_enable_tracing test_stream (codes "a.log") untraced).0 ≡ pos 0)
    × ((async_enable_tracing test_stream
          (codes "b.log")
          (print_all (hello ∷ []) (async_enable_tracing test_stream (codes "a.log") untraced).1)).0
        ≡ pos 0)
    × ((print_all
          (hello ∷ hello ∷ [])
          (async_enable_tracing test_stream (codes "b.log") (
            print_all
              (hello ∷ [])
              (async_enable_tracing test_stream (codes "a.log") untraced).1)).1).file.lines
        ≡ line_of hello ∷ [])
async_enable_tracing-twice_example =
    async_enable_tracing-twice test_stream test_stream-Documented (codes "a.log") (codes "b.log")
      untraced (hello ∷ []) (hello ∷ hello ∷ []) refl refl
