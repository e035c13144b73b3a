-- ===== src/Trace/Written.antt =====
-- What is in the file once the tracing is on, and what a second `enableTracing` does.
use r_exasol.Base.{
  Bool, List, String, [], ap, append-nil, append_assoc, false, map, refl, some, sym, true, ℕ, ◌++◌,
  ◌∙◌, ◌∷◌, ◌≡◌,
}
use r_exasol.Answers.{Piece}
use r_exasol.Trace.{
  Text, Ofstream, Tracing, is_logging_enabled, set_logger, print_to_stream, log_line, log_impl,
  print, write_open, enable_logging,
}

pub print_to_stream-pieces :
    (o : Text) (t : Piece) (args : List Piece) → print_to_stream o t args ≡ o ++ (t ∷ args)
unfolding print_to_stream
print_to_stream-pieces o t [] = refl
print_to_stream-pieces o t (x ∷ args) =
    print_to_stream-pieces (o ++ (t ∷ [])) x args ∙ append_assoc o (t ∷ []) (x ∷ args)

-- A message before it is printed.
pub record Message : Type 0 where
  pub caller : String
  pub time : Text
  pub head : Piece
  pub args : List Piece

abbrev pub line_of : Message → Text
line_of m = log_line m.caller m.time (m.head ∷ m.args)

unfoldable pub print_all : {F : Type 0} → List Message → Tracing F → Tracing F
print_all [] t = t
print_all (m ∷ ms) t = print_all ms (print m.caller m.time m.head m.args t)

module _ {F : Type 0} (os : Ofstream F) where
  -- What the library documents of `std::ofstream`: `open` on a closed stream truncates the file; on a
  -- stream that is open it fails, and the stream stays open but takes nothing more.
  pub record Documented : Type 0 where
    pub contents : F → List Text
    pub good : F → Bool
    pub open_first :
        (n : List ℕ) (f : F)
        → os.is_open f ≡ false
        → os.is_open (os.open_file n f) ≡ true
        → (good (os.open_file n f) ≡ true) × (contents (os.open_file n f) ≡ [])
    pub open_again :
        (n : List ℕ) (f : F)
        → os.is_open f ≡ true
        → (os.is_open (os.open_file n f) ≡ true)
          × (good (os.open_file n f) ≡ false)
          × (contents (os.open_file n f) ≡ contents f)
    pub write_keeps :
        (f : F) (m : Text)
        → (os.is_open (os.write f m) ≡ os.is_open f) × (good (os.write f m) ≡ good f)
    pub write_good :
        (f : F) (m : Text) → good f ≡ true → contents (os.write f m) ≡ contents f ++ (m ∷ [])
    pub write_bad : (f : F) (m : Text) → good f ≡ false → contents (os.write f m) ≡ contents f

  module _ (d : Documented) where
    -- The logger writes to an open file, which takes what is written or not.
    pub record IsTracing (taking : Bool) (t : Tracing F) : Type 0 where
      pub logger : t.log_function ≡ some (write_open os)
      pub opened : os.is_open t.file ≡ true
      pub takes : d.good t.file ≡ taking

    abbrev pub taken : Bool → List Text → List Text
    taken true ms = ms
    taken false ms = []

    write-contents :
        (taking : Bool) (f : F) (m : Text)
        → d.good f ≡ taking
        → d.contents (os.write f m) ≡ d.contents f ++ taken taking (m ∷ [])
    write-contents true f m g = d.write_good f m g
    write-contents false f m g = d.write_bad f m g ∙ sym (append-nil (d.contents f))

    print-file :
        (m : Message) (t : Tracing F) (log : F → Text → F)
        → t.log_function ≡ some log
        → print m.caller m.time m.head m.args t ≡ record t { file = log t.file (line_of m) }
    unfolding print is_logging_enabled log_impl log_line
    print-file m t log e = rw (e, print_to_stream-pieces [] m.head m.args, log_line) refl

    -- One message.
    print-IsTracing :
        (taking : Bool) (m : Message) (t : Tracing F)
        → IsTracing taking t
        → IsTracing taking (print m.caller m.time m.head m.args t)
          × (d.contents (print m.caller m.time m.head m.args t).file
              ≡ d.contents t.file ++ taken taking (line_of m ∷ []))
    unfolding write_open
    print-IsTracing taking m t v =
        let after = print-file m t (write_open os) v.logger in
        let written : write_open os t.file (line_of m) ≡ os.write t.file (line_of m) =
          rw v.opened refl in
        let file : (print m.caller m.time m.head m.args t).file ≡ os.write t.file (line_of m) =
          ap Tracing.file after ∙ written in
        let (open_same, good_same) = d.write_keeps t.file (line_of m) in
        (
          record {
            logger = ap Tracing.log_function after ∙ v.logger;
            opened = ap os.is_open file ∙ open_same ∙ v.opened;
            takes = ap d.good file ∙ good_same ∙ v.takes;
          },
          ap d.contents file ∙ write-contents taking t.file (line_of m) v.takes,
        )

    taken-more :
        (taking : Bool) (x : Text) (xs : List Text)
        → taken taking (x ∷ []) ++ taken taking xs ≡ taken taking (x ∷ xs)
    taken-more true x xs = refl
    taken-more false x xs = refl

    print_all-contents :
        (taking : Bool) (ms : List Message) (t : Tracing F)
        → IsTracing taking t
        → d.contents (print_all ms t).file ≡ d.contents t.file ++ taken taking (map line_of ms)
    unfolding print_all
    print_all-contents true [] t v = sym (append-nil (d.contents t.file))
    print_all-contents false [] t v = sym (append-nil (d.contents t.file))
    print_all-contents taking (m ∷ ms) t v =
        let (next, one) = print-IsTracing taking m t v in
        print_all-contents taking ms (print m.caller m.time m.head m.args t) next
        ∙ ap (λ l. l ++ taken taking (map line_of ms)) one
        ∙ append_assoc (d.contents t.file) (taken taking (line_of m ∷ []))
            (taken taking (map line_of ms))
        ∙ ap (◌++◌ (d.contents t.file)) (taken-more taking (line_of m) (map line_of ms))

    pub print_all-IsTracing :
        (taking : Bool) (ms : List Message) (t : Tracing F)
        → IsTracing taking t
        → IsTracing taking (print_all ms t)
    unfolding print_all
    print_all-IsTracing taking [] t v = v
    print_all-IsTracing taking (m ∷ ms) t v =
        print_all-IsTracing taking ms (print m.caller m.time m.head m.args t)
          (print-IsTracing taking m t v).0

    -- The state after `enableLogging` on a closed stream.
    pub enable_logging-IsTracing :
        (name : List ℕ) (t : Tracing F)
        → os.is_open t.file ≡ false
        → os.is_open (os.open_file name t.file) ≡ true
        → IsTracing true (enable_logging os name t).1
    unfolding enable_logging set_logger
    enable_logging-IsTracing name t closed opens = record {
      logger = refl;
      opened = opens;
      takes = (d.open_first name t.file closed opens).0;
    }

    -- Where `enableLogging` opens a file on a closed stream, it returns true, and the file then has
    -- exactly a line for each message that is printed, in their order.
    pub enable_logging-traces :
        (name : List ℕ) (t : Tracing F) (ms : List Message)
        → os.is_open t.file ≡ false
        → os.is_open (os.open_file name t.file) ≡ true
        → ((enable_logging os name t).0 ≡ true)
          × (d.contents (print_all ms (enable_logging os name t).1).file ≡ map line_of ms)
    unfolding enable_logging set_logger
    enable_logging-traces name t ms closed opens =
        let (good, empty) = d.open_first name t.file closed opens in
        let v = enable_logging-IsTracing name t closed opens in
        (
          opens,
          print_all-contents true ms (enable_logging os name t).1 v
              ∙ ap (λ l. l ++ map line_of ms) empty,
        )

    -- A second `enableLogging`, on a stream that is open, returns true as well, but then nothing that
    -- is printed reaches a file.
    pub enable_logging-twice :
        (name : List ℕ) (t : Tracing F) (ms : List Message)
        → os.is_open t.file ≡ true
        → ((enable_logging os name t).0 ≡ true)
          × (d.contents (print_all ms (enable_logging os name t).1).file ≡ d.contents t.file)
    unfolding enable_logging set_logger
    enable_logging-twice name t ms opened =
        let (still_open, failed, same) = d.open_again name t.file opened in
        let v : IsTracing false (enable_logging os name t).1 = record {
          logger = refl;
          opened = still_open;
          takes = failed;
        } in
        (
          still_open,
          print_all-contents false ms (enable_logging os name t).1 v ∙ append-nil _ ∙ same,
        )
