-- ===== src/Entry/Tracing.antt =====
-- The tracing that R turns on (`asyncEnableTracing` in src/exasol.c, `enableTracing` in
-- src/connection.cpp and src/r_exasol/connection_context.cpp), on the context's `mLogger`.
use r_exasol.Base.{List, ap, false, map, pos, true, ℕ, ℤ, ◌∙◌, ◌≡◌}
use r_exasol.Context.{status}
use r_exasol.Trace.{Ofstream, Tracing, enable_logging}
use r_exasol.Trace.Written.{
  Message, Documented, line_of, print_all, enable_logging-traces, enable_logging-twice,
  enable_logging-IsTracing, print_all-IsTracing,
}

module _ {F : Type 0} (os : Ofstream F) where
  -- `ConnectionContext::enableTracing`
  unfoldable pub enable_tracing : List ℕ → Tracing F → ℤ × Tracing F
  enable_tracing name t = let (opened, t') = enable_logging os name t in (status opened, t')

  -- `enableTracing` of the C interface
  unfoldable pub c_enable_tracing : List ℕ → Tracing F → ℤ × Tracing F
  unfolding enable_tracing
  c_enable_tracing name t = enable_tracing name t

  unfoldable pub async_enable_tracing : List ℕ → Tracing F → ℤ × Tracing F
  unfolding c_enable_tracing
  async_enable_tracing name t = c_enable_tracing name t

  -- Where the first `asyncEnableTracing` of a session opens its file, both that one and a second one,
  -- for the same or another file, return 0. The file then has exactly a line for each message between
  -- the two: what is printed after the second call is lost.
  pub async_enable_tracing-twice :
      (d : Documented os) (name name' : List ℕ) (t : Tracing F) (between after : List Message)
      → os.is_open t.file ≡ false
      → os.is_open (os.open_file name t.file) ≡ true
      → ((async_enable_tracing name t).0 ≡ pos 0)
        × ((async_enable_tracing name' (print_all between (async_enable_tracing name t).1)).0
            ≡ pos 0)
        × (d.contents
              (print_all after
                (async_enable_tracing name'
                  (print_all between (async_enable_tracing name t).1)).1).file
            ≡ map line_of between)
  unfolding async_enable_tracing
  async_enable_tracing-twice d name name' t between after closed opens =
      let (first, lines) = enable_logging-traces os d name t between closed opens in
      let t1 = (enable_logging os name t).1 in
      let traced =
        print_all-IsTracing os d true between t1
          (enable_logging-IsTracing os d name t closed opens) in
      let (second, same) =
        enable_logging-twice os d name' (print_all between t1) after traced.opened in
      (ap status first, ap status second, same ∙ lines)
