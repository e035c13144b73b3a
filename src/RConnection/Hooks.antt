-- ===== src/RConnection/Hooks.antt =====
-- The hooks in R's connections (src/r_exasol/rconnection/connection_hook.h) and R's side of the context
-- with them: each connection of R has memory for one pointer, to the weak pointer in the object that
-- the context owns. What the weak pointer gives is in the parent module.
use r_exasol.Base.{Option, if◌then◌else◌, none, some, ℕ, ◌+◌, ◌==◌}
use r_exasol.Context.{RSide}

-- `RReaderConnection` or `RWriterConnection`: its address, and its `mConn`.
pub record RObject : Type 0 where
  pub address : ℕ
  pub conn : ℕ

-- What `priv` of each connection of R points to, `none` for null; the objects and R's connections that
-- were made so far have smaller numbers.
pub record Hooks : Type 0 where
  pub priv : ℕ → Option ℕ
  pub next : ℕ

unfoldable pub store_connection_hook : ℕ → Option ℕ → Hooks → Hooks
store_connection_hook con value h = record h { priv = λ k. if k == con then value else h.priv k }

unfoldable pub get_connection_hook : ℕ → Hooks → Option ℕ
get_connection_hook con h = h.priv con

-- The constructor of the object and its `create`, for both classes: the new connection of R gets the
-- address of the object.
unfoldable pub create_hooked : Hooks → RObject × Hooks
unfolding store_connection_hook
create_hooked h = (
  record { address = h.next; conn = h.next },
  store_connection_hook h.next (some h.next) (record h { next = h.next + 1 }),
)

-- `release` of both classes
unfoldable pub release_hooked : RObject → Hooks → Hooks
unfolding store_connection_hook
release_hooked x h = store_connection_hook x.conn none h

-- R's side of the context, in a world that has the hooks; the warning is a parameter.
unfoldable pub with_hooks : {V Re Wr : Type 0} → (V → V) → RSide (V × Hooks) Re Wr RObject
unfolding create_hooked release_hooked
with_hooks warn = record {
  create_reading = λ re w. ((create_hooked w.1).0, (w.0, (create_hooked w.1).1));
  create_writing = λ wr w. ((create_hooked w.1).0, (w.0, (create_hooked w.1).1));
  release = λ x w. (w.0, release_hooked x w.1);
  warn_not_done = λ w. (warn w.0, w.1);
}
