-- ===== src/Context/Uses.antt =====
-- What R can do with the context, and what the hooks of its connections then may point to.
use r_exasol.Base.{Bool, List, Option, none, some, ℕ, ℤ, ◌≡◌}
use r_exasol.Controller.{Parts}
use r_exasol.Executor.Impl.{SessionInfo}
use r_exasol.RConnection.Hooks.{RObject, Hooks, get_connection_hook, with_hooks}
use r_exasol.Context.{
  Context, Returned, empty, destroy_connection, init_connection, create_read_connection,
  create_write_connection,
}

-- What a hook points to: nothing, or the object that the context owns, which knows that connection of R.
abbrev pub Points : Option RObject → ℕ → Option ℕ → Type 0
Points o con none = Unit {0}
Points o con (some a) = (x : RObject) × (o ≡ some x) × (x.conn ≡ con) × (x.address ≡ a)

-- No hook points to an object that is gone.
abbrev pub NoneDangles : Option RObject → Hooks → Type 0
NoneDangles o h = (con : ℕ) → Points o con (get_connection_hook con h)

abbrev pub no_hooks : Hooks
no_hooks = record { priv = λ con. none; next = 0 }

module _ {V Es Sock Ex Re Wr : Type 0} (parts : Parts (V × Hooks) Es Sock Ex Re Wr)
    (warn : V → V) where
  -- What R can do, on the context's singleton. It makes a connection for a transfer only after an
  -- `initConnection`, as exa.readData and exa.writeData do (R/exa.readData.R and R/exa.writeData.R). Each call may raise
  -- an error.
  pub data Call
      : Context RObject Sock Ex Re Wr
        → V × Hooks
        → Context RObject Sock Ex Re Wr
        → V × Hooks
        → Type 0 where
    step_init :
        (host : List ℕ) (port : ℕ) (protocol : List ℕ) (n : Returned ℤ)
        (c c' : Context RObject Sock Ex Re Wr) (w w' : V × Hooks)
        → init_connection parts (with_hooks warn) host port protocol c w ≡ some (n, c', w')
        → Call c w c' w'
    step_destroy :
        (check_done : Bool) (n : Returned ℤ) (c c' : Context RObject Sock Ex Re Wr)
        (w w' : V × Hooks)
        → destroy_connection parts (with_hooks warn) check_done c w ≡ some (n, c', w')
        → Call c w c' w'
    step_read :
        (session : SessionInfo) (c : Context RObject Sock Ex Re Wr) (w : V × Hooks)
        → c.connection ≡ none
        → Call c w
            (create_read_connection parts (with_hooks warn) session c w).1
            (create_read_connection parts (with_hooks warn) session c w).2
    step_write :
        (session : SessionInfo) (c : Context RObject Sock Ex Re Wr) (w : V × Hooks)
        → c.connection ≡ none
        → Call c w
            (create_write_connection parts (with_hooks warn) session c w).1
            (create_write_connection parts (with_hooks warn) session c w).2
    -- A transfer through R's connection, and whatever else leaves the hooks alone.
    step_other : (c : Context RObject Sock Ex Re Wr) (w w' : V × Hooks) → w'.1 ≡ w.1 → Call c w c w'

  -- The states that are reached from the first use of the library.
  pub data Used (v : V) : Context RObject Sock Ex Re Wr → V × Hooks → Type 0 where
    unused : Used v empty (v, no_hooks)
    used :
        (c c' : Context RObject Sock Ex Re Wr) (w w' : V × Hooks)
        → Used v c w
        → Call c w c' w'
        → Used v c' w'
