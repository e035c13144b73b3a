-- ===== src/Context/Hooked.antt =====
-- The hooks of R's connections while R works with the context: none points to a deleted object.
use r_exasol.Base.{
  Bool, List, Option, Result, ap, err, false, none, ok, refl, some, sym, true, ℕ, ℤ, ◌%◌, ◌≡◌,
}
use mathlib.Core.Path.{subst}
use r_exasol.Certificate.{CertificateException}
use r_exasol.Executor.Impl.{SessionInfo}
use r_exasol.Controller.{Parts, Controller, ProtocolType, start_reading, start_writing}
use r_exasol.Controller
use r_exasol.Controller.Keeps.{Keeps, start_reading-keeps, start_writing-keeps, connect-keeps}
use r_exasol.RConnection.Hooks.{RObject, Hooks, get_connection_hook, with_hooks}
use r_exasol.Context.{
  Context, Returned, returned, raised, convert_protocol, destroy_connection, init_connection,
  init_connected, init_destroyed, read_connected, write_connected, create_read_connection,
  create_write_connection,
}
use r_exasol.Context.Uses.{
  NoneDangles, no_hooks, Call, step_init, step_destroy, step_read, step_write, step_other, Used,
  unused, used,
}
use r_exasol.Context.Ends.{
  same_some, unowned-NoneDangles, create_hooked-NoneDangles, destroy_connection-NoneDangles,
}

module _ {V Es Sock Ex Re Wr : Type 0} (parts : Parts (V × Hooks) Es Sock Ex Re Wr) (warn : V → V)
    (keeps : Keeps parts (λ w. w.1)) where
  init_connected-NoneDangles :
      (out : Returned ℤ × Context RObject Sock Ex Re Wr × (V × Hooks))
      (t : Result CertificateException Bool × Controller Sock Ex Re Wr × (V × Hooks))
      → init_connected parts (with_hooks warn) t ≡ some out
      → NoneDangles none t.2.1
      → NoneDangles none out.2.1
  unfolding init_connected
  init_connected-NoneDangles out (err e, k, w) h safe = absurd (cc h)
  init_connected-NoneDangles out (ok true, k, w) h safe =
      subst (NoneDangles none) (ap (λ x. x.2.1) (same_some h)) safe
  init_connected-NoneDangles out (ok false, k, w) h safe =
      subst (NoneDangles none) (ap (λ x. x.2.1) (same_some h)) safe

  init_destroyed-NoneDangles :
      (host : List ℕ) (port : ℕ) (p : Option ProtocolType)
      (t out : Returned ℤ × Context RObject Sock Ex Re Wr × (V × Hooks))
      → init_destroyed parts (with_hooks warn) host port p t ≡ some out
      → NoneDangles none t.2.1
      → NoneDangles none out.2.1
  unfolding init_destroyed
  init_destroyed-NoneDangles host port p (raised, c, w) out h safe =
      subst (NoneDangles none) (ap (λ x. x.2.1) (same_some h)) safe
  init_destroyed-NoneDangles host port none (returned n, c, w) out h safe =
      subst (NoneDangles none) (ap (λ x. x.2.1) (same_some h)) safe
  init_destroyed-NoneDangles host port (some p) (returned n, c, w) out h safe =
      init_connected-NoneDangles out
        (Controller.connect parts p host (port % 65536) Controller.create w) h
        (subst (NoneDangles none)
          (sym (connect-keeps parts (λ x. x.1) keeps p host (port % 65536) Controller.create w))
          safe)

  -- What `initConnection` makes of the old connection's end.
  abbrev after_end :
      List ℕ
      → ℕ
      → Option ProtocolType
      → Option (Returned ℤ × Context RObject Sock Ex Re Wr × (V × Hooks))
      → Option (Returned ℤ × Context RObject Sock Ex Re Wr × (V × Hooks))
  after_end host port p none = none
  after_end host port p (some t) = init_destroyed parts (with_hooks warn) host port p t

  after_end-NoneDangles :
      (host : List ℕ) (port : ℕ) (c : Context RObject Sock Ex Re Wr) (w : V × Hooks)
      (p : Option ProtocolType) (out : Returned ℤ × Context RObject Sock Ex Re Wr × (V × Hooks))
      (r : Option (Returned ℤ × Context RObject Sock Ex Re Wr × (V × Hooks)))
      → destroy_connection parts (with_hooks warn) false c w ≡ r
      → after_end host port p r ≡ some out
      → NoneDangles c.connection w.1
      → NoneDangles none out.2.1
  after_end-NoneDangles host port c w p out none e h safe = absurd (cc h)
  after_end-NoneDangles host port c w p out (some t) e h safe =
      init_destroyed-NoneDangles host port p t out h
        (destroy_connection-NoneDangles parts warn keeps false c w t e safe)

  read_connected-NoneDangles :
      (c : Context RObject Sock Ex Re Wr) (t : Option Re × Controller Sock Ex Re Wr × (V × Hooks))
      → c.connection ≡ none
      → NoneDangles none t.2.1
      → NoneDangles
          (read_connected parts (with_hooks warn) c t).1.connection
          (read_connected parts (with_hooks warn) c t).2.1
  unfolding read_connected with_hooks
  read_connected-NoneDangles c (none, k, w) e safe = subst (λ o. NoneDangles o w.1) (sym e) safe
  read_connected-NoneDangles c (some re, k, w) e safe = create_hooked-NoneDangles w.1 safe

  write_connected-NoneDangles :
      (c : Context RObject Sock Ex Re Wr) (t : Option Wr × Controller Sock Ex Re Wr × (V × Hooks))
      → c.connection ≡ none
      → NoneDangles none t.2.1
      → NoneDangles
          (write_connected parts (with_hooks warn) c t).1.connection
          (write_connected parts (with_hooks warn) c t).2.1
  unfolding write_connected with_hooks
  write_connected-NoneDangles c (none, k, w) e safe = subst (λ o. NoneDangles o w.1) (sym e) safe
  write_connected-NoneDangles c (some wr, k, w) e safe = create_hooked-NoneDangles w.1 safe

  create_read-NoneDangles :
      (session : SessionInfo) (o : Option RObject) (m : Option (Controller Sock Ex Re Wr))
      (w : V × Hooks)
      → o ≡ none
      → NoneDangles o w.1
      → NoneDangles
          (create_read_connection parts
            (with_hooks warn)
            session
            (record { connection = o; controller = m })
            w).1.connection
          (create_read_connection parts
            (with_hooks warn)
            session
            (record { connection = o; controller = m })
            w).2.1
  unfolding create_read_connection
  create_read-NoneDangles session o none w e safe = safe
  create_read-NoneDangles session o (some k) w e safe =
      read_connected-NoneDangles (record { connection = o; controller = some k })
        (start_reading parts session k w) e
        (subst (NoneDangles none) (sym (start_reading-keeps parts (λ x. x.1) keeps session k w))
          (subst (λ q. NoneDangles q w.1) e safe))

  create_write-NoneDangles :
      (session : SessionInfo) (o : Option RObject) (m : Option (Controller Sock Ex Re Wr))
      (w : V × Hooks)
      → o ≡ none
      → NoneDangles o w.1
      → NoneDangles
          (create_write_connection parts
            (with_hooks warn)
            session
            (record { connection = o; controller = m })
            w).1.connection
          (create_write_connection parts
            (with_hooks warn)
            session
            (record { connection = o; controller = m })
            w).2.1
  unfolding create_write_connection
  create_write-NoneDangles session o none w e safe = safe
  create_write-NoneDangles session o (some k) w e safe =
      write_connected-NoneDangles (record { connection = o; controller = some k })
        (start_writing parts session k w) e
        (subst (NoneDangles none) (sym (start_writing-keeps parts (λ x. x.1) keeps session k w))
          (subst (λ q. NoneDangles q w.1) e safe))

  Call-NoneDangles :
      (c : Context RObject Sock Ex Re Wr) (w : V × Hooks) (c' : Context RObject Sock Ex Re Wr)
      (w' : V × Hooks)
      → Call parts warn c w c' w'
      → NoneDangles c.connection w.1
      → NoneDangles c'.connection w'.1
  unfolding init_connection
  Call-NoneDangles c w c' w' (step_init host port protocol n _ _ _ _ h) safe =
      unowned-NoneDangles c'.connection w'.1 (
        after_end-NoneDangles host port c w (convert_protocol protocol) (n, c', w')
          (destroy_connection parts (with_hooks warn) false c w) refl h safe)
  Call-NoneDangles c w c' w' (step_destroy check_done n _ _ _ _ h) safe =
      unowned-NoneDangles c'.connection w'.1
        (destroy_connection-NoneDangles parts warn keeps check_done c w (n, c', w') h safe)
  Call-NoneDangles c w c' w' (step_read session _ _ e) safe =
      create_read-NoneDangles session c.connection c.controller w e safe
  Call-NoneDangles c w c' w' (step_write session _ _ e) safe =
      create_write-NoneDangles session c.connection c.controller w e safe
  Call-NoneDangles c w c' w' (step_other _ _ _ same) safe =
      subst (NoneDangles c.connection) (sym same) safe

  none_made-NoneDangles : NoneDangles none no_hooks
  unfolding get_connection_hook
  none_made-NoneDangles con = tt

  -- Whatever R does with the library, where it makes a connection for a transfer only when there is
  -- none, and where the controller's parts do not touch the hooks: a hook of a connection of R is null
  -- or points to the object that the context owns at that time, and that object has this connection of
  -- R. No hook points to an object that was deleted.
  pub Used-NoneDangles :
      (v : V) (c : Context RObject Sock Ex Re Wr) (w : V × Hooks)
      → Used parts warn v c w
      → NoneDangles c.connection w.1
  Used-NoneDangles v c w unused = none_made-NoneDangles
  Used-NoneDangles v c w (used b _ u _ before step) =
      Call-NoneDangles b u c w step (Used-NoneDangles v b u before)
