-- ===== src/System/Beside.antt =====
-- The parts of the controller in a world that also has the hooks of R's connections.
use r_exasol.Base.{Option, ap, none, refl, some, sym, ◌≡◌}
use r_exasol.Controller.{Parts}
use r_exasol.Controller.Keeps.{Keeps}
use r_exasol.Controller.Shutdown.{Unblocks}
use r_exasol.RConnection.Hooks.{Hooks}

module _ {V : Type 0} where
  abbrev pub aside : {A : Type 0} → Hooks → A × V → A × (V × Hooks)
  aside h (a, v) = (a, (v, h))

  abbrev pub maybe_aside : {A : Type 0} → Hooks → Option (A × V) → Option (A × (V × Hooks))
  maybe_aside h none = none
  maybe_aside h (some (a, v)) = some (a, (v, h))

  maybe_aside-keeps :
      {A : Type 0} (h : Hooks) (r : Option (A × V)) (a : A) (w : V × Hooks)
      → maybe_aside h r ≡ some (a, w)
      → w.1 ≡ h
  maybe_aside-keeps h none a w e = absurd (cc e)
  maybe_aside-keeps h (some (x, v)) a w e = let same : (v, h) ≡ w = cc e in ap (λ y. y.1) (sym same)

module _ {V Es Sock Ex Re Wr : Type 0} (p : Parts V Es Sock Ex Re Wr) where
  unfoldable pub beside_hooks : Parts (V × Hooks) Es Sock Ex Re Wr
  beside_hooks = record {
    create_establisher = λ protocol w. aside w.1 (p.create_establisher protocol w.0);
    establish = λ es host port w. aside w.1 (p.establish es host port w.0);
    create_executor = λ session w. aside w.1 (p.create_executor session w.0);
    execute = λ ex w. aside w.1 (p.execute ex w.0);
    join = λ ex w. maybe_aside w.1 (p.join ex w.0);
    is_done = λ ex w. p.is_done ex w.0;
    create_reader = λ s w. aside w.1 (p.create_reader s w.0);
    start_reader = λ re w. aside w.1 (p.start_reader re w.0);
    create_writer = λ s w. aside w.1 (p.create_writer s w.0);
    start_writer = λ wr w. aside w.1 (p.start_writer wr w.0);
    shutdown_rd_wr = λ s w. (p.shutdown_rd_wr s w.0, w.1);
    drop_socket = λ s w. (p.drop_socket s w.0, w.1);
    drop_executor = λ ex w. (p.drop_executor ex w.0, w.1);
    on_error = λ e w. (p.on_error e w.0, w.1);
  }

  -- They do not touch the hooks.
  pub beside_hooks-Keeps : Keeps beside_hooks (λ w. w.1)
  unfolding beside_hooks
  beside_hooks-Keeps = record {
    create_establisher = λ protocol w. refl;
    establish = λ es host port w. refl;
    create_executor = λ session w. refl;
    execute = λ ex w. refl;
    join = λ ex w w' msg h. maybe_aside-keeps w.1 (p.join ex w.0) msg w' h;
    create_reader = λ s w. refl;
    start_reader = λ re w. refl;
    create_writer = λ s w. refl;
    start_writer = λ wr w. refl;
    shutdown_rd_wr = λ s w. refl;
    drop_socket = λ s w. refl;
    drop_executor = λ ex w. refl;
    on_error = λ e w. refl;
  }

  unfoldable pub beside_hooks-Unblocks : Unblocks p → Unblocks beside_hooks
  unfolding beside_hooks
  beside_hooks-Unblocks u = record {
    is_running = λ ex w. u.is_running ex w.0;
    is_shut = λ s w. u.is_shut s w.0;
    shuts = λ s w. u.shuts s w.0;
    stays_shut = λ s w h. u.stays_shut s w.0 h;
    runs_on = λ ex s w h. u.runs_on ex s w.0 h;
    runs_without = λ ex s w h. u.runs_without ex s w.0 h;
    joins = λ ex s w h k.
        let (msg, w', e) = u.joins ex s w.0 h k in (msg, (w', w.1), ap (maybe_aside w.1) e);
  }
