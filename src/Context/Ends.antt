-- ===== src/Context/Ends.antt =====
-- What `destroyConnection` does to the hooks of R's connections.
use r_exasol.Base.{
  ==_false→ne, ==→eq, Bool, Bool-cases, List, Option, ap, false, if◌then◌else◌, inl, inr, none, not,
  refl, some, sym, true, ℕ, ℤ, ◌&&◌, ◌==◌, ◌∙◌, ◌≡◌,
}
use mathlib.Core.Path.{subst}
use r_exasol.Answers.{Piece}
use r_exasol.Controller.{Parts, Controller, released, report, shut_all}
use r_exasol.Controller.Keeps.{Keeps, shut_all-keeps, report-keeps}
use r_exasol.RConnection.Hooks.{
  RObject, Hooks, store_connection_hook, get_connection_hook, create_hooked, release_hooked,
  with_hooks,
}
use r_exasol.Context.{
  Context, Returned, returned, raised, jumped, destroyed, release_hook, shut_controller,
  destroy_connection,
}
use r_exasol.Context.Uses.{Points, NoneDangles}

pub same_some : {A : Type 0} {x y : A} → some x ≡ some y → x ≡ y
same_some h = cc h

released-Points :
    (x : RObject) (con : ℕ) (v : Option ℕ)
    → (con == x.conn) ≡ false
    → Points (some x) con v
    → Points none con v
released-Points x con none ne p = tt
released-Points x con (some a) ne (y, same, at_con, at_a) =
    let same_x : x ≡ y = cc same in
    absurd (==_false→ne con x.conn ne (sym at_con ∙ ap RObject.conn (sym same_x)))

release_hooked-NoneDangles :
    (x : RObject) (h : Hooks) → NoneDangles (some x) h → NoneDangles none (release_hooked x h)
unfolding release_hooked store_connection_hook get_connection_hook
release_hooked-NoneDangles x h safe con = elim (Bool-cases (con == x.conn)) [
  | inl t ↦ rw t tt
  | inr t ↦ rw t (released-Points x con (h.priv con) t (safe con))
]

unowned-Points : (o : Option RObject) (con : ℕ) (v : Option ℕ) → Points none con v → Points o con v
unowned-Points o con none p = tt
unowned-Points o con (some a) (y, same, _, _) = absurd (cc same)

pub unowned-NoneDangles : (o : Option RObject) (h : Hooks) → NoneDangles none h → NoneDangles o h
unowned-NoneDangles o h safe con = unowned-Points o con (get_connection_hook con h) (safe con)

pub create_hooked-NoneDangles :
    (h : Hooks) → NoneDangles none h → NoneDangles (some (create_hooked h).0) (create_hooked h).1
unfolding create_hooked store_connection_hook get_connection_hook
create_hooked-NoneDangles h safe con = elim (Bool-cases (con == h.next)) [
  | inl t ↦ rw t (record { address = h.next; conn = h.next }, refl, sym (==→eq con h.next t), refl)
  | inr t ↦ rw t (unowned-Points _ con (h.priv con) (safe con))
]

module _ {V Es Sock Ex Re Wr : Type 0} (parts : Parts (V × Hooks) Es Sock Ex Re Wr) (warn : V → V)
    (keeps : Keeps parts (λ w. w.1)) where
  -- What `shut_controller` makes of what the controller has done.
  abbrev reported :
      Controller Sock Ex Re Wr
      → Option (List Piece × Bool × (V × Hooks))
      → Option (Returned Bool × Controller Sock Ex Re Wr × (V × Hooks))
  reported k none = none
  reported k (some (msg, done, w)) =
      some (jumped parts (with_hooks warn) msg done, released parts k, report parts msg w)

  reported-keeps :
      (k : Controller Sock Ex Re Wr) (w : V × Hooks)
      (t : Returned Bool × Controller Sock Ex Re Wr × (V × Hooks))
      (r : Option (List Piece × Bool × (V × Hooks)))
      → shut_all parts k w ≡ r
      → reported k r ≡ some t
      → t.2.1 ≡ w.1
  reported-keeps k w t none e h = absurd (cc h)
  reported-keeps k w t (some (msg, d, w1)) e h =
      let at_end : (jumped parts (with_hooks warn) msg d, released parts k, report parts msg w1)
          ≡ t =
        cc h in
      ap (λ x. x.2.1) (sym at_end)
      ∙ report-keeps parts (λ x. x.1) keeps msg w1
      ∙ shut_all-keeps parts (λ x. x.1) keeps k w w1 msg d e

  shut_controller-keeps :
      (k : Controller Sock Ex Re Wr) (w : V × Hooks)
      (t : Returned Bool × Controller Sock Ex Re Wr × (V × Hooks))
      → shut_controller parts (with_hooks warn) k w ≡ some t
      → t.2.1 ≡ w.1
  unfolding shut_controller
  shut_controller-keeps k w t h = reported-keeps k w t (shut_all parts k w) refl h

  release_hook-NoneDangles :
      (o : Option RObject) (w : V × Hooks)
      → NoneDangles o w.1
      → NoneDangles none (release_hook parts (with_hooks warn) o w).1
  unfolding with_hooks
  release_hook-NoneDangles none w safe = safe
  release_hook-NoneDangles (some x) w safe = release_hooked-NoneDangles x w.1 safe

  warned-keeps : (b : Bool) (w : V × Hooks) → (if b then (warn w.0, w.1) else w).1 ≡ w.1
  warned-keeps true w = refl
  warned-keeps false w = refl

  destroyed-keeps :
      (check_done : Bool) (o : Option RObject)
      (t : Returned Bool × Controller Sock Ex Re Wr × (V × Hooks))
      → (destroyed parts (with_hooks warn) check_done o t).2.1 ≡ t.2.1
  unfolding destroyed with_hooks
  destroyed-keeps check_done o (raised, k, w) = refl
  destroyed-keeps check_done o (returned done, k, w) = warned-keeps (check_done && not done) w

  -- What `destroyConnection` makes of what `shutDown` leaves.
  abbrev ended :
      Bool
      → Option RObject
      → Option (Returned Bool × Controller Sock Ex Re Wr × (V × Hooks))
      → Option (Returned ℤ × Context RObject Sock Ex Re Wr × (V × Hooks))
  ended check_done o none = none
  ended check_done o (some t) = some (destroyed parts (with_hooks warn) check_done o t)

  ended-keeps :
      (check_done : Bool) (o : Option RObject) (k : Controller Sock Ex Re Wr) (w : V × Hooks)
      (out : Returned ℤ × Context RObject Sock Ex Re Wr × (V × Hooks))
      (r : Option (Returned Bool × Controller Sock Ex Re Wr × (V × Hooks)))
      → shut_controller parts (with_hooks warn) k w ≡ r
      → ended check_done o r ≡ some out
      → out.2.1 ≡ w.1
  ended-keeps check_done o k w out none e h = absurd (cc h)
  ended-keeps check_done o k w out (some t) e h =
      let at_end : destroyed parts (with_hooks warn) check_done o t ≡ out = cc h in
      ap (λ x. x.2.1) (sym at_end) ∙ destroyed-keeps check_done o t ∙ shut_controller-keeps k w t e

  over_controller-keeps :
      (check_done : Bool) (o : Option RObject) (k : Option (Controller Sock Ex Re Wr))
      (w : V × Hooks) (out : Returned ℤ × Context RObject Sock Ex Re Wr × (V × Hooks))
      → destroy_connection parts
          (with_hooks warn)
          check_done
          (record { connection = o; controller = k })
          w
        ≡ some out
      → out.2.1 ≡ (release_hook parts (with_hooks warn) o w).1
  unfolding destroy_connection with_hooks
  over_controller-keeps check_done o none w out h =
      let w0 = release_hook parts (with_hooks warn) o w in
      ap (λ x. x.2.1) (sym (same_some h)) ∙ warned-keeps check_done w0
  over_controller-keeps check_done o (some k) w out h =
      let w0 = release_hook parts (with_hooks warn) o w in
      ended-keeps check_done o k w0 out (shut_controller parts (with_hooks warn) k w0) refl h

  -- Whether it returns or raises an error, no hook points anywhere behind it.
  pub destroy_connection-NoneDangles :
      (check_done : Bool) (c : Context RObject Sock Ex Re Wr) (w : V × Hooks)
      (out : Returned ℤ × Context RObject Sock Ex Re Wr × (V × Hooks))
      → destroy_connection parts (with_hooks warn) check_done c w ≡ some out
      → NoneDangles c.connection w.1
      → NoneDangles none out.2.1
  destroy_connection-NoneDangles check_done c w out h safe =
      subst (NoneDangles none)
        (sym (over_controller-keeps check_done c.connection c.controller w out h))
        (release_hook-NoneDangles c.connection w safe)
