-- ===== src/Context/Destroy.antt =====
-- Destroying a connection.
use r_exasol.Base.{Option, false, some, ℤ, ◌≡◌}
use r_exasol.Controller.{Parts, Controller, released}
use r_exasol.Context.{Returned, returned, raised, RSide, Context, empty, destroy_connection}

module _ {W Es Sock Ex Re Wr Cn : Type 0} (parts : Parts W Es Sock Ex Re Wr)
    (r : RSide W Re Wr Cn) where
  -- What `destroyConnection` leaves: nothing, or, where it raises an error, a controller that has
  -- released all.
  abbrev pub Ended :
      Option Cn → Controller Sock Ex Re Wr → Returned ℤ → Context Cn Sock Ex Re Wr → Type 0
  Ended o k (returned n) c = c ≡ empty
  Ended o k raised c = c ≡ record { connection = o; controller = some (released parts k) }

  -- A second call.
  abbrev pub Finishes : Context Cn Sock Ex Re Wr → W → Type 0
  Finishes c w =
      (n : ℤ) × (w' : W) × (destroy_connection parts r false c w ≡ some (returned n, empty, w'))
