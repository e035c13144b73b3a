-- ===== src/Tests/Endings.antt =====
-- The end of a transfer whose query runs, on the whole library.
use r_exasol.RConnection.Hooks.{RObject, Hooks}
use r_exasol.System.Session.{Session}

abbrev object : RObject
object = record { address = 0; conn = 0 }
