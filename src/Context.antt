-- ===== src/Context.antt =====
-- `ConnectionContext` (src/r_exasol/connection_context.cpp), the interface to R, to which the C
-- functions of src/connection.cpp forward. R's side is a parameter: the connection objects, which are
-- handles, and the warning. The error handler of the context is `exa::onError`, which calls `error` of R
-- and never returns: it jumps out of the C++ code, and leaves the objects as they are then.
pub mod Destroy
pub mod Ends
pub mod Hooked
pub mod Init
pub mod Uses
use r_exasol.Base.{
  Bool, List, Option, Result, [], codes, err, false, if◌then◌else◌, minus_one, none, not, ok, pos,
  some, true, ℕ, ℤ, ◌%◌, ◌&&◌, ◌==◌, ◌∷◌,
}
use r_exasol.Answers.{Piece}
use r_exasol.Certificate.{CertificateException}
use r_exasol.Executor.Impl.{SessionInfo}
use r_exasol.Controller.{
  Parts, Controller, ProtocolType, http, https, shut_all, report, released, start_reading,
  start_writing,
}
use r_exasol.Controller

-- What R gets: a result, or an error that it raises.
pub data Returned (A : Type 0) : Type 0 where
  returned : A → Returned A
  raised : Returned A

pub record RSide (W Re Wr Cn : Type 0) : Type 0 where
  pub create_reading : Re → W → Cn × W
  pub create_writing : Wr → W → Cn × W
  pub release : Cn → W → W
  pub warn_not_done : W → W

pub record Context (Cn Sock Ex Re Wr : Type 0) : Type 0 where
  pub connection : Option Cn
  pub controller : Option (Controller Sock Ex Re Wr)

-- The constructor, and what is left when all is destroyed.
abbrev pub empty : {Cn Sock Ex Re Wr : Type 0} → Context Cn Sock Ex Re Wr
empty = record { connection = none; controller = none }

unfoldable pub same_text : List ℕ → List ℕ → Bool
same_text [] [] = true
same_text [] (b ∷ bs) = false
same_text (a ∷ more) [] = false
same_text (a ∷ more) (b ∷ bs) = let rest = same_text more bs in a == b && rest

-- `none` where `error` is called.
unfoldable pub convert_protocol : List ℕ → Option ProtocolType
unfolding same_text
convert_protocol protocol =
    if same_text (codes "http") protocol
    then some http
    else if same_text (codes "https") protocol
    then some https
    else none

-- `uint16_t hostPort = -1` without a controller.
unfoldable pub copy_host_port : {Cn Sock Ex Re Wr : Type 0} → Context Cn Sock Ex Re Wr → ℕ
copy_host_port c = elim c.controller [ none ↦ 65535 | some k ↦ k.info.proxy_port ]

unfoldable pub copy_host_name :
    {Cn Sock Ex Re Wr : Type 0} → Context Cn Sock Ex Re Wr → Option (List ℕ)
copy_host_name c = elim c.controller [ none ↦ none | some k ↦ some k.info.proxy_host ]

abbrev pub status : Bool → ℤ
status done = if done then pos 0 else minus_one

module _ {W Es Sock Ex Re Wr Cn : Type 0} (parts : Parts W Es Sock Ex Re Wr)
    (r : RSide W Re Wr Cn) where
  abbrev pub release_hook : Option Cn → W → W
  release_hook none w = w
  release_hook (some cn) w = r.release cn w

  -- `shutDown` calls the error handler last, where the query has a message, so that the jump leaves the
  -- controller with nothing.
  abbrev pub jumped : List Piece → Bool → Returned Bool
  jumped [] done = returned done
  jumped (x ∷ xs) done = raised

  unfoldable pub shut_controller :
      Controller Sock Ex Re Wr → W → Option (Returned Bool × Controller Sock Ex Re Wr × W)
  unfolding shut_all report released
  shut_controller k w = elim (shut_all parts k w) [
    | none ↦ none
    | some (msg, done, w1) ↦ some (jumped msg done, released parts k, report parts msg w1)
  ]

  -- What follows `shutDown`: a jump leaves the connection object and the controller.
  unfoldable pub destroyed :
      Bool
      → Option Cn
      → Returned Bool × Controller Sock Ex Re Wr × W
      → Returned ℤ × Context Cn Sock Ex Re Wr × W
  destroyed check_done cn (raised, k, w) =
      (raised, record { connection = cn; controller = some k }, w)
  destroyed check_done cn (returned done, k, w) =
      (returned (status done), empty, (if check_done && not done then r.warn_not_done w else w))

  -- `none` where the background thread does not end.
  unfoldable pub destroy_connection :
      Bool → Context Cn Sock Ex Re Wr → W → Option (Returned ℤ × Context Cn Sock Ex Re Wr × W)
  unfolding shut_controller destroyed
  destroy_connection check_done c w = elim c.controller [
    | none ↦
        let w0 = release_hook c.connection w in
        some (returned minus_one, empty, (if check_done then r.warn_not_done w0 else w0))
    | some k ↦ elim (shut_controller k (release_hook c.connection w)) [
      | none ↦ none
      | some t ↦ some (destroyed check_done c.connection t)
    ]
  ]

  -- What follows `connect`, which returns false only behind a call of the error handler, whose jump
  -- leaves the new controller. `none` where an exception leaves the function.
  unfoldable pub init_connected :
      Result CertificateException Bool × Controller Sock Ex Re Wr × W
      → Option (Returned ℤ × Context Cn Sock Ex Re Wr × W)
  init_connected (ok true, k, w) =
      some (returned (pos 0), record { connection = none; controller = some k }, w)
  init_connected (ok false, k, w) =
      some (raised, record { connection = none; controller = some k }, w)
  init_connected (err e, k, w) = none

  -- What follows `destroyConnection`. The port is cut to 16 bits.
  unfoldable pub init_destroyed :
      List ℕ
      → ℕ
      → Option ProtocolType
      → Returned ℤ × Context Cn Sock Ex Re Wr × W
      → Option (Returned ℤ × Context Cn Sock Ex Re Wr × W)
  unfolding init_connected
  init_destroyed host port protocol (raised, c, w) = some (raised, c, w)
  init_destroyed host port none (returned n, c, w) =
      some (raised, record { connection = none; controller = some Controller.create }, w)
  init_destroyed host port (some p) (returned n, c, w) =
      init_connected (Controller.connect parts p host (port % 65536) Controller.create w)

  unfoldable pub init_connection :
      List ℕ
      → ℕ
      → List ℕ
      → Context Cn Sock Ex Re Wr
      → W
      → Option (Returned ℤ × Context Cn Sock Ex Re Wr × W)
  unfolding destroy_connection convert_protocol init_destroyed
  init_connection host port protocol c w = elim (destroy_connection false c w) [
    | none ↦ none
    | some t ↦ init_destroyed host port (convert_protocol protocol) t
  ]

  -- What follows `startReading`, which gives no reader only behind a call of the error handler.
  unfoldable pub read_connected :
      Context Cn Sock Ex Re Wr
      → Option Re × Controller Sock Ex Re Wr × W
      → Returned (Option Cn) × Context Cn Sock Ex Re Wr × W
  read_connected c (none, k, w) = (raised, record c { controller = some k }, w)
  read_connected c (some re, k, w) =
      let (cn, w1) = r.create_reading re w in
      (returned (some cn), record { connection = some cn; controller = some k }, w1)

  unfoldable pub create_read_connection :
      SessionInfo
      → Context Cn Sock Ex Re Wr
      → W
      → Returned (Option Cn) × Context Cn Sock Ex Re Wr × W
  unfolding read_connected
  create_read_connection session c w = elim c.controller [
    | none ↦ (returned none, c, w)
    | some k ↦ read_connected c (start_reading parts session k w)
  ]

  unfoldable pub write_connected :
      Context Cn Sock Ex Re Wr
      → Option Wr × Controller Sock Ex Re Wr × W
      → Returned (Option Cn) × Context Cn Sock Ex Re Wr × W
  write_connected c (none, k, w) = (raised, record c { controller = some k }, w)
  write_connected c (some wr, k, w) =
      let (cn, w1) = r.create_writing wr w in
      (returned (some cn), record { connection = some cn; controller = some k }, w1)

  unfoldable pub create_write_connection :
      SessionInfo
      → Context Cn Sock Ex Re Wr
      → W
      → Returned (Option Cn) × Context Cn Sock Ex Re Wr × W
  unfolding write_connected
  create_write_connection session c w = elim c.controller [
    | none ↦ (returned none, c, w)
    | some k ↦ write_connected c (start_writing parts session k w)
  ]
