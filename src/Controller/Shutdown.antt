-- ===== src/Controller/Shutdown.antt =====
-- The order of the steps of `shutDown`: the socket is shut down before the thread is joined.
use r_exasol.Base.{Bool, List, Option, [], none, refl, some, true, ◌≡◌}
use r_exasol.Answers.{Piece}
use r_exasol.Controller.{Parts, Controller, join_executor, shut_all}

module _ {W Es Sock Ex Re Wr : Type 0} (parts : Parts W Es Sock Ex Re Wr) where
  -- The server ends the query once the socket is shut down, and then the background thread ends. It is
  -- asked of executors whose query runs.
  pub record Unblocks : Type 1 where
    pub is_running : Ex → W → Type 0
    pub is_shut : Sock → W → Bool
    pub shuts : (s : Sock) (w : W) → is_shut s (parts.shutdown_rd_wr s w) ≡ true
    pub stays_shut :
        (s : Sock) (w : W) → is_shut s w ≡ true → is_shut s (parts.drop_socket s w) ≡ true
    pub runs_on :
        (ex : Ex) (s : Sock) (w : W) → is_running ex w → is_running ex (parts.shutdown_rd_wr s w)
    pub runs_without :
        (ex : Ex) (s : Sock) (w : W) → is_running ex w → is_running ex (parts.drop_socket s w)
    pub joins :
        (ex : Ex) (s : Sock) (w : W)
        → is_running ex w
        → is_shut s w ≡ true
        → (msg : List Piece) × (w' : W) × (parts.join ex w ≡ some (msg, w'))

  module _ (u : Unblocks) where
    join_executor-returns :
        (o : Option Ex) (s : Sock) (w : W)
        → ((ex : Ex) → o ≡ some ex → u.is_running ex w)
        → u.is_shut s w ≡ true
        → (msg : List Piece) × (done : Bool) × (w' : W) × (join_executor parts o w
            ≡ some (msg, done, w'))
    unfolding join_executor
    join_executor-returns none s w runs h = ([], true, w, refl)
    join_executor-returns (some ex) s w runs h =
        let (msg, w', e) = u.joins ex s w (runs ex refl) h in
        (msg, parts.is_done ex w', parts.drop_executor ex w', rw (e, join_executor) refl)

    pub shut_all-returns :
        (c : Controller Sock Ex Re Wr) (s : Sock) (w : W)
        → c.info.socket ≡ some s
        → ((ex : Ex) → c.executor ≡ some ex → u.is_running ex w)
        → (msg : List Piece) × (done : Bool) × (w' : W) × (shut_all parts c w
            ≡ some (msg, done, w'))
    unfolding shut_all
    shut_all-returns c s w e runs =
        let down = parts.shutdown_rd_wr s w in
        let (msg, done, w', j) =
          join_executor-returns c.executor s (parts.drop_socket s down)
            (λ ex x. u.runs_without ex s down (u.runs_on ex s w (runs ex x)))
            (u.stays_shut s down (u.shuts s w)) in
        (msg, done, w', rw (e, shut_all) j)
