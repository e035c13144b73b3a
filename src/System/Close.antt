-- ===== src/System/Close.antt =====
-- The store once the controller has let go of the socket, and once it has let go of the executor.
use r_exasol.Base.{Option, none, refl, some, ◌∙◌, ◌≡◌}
use r_exasol.Executor.Impl.{Impl}
use r_exasol.Chunk.{Chunk}
use r_exasol.Certificate.{Certificate}
use r_exasol.Socket.Any.{AnySocket}
use r_exasol.System.{Outside, Store, placed, shut_socket, destroy_socket, destroy_executor}

pub shut_socket-executor :
    {W : Type 0} (o : Outside W) (s : Option (AnySocket W)) (st : Store W)
    → (shut_socket o s st).executor ≡ st.executor
shut_socket-executor o none st = refl
shut_socket-executor o (some s) st = refl

pub destroy_socket-executor :
    {W : Type 0} (o : Outside W) (s : Option (AnySocket W)) (st : Store W)
    → (destroy_socket o s st).executor ≡ st.executor
destroy_socket-executor o none st = refl
destroy_socket-executor o (some s) st = refl

-- The store has no socket and no executor.
abbrev pub IsClear : {W : Type 0} → Store W → Type 0
IsClear st = (st.socket ≡ none) × (st.executor ≡ none)

pub destroy_executor-IsClear :
    {W : Type 0} (o : Outside W) (x : Option Impl) (st : Store W)
    → st.executor ≡ x
    → st.socket ≡ none
    → IsClear (destroy_executor o x st)
destroy_executor-IsClear o none st e h = (h, e)
destroy_executor-IsClear o (some x) st e h = (h, refl)

module _ {W : Type 0} (o : Outside W) where
  -- The store once the socket is shut down and gone.
  abbrev pub closed : Store W → Store W
  closed st =
      let st1 = shut_socket o (placed st.sys st.socket) st in
      destroy_socket o (placed st1.sys st1.socket) st1

  pub closed-executor : (st : Store W) → (closed st).executor ≡ st.executor
  closed-executor st =
      let st1 = shut_socket o (placed st.sys st.socket) st in
      destroy_socket-executor o (placed st1.sys st1.socket) st1
      ∙ shut_socket-executor o (placed st.sys st.socket) st

  pub closed_at :
      (w : W) (s : Option (AnySocket W)) (c : Chunk) (certificate : Certificate) (x : Option Impl)
      → (closed (record {
        sys = w;
        socket = s;
        chunk = c;
        certificate = certificate;
        executor = x;
      })).socket
        ≡ none
  closed_at w none c certificate x = refl
  closed_at w (some s) c certificate x = refl
