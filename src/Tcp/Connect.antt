-- ===== src/Tcp/Connect.antt =====
-- When a connection is there, and what the destructor then does to it.
use r_exasol.Base.{
  List, ap, ap₂, false, guard-ok, is_neg, ok, or_throw-ok, refl, some, sym, then_run-ok, ℕ, ℤ, ◌∙◌,
  ◌≡◌,
}
use r_exasol.Tcp.{
  Kernel, SocketImpl, shut_rd_wr, open_descriptor, find_host, connect_to, connect, destroy,
}

module _ {W : Type 0} (kernel : Kernel W) where
  -- The calls that make up a connection, and that they all succeeded.
  pub record Connected (host : List ℕ) (port : ℕ) (s s' : SocketImpl W) : Type 0 where
    pub opened : W
    pub found : W
    pub address : List ℕ
    pub status : ℤ
    pub open_call : kernel.sys_socket s.world ≡ (s'.descriptor, opened)
    pub is_open : is_neg s'.descriptor ≡ false
    pub find_call : kernel.gethostbyname opened host ≡ (some address, found)
    pub connect_call : kernel.sys_connect found s'.descriptor address port ≡ (status, s'.world)
    pub is_connected : is_neg status ≡ false

  Connected-steps :
      (host : List ℕ) (port : ℕ) (s s1 s2 s' : SocketImpl W) (address : List ℕ)
      → open_descriptor kernel s ≡ (ok tt, s1)
      → find_host kernel host s1 ≡ (ok address, s2)
      → connect_to kernel host port address s2 ≡ (ok tt, s')
      → Connected host port s s'
  unfolding open_descriptor find_host connect_to
  Connected-steps host port s s1 s2 s' address first second third =
      let (is_open, e1) = guard-ok _ _ _ s1 first in
      let (found, e2) = or_throw-ok _ _ _ s2 address second in
      let (is_connected, e3) = guard-ok _ _ _ s' third in
      let d3 : s2.descriptor ≡ s'.descriptor = ap SocketImpl.descriptor e3 in
      let d1 : (kernel.sys_socket s.world).0 ≡ s'.descriptor =
        ap SocketImpl.descriptor e1 ∙ ap SocketImpl.descriptor e2 ∙ d3 in
      record {
        opened = s1.world;
        found = s2.world;
        address = address;
        status = (kernel.sys_connect s2.world s2.descriptor address port).0;
        open_call = ap₂ (λ d w. (d, w)) d1 (ap SocketImpl.world e1);
        is_open = rw (← d1) is_open;
        find_call = ap₂ (λ o w. (o, w)) found (ap SocketImpl.world e2);
        connect_call =
            ap (λ d. kernel.sys_connect s2.world d address port) (sym d3)
            ∙ ap (λ w. ((kernel.sys_connect s2.world s2.descriptor address port).0, w))
                (ap SocketImpl.world e3);
        is_connected = is_connected;
      }

  -- `connect` succeeds only where the socket was opened, the host found and the connection made, and
  -- the descriptor is then the open socket's, which the destructor shuts down in both directions.
  pub connect-Connected :
      (host : List ℕ) (port : ℕ) (s s' : SocketImpl W)
      → connect kernel host port s ≡ (ok tt, s')
      → Connected host port s s'
        × (destroy kernel s' ≡ kernel.sys_shutdown s'.world s'.descriptor shut_rd_wr)
  unfolding connect destroy
  connect-Connected host port s s' h =
      let (_, s1, first, h1) = then_run-ok (open_descriptor kernel s) _ tt s' h in
      let (address, s2, second, third) = then_run-ok (find_host kernel host s1) _ tt s' h1 in
      let made = Connected-steps host port s s1 s2 s' address first second third in
      (made, rw made.is_open refl)
