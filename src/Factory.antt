-- ===== src/Factory.antt =====
-- `ConnectionFactoryImpl` (src/r_exasol/connection/connection_factory_impl.cpp) without its
-- certificate. Its one chunk is static: each reader and writer takes it over, and resets it.
use r_exasol.Base.{Option, Result, err, ok}
use r_exasol.Chunk.{Chunk}
use r_exasol.Certificate.{CryptoLibrary, Certificate, CertificateException, get_certificate}
use r_exasol.Controller.{ProtocolType, http, https, other}
use r_exasol.Reader.{Reader}
use r_exasol.Reader
use r_exasol.Writer.{Writer}
use r_exasol.Writer

-- `createHttpReader` on the static chunk
unfoldable pub create_http_reader : {S : Type 0} → Option S → Chunk → Reader S
create_http_reader socket chunk = Reader.create socket chunk

-- `createHttpWriter`
unfoldable pub create_http_writer : {S : Type 0} → Option S → Chunk → Writer S
create_http_writer socket chunk = Writer.create socket chunk

pub data Establisher : Type 0 where
  http_establisher : Establisher
  https_establisher : Certificate → Establisher

-- What comes of `createConnectionEstablisher`: an establisher, the error handler's call, or the
-- exception of `mkcert`, which nothing here catches.
pub data Outcome : Type 0 where
  made : Establisher → Outcome
  unknown_protocol : Outcome
  uncaught : CertificateException → Outcome

unfoldable pub certified :
    {W : Type 0}
    → Result CertificateException Certificate × Certificate × W
    → Outcome × Certificate × W
certified (ok c, stored, w) = (made (https_establisher c), stored, w)
certified (err e, stored, w) = (uncaught e, stored, w)

unfoldable pub create_connection_establisher :
    {W : Type 0} → CryptoLibrary W → ProtocolType → Certificate → W → Outcome × Certificate × W
unfolding certified get_certificate
create_connection_establisher crypto http stored w = (made http_establisher, stored, w)
create_connection_establisher crypto https stored w = certified (get_certificate crypto stored w)
create_connection_establisher crypto (other n) stored w = (unknown_protocol, stored, w)
