-- ===== src/Ezsp/Command/Interface.antt =====
-- The trait `Command`, with the codecs of the command and of its response.
use rsezsp.Prelude.{Bool}
use rsezsp.Ezsp.FrameId.{FrameId}
use rsezsp.Ezsp.Version.{ProtocolVersion}
use rsezsp.Ezsp.Exec.{Exec}
use rsezsp.Ezsp.Codec.Reader.{Reader}
use rsezsp.Ezsp.Codec.Writer.{Writer}

pub record Command (C Response : Type 0) : Type 0 where
  pub id : FrameId
  pub is_available : ProtocolVersion → Bool
  pub encode : C → Exec Writer (Unit {0})
  pub decode : Exec Reader Response
