-- ===== src/Ingress.antt =====
-- crates/svdc-ingress: the frames that the ingress hands to the aligner (lib.rs, timestamp.rs,
-- decoder.rs). Its ring and the loopback subscriber are the children.
pub mod Decoder
pub mod Ring
pub mod Loopback
mod Tests
use svdc.Base.{ℕ, List}
use svdc.Wire.Frame.{SampleData}

pub record IngressTimestamp : Type 0 where
  pub unix_ns : ℕ

abbrev pub from_unix_ns : ℕ → IngressTimestamp
from_unix_ns unix_ns = record { unix_ns = unix_ns }

pub record DecodedSample : Type 0 where
  pub sv_id : List ℕ
  pub smp_cnt : ℕ
  pub conf_rev : ℕ
  pub smp_synch : ℕ
  pub smp_rate : ℕ
  pub samples : SampleData

pub record IngressFrame : Type 0 where
  pub timestamp : IngressTimestamp
  pub samples : List DecodedSample
