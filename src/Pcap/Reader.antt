-- ===== src/Pcap/Reader.antt =====
-- A reader of capture files by the layout of the format, for the records of
-- crates/ssiec-sv-publisher/src/pcap_writer.rs.
use svdc.Base.{
  ℕ, zero, suc, ◌+◌, ◌*◌, ◌/◌, ◌%◌, ◌^◌, ◌<◌, ◌≡◌, refl, leb, if◌then◌else◌, Option, none, some,
  List, [], ◌∷◌, ◌++◌, true, length, take, drop, slice, u32_le_bytes, arith, length-append,
  take-length-append, drop-length-append,
}
use svdc.Pcap.{record_header}

pub record Packet : Type 0 where
  pub ts_sec : ℕ
  pub ts_usec : ℕ
  pub bytes : List ℕ

abbrev pub from_le_bytes : List ℕ → ℕ
from_le_bytes [] = 0
from_le_bytes (b ∷ bs) = b + 256 * from_le_bytes bs

abbrev pub push_packet : Packet → Option (List Packet) → Option (List Packet)
push_packet p none = none
push_packet p (some ps) = some (p ∷ ps)

-- the packets of a file without its header: 16 bytes with the time and the length, then the frame
unfoldable pub read_packets : ℕ → List ℕ → Option (List Packet)
read_packets fuel [] = some []
read_packets zero (b ∷ bs) = none
read_packets (suc fuel) (b ∷ bs) =
    let n = from_le_bytes (slice (b ∷ bs) 8 4) in
    let frame = drop 16 (b ∷ bs) in
    let rest = read_packets fuel (drop n frame) in
    if leb n (length frame)
    then push_packet
        (record {
          ts_sec = from_le_bytes (slice (b ∷ bs) 0 4);
          ts_usec = from_le_bytes (slice (b ∷ bs) 4 4);
          bytes = take n frame;
        })
        rest
    else none

-- behind the header, with a round for each byte
unfoldable pub read_file : List ℕ → Option (List Packet)
read_file bytes = read_packets (length (drop 24 bytes)) (drop 24 bytes)

from_le_bytes-u32 : (v : ℕ) → from_le_bytes (u32_le_bytes (v % 2 ^ 32)) ≡ v % 2 ^ 32
from_le_bytes-u32 v = omega arith

pub read_packets-record :
    (fuel ts : ℕ) (frame rest : List ℕ)
    → length frame < 2 ^ 32
    → read_packets (suc fuel) (record_header ts frame ++ (frame ++ rest))
      ≡ push_packet
          (record { ts_sec = ts / 1000000 % 2 ^ 32; ts_usec = ts % 1000000; bytes = frame })
          (read_packets fuel rest)
unfolding read_packets
read_packets-record fuel ts frame rest h =
    let len : from_le_bytes (u32_le_bytes (length frame % 2 ^ 32)) ≡ length frame = omega arith in
    let sec = from_le_bytes-u32 (ts / 1000000) in
    let usec : from_le_bytes (u32_le_bytes (ts % 1000000)) ≡ ts % 1000000 = omega arith in
    let room : leb (length frame) (length (frame ++ rest)) ≡ true =
      grind (arith, length-append {A = ℕ}) in
    rw
      (
        len,
        sec,
        usec,
        room,
        take-length-append {A = ℕ} frame rest,
        drop-length-append {A = ℕ} frame rest,
      )
      refl

pub read_packets-nil : (fuel : ℕ) → read_packets fuel [] ≡ some []
unfolding read_packets
read_packets-nil zero = refl
read_packets-nil (suc fuel) = refl
