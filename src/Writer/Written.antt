-- ===== src/Writer/Written.antt =====
-- How many bytes a call of the writer appends.
use pcap_constrictor_afpacke.Bytes.{Bytes}
use pcap_constrictor_afpacke.Base.{
  ℕ, ◌+◌, ◌≤◌, ◌≡◌, arith, Bool, true, if◌then◌else◌, ◌++◌, length, length-append, length-take,
  List, [], ◌∷◌, ap, sym, ◌∙◌, append_assoc, append-nil, if-elim, leb, ltb, refl,
}
use pcap_constrictor_afpacke.Base.Result.{Result, ok, err, ◌>>=◌}
use pcap_constrictor_afpacke.Packet.{CapturedPacket, safe_captured_len}
use pcap_constrictor_afpacke.Writer.{
  PcapWriter, WriteError, write_failed, write_bytes, write_packet,
}
use pcap_constrictor_afpacke.Writer.Layout.{
  record_bytes, missing_header, mark_header, write_packet_lem,
}

-- The bytes of the file header that `write_packet` still has to write.
abbrev pub header_size : Bool → ℕ
header_size written = if written then 0 else 24

abbrev pub IsWritten : PcapWriter → CapturedPacket → ℕ → Result WriteError PcapWriter → Type 0
IsWritten w p incl_len (err e) = e ≡ write_failed
IsWritten w p incl_len (ok w') =
    (w'.global_header_written ≡ true)
    × (length w'.output.contents
        ≡ length w.output.contents + header_size w.global_header_written + 16 + incl_len)
    × (w'.output.contents ≡ w.output.contents ++ (missing_header w ++ record_bytes p incl_len))
    × (w'.snaplen ≡ w.snaplen)

write_bytes-IsWritten :
    (w : PcapWriter) (p : CapturedPacket) (incl_len : ℕ)
    → incl_len ≤ length p.packet.data_span
    → IsWritten w p incl_len
        (write_bytes w (missing_header w ++ record_bytes p incl_len) >>= mark_header)
unfolding write_bytes
write_bytes-IsWritten w p incl_len h =
    let more = missing_header w ++ record_bytes p incl_len in
    if-elim (λ m. IsWritten w p incl_len (m >>= mark_header)) (leb (length more) w.output.room) _ _
      (λ e. (
        refl,
        ground (
          arith,
          length-append w.output.contents more,
          length-append (missing_header w) (record_bytes p incl_len),
          length-take incl_len p.packet.data_span,
          h,
        ),
        refl,
        refl,
      ))
      (λ e. refl)

-- A length within the captured bytes is never refused: either the stream fails, or the header,
-- where it was missing, and 16 + `incl_len` bytes are appended.
pub write_packet-IsWritten :
    (w : PcapWriter) (p : CapturedPacket) (incl_len : ℕ)
    → incl_len ≤ safe_captured_len p.packet
    → incl_len ≤ length p.packet.data_span
    → IsWritten w p incl_len (write_packet w p incl_len)
write_packet-IsWritten w p incl_len safe h = rw (write_packet_lem w p incl_len) (
    if-elim (IsWritten w p incl_len) (ltb (safe_captured_len p.packet) incl_len) _ _
      (λ e. absurd (ground (arith, e, safe))) (λ e. write_bytes-IsWritten w p incl_len h))

-- The packets that were written, each with its length in the file.
abbrev pub Records : Type 0
Records = List (CapturedPacket × ℕ)

abbrev pub records_bytes : Records → Bytes
records_bytes [] = []
records_bytes ((p, incl_len) ∷ records) = record_bytes p incl_len ++ records_bytes records

abbrev pub captured_total : Records → ℕ
captured_total [] = 0
captured_total ((p, incl_len) ∷ records) = p.packet.captured_len + captured_total records

abbrev pub written_total : Records → ℕ
written_total [] = 0
written_total ((p, incl_len) ∷ records) = incl_len + written_total records

pub records_bytes-append :
    (records : Records) (p : CapturedPacket) (incl_len : ℕ)
    → records_bytes (records ++ (p, incl_len) ∷ [])
      ≡ records_bytes records ++ record_bytes p incl_len
records_bytes-append [] p incl_len = append-nil (record_bytes p incl_len)
records_bytes-append ((q, n) ∷ records) p incl_len =
    ap (λ bytes. record_bytes q n ++ bytes) (records_bytes-append records p incl_len)
    ∙ sym (append_assoc (record_bytes q n) (records_bytes records) (record_bytes p incl_len))

pub captured_total-append :
    (records : Records) (p : CapturedPacket) (incl_len : ℕ)
    → captured_total (records ++ (p, incl_len) ∷ [])
      ≡ captured_total records + p.packet.captured_len
captured_total-append [] p incl_len = omega arith
captured_total-append ((q, n) ∷ records) p incl_len =
    omega (arith, captured_total-append records p incl_len)

pub written_total-append :
    (records : Records) (p : CapturedPacket) (incl_len : ℕ)
    → written_total (records ++ (p, incl_len) ∷ []) ≡ written_total records + incl_len
written_total-append [] p incl_len = omega arith
written_total-append ((q, n) ∷ records) p incl_len =
    omega (arith, written_total-append records p incl_len)
