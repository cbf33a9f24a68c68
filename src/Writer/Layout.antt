-- ===== src/Writer/Layout.antt =====
-- The bytes that the writer appends to a stream.
use pcap_constrictor_afpacke.Base.{
  Bool-cases, inl, inr, ℕ, ◌-◌, ◌≡◌, refl, sym, ap, ◌∙◌, max, true, false, if◌then◌else◌, ltb,
  arith, [], ◌++◌, append_assoc, length, length-append, take,
}
use pcap_constrictor_afpacke.Base.Result.{Result, ok, err, ◌>>=◌}
use pcap_constrictor_afpacke.Bytes.{Bytes}
use pcap_constrictor_afpacke.Packet.{CapturedPacket, safe_captured_len}
use pcap_constrictor_afpacke.Writer.{
  PcapWriter, WriteError, incl_len_exceeds_packet, write_bytes, le16, le32, write_le16, write_le32,
  write_global_header, timestamp_sec, timestamp_usec, write_packet, ethernet_link_type,
}

-- The file header, and a record, as the format has them.
abbrev pub global_header_bytes : ℕ → Bytes
global_header_bytes snaplen =
    le32 0xA1B2C3D4
    ++ le16 2
    ++ le16 4
    ++ le32 0
    ++ le32 0
    ++ le32 snaplen
    ++ le32 ethernet_link_type

abbrev pub record_bytes : CapturedPacket → ℕ → Bytes
record_bytes p incl_len =
    le32 (timestamp_sec p.timestamp)
    ++ le32 (timestamp_usec p.timestamp)
    ++ le32 incl_len
    ++ le32 (max p.packet.original_len incl_len)
    ++ take incl_len p.packet.data_span

abbrev pub missing_header : PcapWriter → Bytes
missing_header w = if w.global_header_written then [] else global_header_bytes w.snaplen

abbrev pub mark_header : PcapWriter → Result WriteError PcapWriter
mark_header w = ok (record w { global_header_written = true })

-- The writer once these bytes are out.
abbrev pub appended : PcapWriter → Bytes → PcapWriter
appended w data_bytes = record w {
  output = record {
    contents = w.output.contents ++ data_bytes;
    room = w.output.room - length data_bytes;
  };
}

appended-append : (w : PcapWriter) (a b : Bytes) → appended (appended w a) b ≡ appended w (a ++ b)
appended-append w a b =
    let same_room : w.output.room - length a - length b ≡ w.output.room - length (a ++ b) =
      omega (arith, length-append a b) in
    λ i. record w {
      output = record { contents = append_assoc w.output.contents a b i; room = same_room i };
    }

-- Two writes one after the other are one write of both parts, whatever follows them.
write_bytes-step :
    (w : PcapWriter) (a b : Bytes) (k f : PcapWriter → Result WriteError PcapWriter)
    → ((w' : PcapWriter) → w'.snaplen ≡ w.snaplen → k w' ≡ (write_bytes w' b >>= f))
    → (write_bytes w a >>= k) ≡ (write_bytes w (a ++ b) >>= f)
unfolding write_bytes
write_bytes-step w a b k f h =
    ground (arith, length-append a b, appended-append w a b, h (appended w a) refl)

bind-ok : (m : Result WriteError PcapWriter) → (m >>= λ w. ok w) ≡ m
bind-ok (err e) = refl
bind-ok (ok w) = refl

header_fields :
    (w : PcapWriter)
    → (do
      w ← write_le32 w 0xA1B2C3D4
      w ← write_le16 w 2
      w ← write_le16 w 4
      w ← write_le32 w 0
      w ← write_le32 w 0
      w ← write_le32 w w.snaplen
      w ← write_le32 w ethernet_link_type
      mark_header w)
      ≡ (write_bytes w (global_header_bytes w.snaplen) >>= mark_header)
unfolding write_le16 write_le32
header_fields w = write_bytes-step w _ _ _ mark_header (λ w1 e1.
    write_bytes-step w1 _ _ _ mark_header (λ w2 e2. write_bytes-step w2 _ _ _ mark_header (λ w3 e3.
      write_bytes-step w3 _ _ _ mark_header (λ w4 e4.
        write_bytes-step w4 _ _ _ mark_header (λ w5 e5.
          write_bytes-step w5 (le32 w5.snaplen) (le32 ethernet_link_type) _ mark_header
            (λ w6 e6. refl)
          ∙ ap (λ n. write_bytes w5 (le32 n ++ le32 ethernet_link_type) >>= mark_header)
              (e5 ∙ e4 ∙ e3 ∙ e2 ∙ e1))))))

write_global_header_written :
    (w : PcapWriter) → w.global_header_written ≡ true → write_global_header w ≡ ok w
unfolding write_global_header
write_global_header_written w h = simp h refl

pub write_global_header_lem :
    (w : PcapWriter)
    → w.global_header_written ≡ false
    → write_global_header w ≡ (write_bytes w (global_header_bytes w.snaplen) >>= mark_header)
unfolding write_global_header
write_global_header_lem w h = simp h (header_fields w)

-- The five writes of a record are one write.
record_fields :
    (w : PcapWriter) (p : CapturedPacket) (incl_len : ℕ)
    → (do
      w ← write_le32 w (timestamp_sec p.timestamp)
      w ← write_le32 w (timestamp_usec p.timestamp)
      w ← write_le32 w incl_len
      w ← write_le32 w (max p.packet.original_len incl_len)
      write_bytes w (take incl_len p.packet.data_span))
      ≡ write_bytes w (record_bytes p incl_len)
unfolding write_le32
record_fields w p incl_len =
    write_bytes-step w _ _ _ ok (λ w1 e1. write_bytes-step w1 _ _ _ ok (λ w2 e2.
      write_bytes-step w2 _ _ _ ok (λ w3 e3.
        write_bytes-step w3 _ (take incl_len p.packet.data_span) _ ok (λ w4 e4. sym (bind-ok _)))))
    ∙ bind-ok _

bind_assoc :
    (m : Result WriteError PcapWriter) (f g : PcapWriter → Result WriteError PcapWriter)
    → (m >>= f >>= g) ≡ (m >>= λ w. f w >>= g)
bind_assoc (err e) f g = refl
bind_assoc (ok w) f g = refl

-- Marking the header before a write and after it.
write_bytes-mark_header :
    (w : PcapWriter) (b : Bytes)
    → (mark_header w >>= λ w'. write_bytes w' b) ≡ (write_bytes w b >>= mark_header)
unfolding write_bytes
write_bytes-mark_header w b = ground arith

mark_header-written : (w : PcapWriter) → w.global_header_written ≡ true → mark_header w ≡ ok w
mark_header-written w h = λ i. ok (record w { global_header_written = sym h i })

-- The record's writes, with the header's before them where it is missing.
header_then_record :
    (w : PcapWriter) (p : CapturedPacket) (incl_len : ℕ)
    → (write_global_header w >>= λ w'. write_bytes w' (record_bytes p incl_len))
      ≡ (write_bytes w (missing_header w ++ record_bytes p incl_len) >>= mark_header)
header_then_record w p incl_len = elim (Bool-cases w.global_header_written) [
  | inl h ↦ written h
  | inr h ↦ missing h
]
  where
    goal : Type 0
    goal =
        (write_global_header w >>= λ w'. write_bytes w' (record_bytes p incl_len))
        ≡ (write_bytes w (missing_header w ++ record_bytes p incl_len) >>= mark_header)

    written : w.global_header_written ≡ true → goal
    written h =
        simp (write_global_header_written w h, h)
          (ap (λ m. m >>= λ w'. write_bytes w' (record_bytes p incl_len))
              (sym (mark_header-written w h))
            ∙ write_bytes-mark_header w (record_bytes p incl_len))

    missing : w.global_header_written ≡ false → goal
    missing h =
        simp (write_global_header_lem w h, h)
          (bind_assoc (write_bytes w (global_header_bytes w.snaplen)) mark_header
              (λ w'. write_bytes w' (record_bytes p incl_len))
            ∙ write_bytes-step w _ (record_bytes p incl_len) _ mark_header
                (λ w' e. write_bytes-mark_header w' (record_bytes p incl_len)))

-- WritePacket refuses a length over the captured bytes; otherwise its writes are one write of
-- the file header, where that is still missing, and the record, and the header counts as
-- written.
pub write_packet_lem :
    (w : PcapWriter) (p : CapturedPacket) (incl_len : ℕ)
    → write_packet w p incl_len ≡ (
        if ltb (safe_captured_len p.packet) incl_len
        then err incl_len_exceeds_packet
        else (write_bytes w (missing_header w ++ record_bytes p incl_len) >>= mark_header))
unfolding write_packet
write_packet_lem w p incl_len =
    ap (λ m. if ltb (safe_captured_len p.packet) incl_len then err incl_len_exceeds_packet else m)
      (ap (λ k. write_global_header w >>= k) (λ i w'. record_fields w' p incl_len i)
        ∙ header_then_record w p incl_len)
