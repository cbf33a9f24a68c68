-- ===== src/Lib.antt =====
-- PcapConstrictorAFPacket: a capture tool that keeps packets whole where they matter and cuts the
-- encrypted payload of TLS and QUIC.
--
-- A packet goes through these parts. The reader (offline mode) or an AF_PACKET socket (live mode)
-- gives the bytes with a captured and an original length. The policy has the packet decoded, asks
-- the TLS or the QUIC constrictor where its port says so, and decides how many bytes are written.
-- The writer appends that many bytes to a PCAP file, and the feed or the live loop counts what it
-- did. main loads the configuration and runs the one mode or the other.
--
-- Bytes.antt      reads of a buffer: HasBytes, ReadBe16, ReadBe32 of src/decode/PacketDecode.cpp and
--                 src/policy; a read outside of a buffer is `none`
-- Decode.antt     src/decode: decode_packet is DecodePacket, one function per Decode... function;
--                 vlan_loop is its loop over VLAN tags. Decode/Types.antt has the result,
--                 Decode/Transport.antt TCP and UDP, Decode/Network.antt the rest
-- Config.antt     src/policy/PolicyConfig.hpp
-- Tls.antt        src/policy/TlsConstrictor.cpp: evaluate in Tls/Evaluate.antt is Evaluate,
--                 walk_records in Tls/Loop.antt its loop, Walk the loop's variables, and
--                 Directions in Tls/Types.antt the table directions_
-- Quic.antt       src/policy/QuicConstrictor.cpp: Quic/Parse.antt has ParseLongHeader and what it
--                 calls, Quic/Flow.antt Evaluate, with the table flow_states_ as FlowStates
-- Packet.antt     src/capture/PacketView.hpp and CapturedPacket.hpp
-- Policy.antt     src/policy/LiveCapturePolicy.cpp: evaluate is Evaluate
-- Writer.antt     src/writer: write_packet is WritePacket; `err` is an exception
-- Reader.antt     src/offline/PcapReader.cpp: open_file in Reader/Opening.antt is Open, read_next
--                 in Reader/Reading.antt is ReadNext
-- Stats.antt      src/stats/CaptureStats.hpp
-- Offline.antt    src/offline/OfflinePacketFeed.cpp: run is Run, feed_loop its loop
-- Loader.antt     src/config/ConfigLoader.cpp: load_from_string in Loader/Lines.antt is LoadFromString,
--                 read_lines its loop; Loader/Text.antt and Loader/Values.antt have the parsers,
--                 Loader/Assign.antt AssignValue
-- Capture.antt    src/capture: the interface of a capture and its laws (IsCapture), which the live loop
--                 relies on and both captures keep
-- Capture/Recvmsg.antt   AfPacketCapture.cpp: receive_next is ReceiveNext, over a list of answers of
--                 recvfrom; Open and Close in Capture/Recvmsg/Opening.antt
-- Capture/Ring.antt      AfPacketTpacketV3Capture.cpp: Blocks.antt has ActivateCurrentBlock,
--                 ReleaseCurrentBlock and DiscardCurrentBlock, Waiting.antt WaitForReadyBlock,
--                 Packets.antt ReceiveNext, Opening.antt Open, Close and the validation;
--                 receive_packets of Draining.antt is a client that calls ReceiveNext repeatedly
-- Capture/Sockets.antt   AfPacketSocketOptions.hpp, and the sockets, rings and mappings that are held
-- Live.antt       src/main.cpp: run_capture_loop, for any capture
-- Main.antt       src/main.cpp: RunLiveCapture and main
-- Base.antt       helpers: lists over the native numbers, tests, maps, fallible steps
-- Tests.antt      runs, and an example of every theorem with conditions
--
-- Numbers are natural numbers with the source's wrap-around written out; a byte is a number. Maps
-- are functions from keys to options, so that the hashes of the keys, which only serve the
-- containers, do not appear. The objects' fields are passed on from call to call.
--
-- The kernel is what its calls answer, in order: a list of answers of recvfrom, or a list of events
-- of the ring: blocks that the kernel fills before the program tests a status the next time, blocks
-- that it fills while poll waits, and answers of poll. A status is tested again only behind an
-- answer of poll. A call for which no answer is left waits. The blocks are memory with a status that
-- says who owns them, and the kernel fills a block that it owns only, as packet_mmap documents. What
-- Open and Close hold of the kernel is counted; the answers of setsockopt are free, also where the
-- source ignores them, while munmap takes the mapping, and close the socket with the ring and the
-- membership that it still has, as documented. The structures of <linux/if_packet.h> are a parameter
-- (Abi): their sizes, and what their bytes hold. A signal comes before a numbered test of the flag,
-- and the clock is a function of the numbered readings. The product of duration_sec with 10 ^ 9, which
-- main.cpp leaves undefined where it overflows, wraps.
--
-- The loops take fuel: the length of the packet for the VLAN tags (a tag has four bytes), the length
-- of the payload and one more for the TLS records and the QUIC long headers (each has a byte at
-- least), the size of the file and one more for the feed (a record has 16 bytes at least), twice the
-- blocks and events of the ring and two more for its ReceiveNext (a round releases a block or makes
-- one active), and one more than the answers or the packets that can come for the live loop. That
-- this is enough is part of the theorems: they say that the result is there.
--
-- A file that is read is its size, as the file system tells it, and the bytes that the stream gives;
-- a file that is written is its bytes and the room that its device has left; what a write that
-- failed has left in the file is not modelled. The texts of error messages and of the reasons are
-- not modelled, nor is what the program prints. Times before the epoch do not occur. The branches
-- for systems other than Linux are left out.
pub mod Base
pub mod Bytes
pub mod Decode
pub mod Config
pub mod Tls
pub mod Loader
pub mod Quic
pub mod Packet
pub mod Policy
pub mod Writer
pub mod Reader
pub mod Stats
pub mod Capture
pub mod Live
pub mod Offline
pub mod Main
mod Tests
