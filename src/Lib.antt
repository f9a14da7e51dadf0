-- ===== src/Lib.antt =====
-- A model of SimpleWebrtc's packet layer and bookkeeping, with the theorems that make it correct.
--
-- SimpleWebrtc is a WHIP/WHEP server: publishers and subscribers negotiate over HTTP, send media as
-- RTP with RTCP beside it, and the server routes packets between their sessions. Modelled here:
--
--   Rtp.Packet models rtp/rtp_packet.h and rtp/rtp_packet.cpp, the layout of an RTP packet and the
--     headers of RTP and RTCP packets. Every other part reads packets through it.
--   Rtp.HeaderExtension models rtp/rtp_header_extension.cpp, the look-up of an extension element.
--   Rtp.RetransmissionCache models rtp/rtp_retransmission_cache.h and .cpp, sent packets kept to
--     answer NACKs.
--   Rtp.ReceiveStatistics models rtp/rtp_receive_statistics.h and .cpp, the counts of received packets
--     for a report block; the arithmetic of its jitter, in doubles, is a parameter.
--   Rtcp.Report models rtp/rtcp_report.h and .cpp, sender and receiver reports.
--   Rtcp.Builder models rtp/rtcp_packet_builder.h and .cpp, the RTCP packets that the server sends,
--     and in Rtcp.Builder.Compound the compound packets. Rtcp.RoundTrip joins builder and parser.
--   Rtcp.Feedback models rtp/rtcp_feedback.h and .cpp, NACKs and key frame requests; the parser of
--     transport feedback that it calls is a parameter, filled in Rtcp.TransportFeedback.Dispatch.
--   Rtcp.TransportFeedback models the packet of rtp/rtcp_transport_feedback.h and .cpp, the report on
--     the arrival of each packet of the transport: status chunks, deltas, building and parsing.
--   Rtcp.SendHistory models the history of sent packets of rtp/rtcp_transport_feedback.h and .cpp, in
--     which the statuses of feedback are looked up.
--   Rtcp.SdesBye models the parsers of source descriptions and BYE packets of
--     rtp/rtcp_compound_packet.h and .cpp, Rtcp.CompoundBlock the blocks of a datagram and the packet
--     that adds them up, and Rtcp.CompoundPacket the split of a received datagram into blocks, each
--     parsed by the modules above.
--   Rtcp.FirSequenceTracker models rtp/rtcp_fir_sequence_tracker.h and .cpp, which tells new full
--     intra requests from repeated ones.
--   Session.StreamRegistry models session/stream_registry.h and .cpp, who publishes and who watches
--     which stream; Session.Maps are its maps by strings.
--   Session.RemoteCandidates models the remote candidates of session/publisher_session.cpp and of
--     session/subscriber_session.cpp.
--   Net.UdpPortAllocator models net/udp_port_allocator.h and .cpp, the ports of media sockets.
--   Dtls.Packet models dtls/dtls_packet.h and dtls/dtls_packet.cpp, the header of a DTLS record.
--
-- A function keeps its name in the source. `std::expected<A, std::string>` is `Result A` of
-- Base.Results, with the source's messages; its third case `fault` stands for what is no C++ value,
-- a read or write outside a buffer or a loop without end. `Ensures P r` states that `r` is no fault
-- and that a value which it returns has the property P. A byte span is the list of its bytes, and a
-- vector that is written in place is written by `overwrite` of Base.Buffer.
--
-- Numbers are natural numbers: a mask of low bits is a remainder, a shift a quotient or a product,
-- and a cast to fewer bits a remainder that is written out. `std::size_t` and the 64-bit counters do
-- not reach 2 ^ 64 here. Loops over extension elements take fuel, the number of bytes that they
-- walk, which suffices since each round takes a byte at least; the search for an unused session id
-- takes fuel, which suffices as soon as it is above the place of an unused id among the random ones.
-- Loops over lists and counts are recursions. Time points are nanoseconds since the clock's origin.
-- An unordered map is an association list, of which the invariants say that no key occurs twice.
--
-- Not modelled: the sockets, HTTP and TLS (Boost.Asio and Boost.Beast), the DTLS transport and SRTP
-- (OpenSSL and libsrtp), SDP, ICE and STUN, the generator of
-- transport feedback, the session transports and the media routing.
pub mod Base
pub mod Rtp
pub mod Rtcp
pub mod Net
pub mod Dtls
pub mod Session
pub mod Tests
