-- ===== src/Lib.antt =====
-- A verification library of ubersdr-ntp, an NTP server whose time comes from radio time signals.
--
-- The program receives time-signal stations (WWV, WWVB, DCF77, MSF, ALS162) over WebSocket.
-- A decoder finds the second marks and the bits of each minute, and a voter
-- (src/clock/TimeFrameVoter.cpp) turns the last few minutes into a time of day. A source
-- (src/Source.cpp) dates the decoded time against the daemon's clock, has each reading judged
-- against what it already believes (src/TimeContinuity.cpp), and filters it; upstream NTP servers
-- (src/NtpClient.cpp) are sources too. A selector (src/Selector.cpp) combines the sources, and the
-- NTP server (src/NtpServer.cpp) answers clients,
-- each within a rate limit (src/RateLimiter.cpp) and counted in a tally (src/ClientTally.cpp).
-- This library models the parts with discrete logic.
--
-- Prelude: the shared names, lists, integers (C++ division, rounded towards zero), 32-bit words,
--   an association list for a std::unordered_map, and `Double`, the floating-point operations
--   as an instance argument. Nothing is assumed of them but, in the two theorems on failover, that
--   0 <= 0, in the one on the host clock that -1 < 0, and in the one on a peer's backoff that no two
--   numbers are less than each other: those stated over every instance rest on no law of its
--   arithmetic, so they hold of IEEE doubles too, NaN included. Prelude.Micros is one instance, whole millionths, exact in sums; the
--   tests run on it, and the lemmas of Peer.Eras are of it.
-- Civil: src/CivilTime.h, daysFromCivil and civilFromDays. The `unsigned` sums wrap at 32 bits as
--   in the source; `int` and `long long` are unbounded. Civil.Calendar is the calendar itself,
--   written independently, with leap years, month lengths and the next day.
-- Fields: src/clock/TimeFrameVoter.{h,cpp}, TimeFields, minutesSince2000, advanceMinutes and the
--   test of a frame's ranges. The wrapping loop of advanceMinutes runs on fuel, the day of the
--   year: each round takes at least 365 days off it, and the theorem is stated of the result.
-- Voter: src/clock/TimeFrameVoter.{h,cpp}, the rest of the voter: the sliding window (addFrame), the
--   frames brought forward to the newest (buildNormalizedFrames), the vote (Voter.Resolve, for
--   computeResolution) and the lock (Voter.Verdict, for lockVerdict). `float`, `double`, their
--   conversions and std::pow are parameters, as is the order that std::sort leaves the bits of a
--   field in. A field map is a function of the field's index, a window a list, the newest last.
-- Instants: src/CivilTime.h, floorDiv, floorMod, utcMsFromFields, hostNowFields and
--   isLastDayOfMonth, which tie the two calendars above together.
-- Continuity: src/TimeContinuity.{h,cpp}, the judge of decoded times as a state passed along. A
--   log of readings, kept beside the state in the proofs, is what `Confirms` speaks of.
-- Labeler: src/Pps.{h,cpp}, PpsLabeler, which names the second of each pulse, leap seconds included.
-- Nmea: src/Pps.{h,cpp}, the NMEA sentences of a pulse (nmeaZda, nmeaRmc) with their checksum, and in
--   Nmea.Verified a receiver that was written apart from them. std::llround is a parameter.
-- Address: src/IpPrefix.h, IpAddr, ipAddrOf, masked and IpPrefix::contains, and in Address.Label
--   isPrivate and publicLabel. IN6_IS_ADDR_V4MAPPED and inet_ntop are parameters.
-- Limiter: src/RateLimiter.{h,cpp}, the whole of check, its lock left out: a call runs under it
--   from end to end once the client's key is known. The draw of the random generator is an argument.
-- Selector: src/Selector.{h,cpp}, with the snapshots of src/SourceSnapshot.h: a pass (combine) from the
--   sources' snapshots to the time served, and the state it keeps. Selector.Residuals is the judging
--   of each source against its class, Standby the choice of the class that serves, Agree the
--   intersection, Answer the weighted time, Pass the whole. A formatted text is a constructor with
--   its numbers; log lines and the reason of an activation are left out; exp, pow and sqrt are
--   parameters, and std::sort, whose order of equal elements C++ leaves open, is an insertion sort.
-- Tally: src/ClientTally.{h,cpp}, the ring of minute buckets and record (record_request), which
--   names a client by its public label. Tally.PastHour sets the ring against a log of the requests.
-- Server: src/NtpServer.{h,cpp}, one round of serve as a function from the state, the packet and what
--   the round reads from outside (clocks, kernel stamps, the selector, the draw, whether sendmsg
--   sent) to the state and the packet sent. Server.Packet is the bytes, Serve the round, Composed
--   the round with the selector. The counters wrap at 64 bits; sockets and logs are left out.
-- Peer: src/NtpClient.{h,cpp}, a poll of an upstream server (pollOnce, as Peer.Poll) and a round of the
--   poll loop (run, as Peer.Loop) as functions from the peer's state and what they read from outside
--   (resolver, nonce, clocks, datagrams) to the state. Peer.Wire is the packets, Connect the name and
--   the socket, Filter the clock filter; `offsets` logs what goes to the estimator. Reading past the
--   end of a datagram, which no test lets happen, gives 0. The two loops of fromNtpTime have as many
--   rounds as the time is eras away and one more, which Peer.Eras shows to be enough on exact numbers. log2, lround,
--   pow and sqrt are parameters; Peer.Composed polls the program's own service.
-- Estimator: src/OffsetEstimator.{h,cpp}, the whole: the samples, the fit of the rate (fitLine, as
--   Estimator.Line), the level (recompute, as Estimator.Level) and the hold through a spike of the
--   jitter (holdThroughSpikes, as Estimator.Hold). A vector of flags beside the points is the list of
--   the points kept; the two attempts of recompute are fuel, which Estimator.Attempts shows to be
--   all that are ever made. std::nth_element is a sort; sqrt and copysign are parameters.
-- Clocks: src/SampleClock.{h,cpp}: the fit of the fastest arrivals (SampleClock, as Clocks.Arrival), the
--   capture stamps (CaptureClock, as Clocks.Capture) and the guard of the host clock's rate
--   (HostSlewGuard, as Clocks.Slew). std::lower_bound over marks in order is a scan; sqrt,
--   not-a-number and isnan are parameters; the reads of the system's clocks are I/O.
-- Metrics: src/Metrics.{h,cpp}, the averaged series of the status page and the timeline of states. A
--   deque is a list with the oldest first; std::isfinite is a parameter; sampleMetrics is left out.
--
-- Not modelled: the signal processing of src/clock, sockets, threads, HTTP, MQTT and logging, the text forms, and third_party.
pub mod Prelude
pub mod Civil
pub mod Fields
pub mod Instants
pub mod Continuity
pub mod Address
pub mod Limiter
pub mod Tally
pub mod Voter
pub mod Labeler
pub mod Selector
pub mod Server
pub mod Peer
pub mod Estimator
pub mod Clocks
pub mod Nmea
pub mod Metrics
