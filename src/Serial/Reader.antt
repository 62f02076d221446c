-- ===== src/Serial/Reader.antt =====
-- src/serial/reader.rs: what the reader thread does to the state that it shares with the link. An
-- instant is a number of nanoseconds, and the text of an error is a list of characters.
pub mod Keeps
pub mod Matcher
pub mod Receipts
pub mod Matching
use nano_kvm_usb_rs.Prelude.{
  ℕ, zero, suc, ◌+◌, ◌-◌, ◌%◌, ◌^◌, List, [], ◌∷◌, ◌++◌, Bool, true, false, ◌&&◌, Option, none,
  some, ltb, leb, ◌==◌, if◌then◌else◌, length, not,
}
use nano_kvm_usb_rs.Proto.Frame.{into_reply}
use nano_kvm_usb_rs.Proto.Parser.{Parser, Event, push, drain_events, expire_partial}
use nano_kvm_usb_rs.Proto.Parser
use nano_kvm_usb_rs.Proto.Reply.{Reply, answers}

-- `SerialStats`, the counters of `Counters`.
pub record Counters : Type 0 where
  pub frames_rx : ℕ
  pub unsolicited : ℕ
  pub late_replies : ℕ
  pub unsolicited_dropped : ℕ
  pub resyncs : ℕ
  pub resyncs_sent : ℕ
  pub bad_checksum : ℕ
  pub truncated : ℕ
  pub garbage_bytes : ℕ
  pub transacts : ℕ
  pub timeouts : ℕ
  pub device_errors : ℕ
  pub bytes_tx : ℕ
  pub bytes_rx : ℕ

-- `Counters::default`.
abbrev pub no_counts : Counters
no_counts = record {
  frames_rx = 0;
  unsolicited = 0;
  late_replies = 0;
  unsolicited_dropped = 0;
  resyncs = 0;
  resyncs_sent = 0;
  bad_checksum = 0;
  truncated = 0;
  garbage_bytes = 0;
  transacts = 0;
  timeouts = 0;
  device_errors = 0;
  bytes_tx = 0;
  bytes_rx = 0;
}

-- `fetch_add` on an `AtomicU64` wraps.
abbrev pub bump : ℕ → ℕ → ℕ
bump n by = (n + by) % 2 ^ 64

-- Why a link is unusable.
pub data DownReason : Type 0 where
  hung_up : DownReason
  read_failed : List ℕ → DownReason
  write_failed : ℕ → List ℕ → DownReason

pub record Inner : Type 0 where
  pub inflight : Option ℕ
  pub reply : Option Reply
  pub down : Option DownReason
  pub timed_out : Option ℕ
  pub quiet_since : Option ℕ
  pub answered_inflight_late : Bool
  pub reader_finished : Bool

-- `Inner::default`.
abbrev pub nothing_matched : Inner
nothing_matched = record {
  inflight = none;
  reply = none;
  down = none;
  timed_out = none;
  quiet_since = none;
  answered_inflight_late = false;
  reader_finished = false;
}

-- With the channel of the unsolicited frames: those that were sent, and whether its receiver lives.
pub record Shared : Type 0 where
  pub inner : Inner
  pub stop : Bool
  pub counters : Counters
  pub unsolicited : List Reply
  pub listening : Bool

-- `Shared::new`, with a channel that `open_with` makes.
abbrev pub new : Shared
new = record {
  inner = nothing_matched;
  stop = false;
  counters = no_counts;
  unsolicited = [];
  listening = true;
}

-- The first reason is kept.
abbrev pub first_reason : DownReason → Option DownReason → DownReason
first_reason reason none = reason
first_reason reason (some earlier) = earlier

unfoldable pub mark_down : DownReason → Shared → Shared
mark_down reason s = record s {
  inner = record (s.inner) { down = some (first_reason reason s.inner.down) };
}

-- `is_some_and(|cmd| reply.answers(cmd))`.
abbrev pub is_answered : Option ℕ → Reply → Bool
is_answered none r = false
is_answered (some cmd) r = answers r cmd

-- `quiet_since.as_mut()`, set to the clock.
abbrev pub restarted : ℕ → Option ℕ → Option ℕ
restarted now none = none
restarted now (some since) = some now

-- The branch of a late reply.
abbrev pub retire : ℕ → Reply → Inner → Inner
retire now r i = record i {
  timed_out = none;
  quiet_since = restarted now i.quiet_since;
  answered_inflight_late = if is_answered i.inflight r then true else i.answered_inflight_late;
}

-- Behind the matching: the frame goes to the channel.
unfoldable pub divert : Bool → Reply → Shared → Shared
divert late r s =
    let c = s.counters in
    record s {
      counters = record c {
        late_replies = if late then bump c.late_replies 1 else c.late_replies;
        unsolicited = bump c.unsolicited 1;
        unsolicited_dropped =
            if s.listening then c.unsolicited_dropped else bump c.unsolicited_dropped 1;
      };
      unsolicited = if s.listening then s.unsolicited ++ (r ∷ []) else s.unsolicited;
    }

unfoldable pub route : ℕ → Reply → Shared → Shared
unfolding divert
route now r s =
    if is_answered s.inner.timed_out r
    then divert true r (record s { inner = retire now r s.inner })
    else if is_answered s.inner.inflight r
    then record s { inner = record (s.inner) { inflight = none; reply = some r } }
    else divert false r s

unfoldable pub handle : ℕ → Event → Shared → Shared
unfolding route into_reply
handle now (Event.frame f) s =
    route now (into_reply f)
      (record s { counters = record (s.counters) { frames_rx = bump s.counters.frames_rx 1 } })
handle now (Event.bad_checksum raw) s = record s {
  counters = record (s.counters) { bad_checksum = bump s.counters.bad_checksum 1 };
}
handle now (Event.truncated raw) s = record s {
  counters = record (s.counters) { truncated = bump s.counters.truncated 1 };
}
handle now (Event.garbage bytes) s = record s {
  counters = record (s.counters) { garbage_bytes = bump s.counters.garbage_bytes bytes };
}

-- `while let Some(event) = parser.next_event()`.
unfoldable pub handle_all : ℕ → List Event → Shared → Shared
unfolding handle
handle_all now [] s = s
handle_all now (e ∷ es) s = handle_all now es (handle now e s)

-- What `port.read` answers.
pub data Read : Type 0 where
  bytes : List ℕ → Read
  timed_out : Read
  failed : List ℕ → Read

-- The locals of `run`.
pub record Reader : Type 0 where
  pub parser : Parser
  pub last_byte_at : ℕ

abbrev pub starting : ℕ → Reader
starting now = record { parser = Parser.new; last_byte_at = now }

abbrev pub handle_expired : ℕ → Option Event → Shared → Shared
handle_expired now none s = s
handle_expired now (some e) s = handle now e s

-- The arm of a read that timed out.
unfoldable pub expire : ℕ → ℕ → Reader → Shared → Reader × Shared
unfolding handle
expire silence now r s =
    let (e, p) = expire_partial r.parser in
    if ltb 0 (length r.parser.buf) && leb silence (now - r.last_byte_at)
    then (record r { parser = p }, handle_expired now e s)
    else (r, s)

unfoldable pub receive : ℕ → List ℕ → Reader → Shared → Reader × Shared
unfolding handle_all
receive now chunk r s =
    let (events, p) = drain_events (push r.parser chunk) in
    let counted = record s {
      counters = record (s.counters) { bytes_rx = bump s.counters.bytes_rx (length chunk) };
    } in
    (record r { parser = p; last_byte_at = now }, handle_all now events counted)

-- A turn of the loop, and whether it goes on. A read of no bytes is the end of the stream.
unfoldable pub turn : ℕ → ℕ → Read → Reader → Shared → Bool × (Reader × Shared)
unfolding expire receive
turn silence now (bytes []) r s = (false, (r, mark_down hung_up s))
turn silence now (bytes (b ∷ chunk)) r s = (true, receive now (b ∷ chunk) r s)
turn silence now timed_out r s = (true, expire silence now r s)
turn silence now (failed e) r s = (false, (r, mark_down (read_failed e) s))

-- `Finished`, on every way out.
unfoldable pub finish : Shared → Shared
finish s = record s { inner = record (s.inner) { reader_finished = true } }

-- The reads with the clock at each, for as long as the thread runs.
unfoldable pub run : ℕ → List (ℕ × Read) → Reader → Shared → Shared
unfolding turn finish
run silence [] r s = s
run silence ((now, read) ∷ reads) r s =
    let (goes_on, (r', s')) = turn silence now read r s in
    let rest = run silence reads r' s' in
    if s.stop then finish s else if goes_on then rest else finish s'
