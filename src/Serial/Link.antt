-- ===== src/Serial/Link.antt =====
-- src/serial/link.rs and the errors of src/link.rs: transactions over a port, one critical section at a
-- time. A write of the port and the clock are what is outside.
pub mod Sections
pub mod Conversation
use nano_kvm_usb_rs.Prelude.{
  ℕ, ◌+◌, ◌*◌, ◌≤◌, min, List, [], ◌∷◌, Bool, true, false, ◌||◌, Option, none, some, ltb, ◌==◌,
  if◌then◌else◌, Result, ok, err, length, replicate, bit_or, ◌≡◌, ◌⊎◌,
}
use nano_kvm_usb_rs.Proto.Frame.{EncodeError, encode}
use nano_kvm_usb_rs.Proto.Report.{get_info}
use nano_kvm_usb_rs.Proto.Reply.{Reply, is_error, error_code}
use nano_kvm_usb_rs.Proto.DeviceInfo.{DeviceInfo, ParseError, parse}
use nano_kvm_usb_rs.Serial.Reader.{
  DownReason, write_failed, Inner, Shared, Counters, bump, mark_down, Reader, Read, turn, finish,
}

pub data LinkError : Type 0 where
  timeout : ℕ → ℕ → LinkError
  device : ℕ → ℕ → LinkError
  down : DownReason → LinkError
  io : List ℕ → LinkError
  invalid_input : EncodeError → LinkError
  invalid_payload : ParseError → LinkError

-- `Down` or `Io`, which the last three are.
-- `Result<(), LinkError>`.
abbrev pub LinkResult : Type 0
LinkResult = Result {0, 0} Unit LinkError

unfoldable pub is_transport_failure : LinkError → Bool
is_transport_failure (timeout cmd t) = false
is_transport_failure (device cmd code) = false
is_transport_failure e = true

-- The reason to fail with, when there is one.
abbrev pub unless_down {ℓ} : {A : Type ℓ} → Option DownReason → A → (DownReason → A) → A
unless_down none otherwise failing = otherwise
unless_down (some reason) otherwise failing = failing reason

-- What the port says of a write: nothing, or its error.
abbrev pub Written : Type 0
Written = Option (List ℕ)

abbrev pub wrote : List ℕ → Written → Shared → LinkResult × Shared
wrote bytes none s = (
  ok tt,
  record s {
    counters = record (s.counters) { bytes_tx = bump s.counters.bytes_tx (length bytes) };
  },
)
wrote bytes (some e) s = (err (io e), mark_down (write_failed (length bytes) e) s)

unfoldable pub write_raw : List ℕ → Written → Shared → LinkResult × Shared
unfolding mark_down
write_raw bytes answer s =
    unless_down s.inner.down (wrote bytes answer s) (λ reason. (err (down reason), s))

-- `settle_after_timeout` up to its loop: whether a window is open, and the bound of the loop.
unfoldable pub begin_settle : ℕ → ℕ → Shared → Option ℕ × Shared
begin_settle quiet_after now s = elim s.inner.quiet_since [
  | none ↦ (none, s)
  | some since ↦ (
    some (now + 2 * quiet_after),
    record s { counters = record (s.counters) { resyncs = bump s.counters.resyncs 1 } },
  )
]

pub data Settle : Type 0 where
  settled : Settle
  settle_failed : DownReason → Settle
  waits_until : ℕ → Settle

abbrev pub close_window : Shared → Shared
close_window s = record s { inner = record (s.inner) { quiet_since = none } }

-- `checked_duration_since` has an answer up to the instant itself.
abbrev pub settle_open : ℕ → ℕ → ℕ → Option ℕ → Shared → Settle × Shared
settle_open quiet_after hard now none s = (settled, close_window s)
settle_open quiet_after hard now (some since) s =
    if ltb (min (since + quiet_after) hard) now
    then (settled, close_window s)
    else (waits_until (min (since + quiet_after) hard), s)

-- A turn of its loop.
unfoldable pub settle_turn : ℕ → ℕ → ℕ → Shared → Settle × Shared
settle_turn quiet_after hard now s =
    unless_down s.inner.down (settle_open quiet_after hard now s.inner.quiet_since s)
      (λ reason. (settle_failed reason, close_window s))

-- The request, registered before it is written.
unfoldable pub register : ℕ → Shared → LinkResult × Shared
register cmd s =
    unless_down s.inner.down
      (
        ok tt,
        record s {
          inner = record (s.inner) {
            reply = none;
            inflight = some cmd;
            answered_inflight_late = false;
          };
          counters = record (s.counters) { transacts = bump s.counters.transacts 1 };
        },
      )
      (λ reason. (err (down reason), s))

abbrev pub withdraw : Shared → Shared
withdraw s = record s { inner = record (s.inner) { inflight = none } }

abbrev pub unless_failed : LinkResult × Shared → LinkResult × Shared
unless_failed (ok t, s) = (ok t, s)
unless_failed (err e, s) = (err e, withdraw s)

-- The write of the frame of a request that is registered.
unfoldable pub write_request : List ℕ → Written → Shared → LinkResult × Shared
unfolding write_raw
write_request frame answer s = unless_failed (write_raw frame answer s)

pub data Await : Type 0 where
  finished : Result Reply LinkError → Await
  waits_until : ℕ → Await

-- `unwrap_or(0)`.
abbrev pub code_or_zero : Option ℕ → ℕ
code_or_zero none = 0
code_or_zero (some code) = code

-- A reply that was taken.
unfoldable pub collected : ℕ → Reply → Shared → Await × Shared
unfolding error_code
collected cmd r s =
    if is_error r
    then (
      finished (err (device cmd (code_or_zero (error_code r)))),
      record s {
        counters = record (s.counters) { device_errors = bump s.counters.device_errors 1 };
      },
    )
    else (finished (ok r), s)

-- The deadline has passed: the slot is armed, unless a late reply has answered this request too.
unfoldable pub give_up : ℕ → ℕ → ℕ → Shared → Await × Shared
give_up cmd allowed now s = (
  finished (err (timeout cmd allowed)),
  record s {
    inner = record (s.inner) {
      inflight = none;
      timed_out = if s.inner.answered_inflight_late then none else some cmd;
      answered_inflight_late = false;
      quiet_since = some now;
    };
    counters = record (s.counters) { timeouts = bump s.counters.timeouts 1 };
  },
)

abbrev pub await_reply : ℕ → ℕ → ℕ → ℕ → Option Reply → Shared → Await × Shared
await_reply cmd allowed deadline now (some r) s =
    collected cmd r (record s { inner = record (s.inner) { reply = none } })
await_reply cmd allowed deadline now none s =
    unless_down s.inner.down
      (if ltb deadline now then give_up cmd allowed now s else (waits_until deadline, s))
      (λ reason. (finished (err (down reason)), withdraw s))

-- A turn of the loop that waits for the reply.
unfoldable pub await_turn : ℕ → ℕ → ℕ → ℕ → Shared → Await × Shared
unfolding collected give_up
await_turn cmd allowed deadline now s = await_reply cmd allowed deadline now s.inner.reply s

abbrev pub resync_preamble_len : ℕ
resync_preamble_len = 16

abbrev pub count_resync : LinkResult × Shared → LinkResult × Shared
count_resync (ok t, s) = (
  ok t,
  record s { counters = record (s.counters) { resyncs_sent = bump s.counters.resyncs_sent 1 } },
)
count_resync (err e, s) = (err e, s)

unfoldable pub resync : Written → Shared → LinkResult × Shared
unfolding write_raw
resync answer s = count_resync (write_raw (replicate resync_preamble_len 0) answer s)

abbrev is_some {ℓ} : {A : Type ℓ} → Option A → Bool
is_some none = false
is_some (some a) = true

unfoldable pub is_down : Shared → Bool
is_down s = is_some s.inner.down || s.inner.reader_finished

abbrev pub lock_state : ℕ
lock_state = bit_or get_info 0x80

abbrev pub parsed : Result DeviceInfo ParseError → Option DeviceInfo
parsed (ok info) = some info
parsed (err e) = none

unfoldable pub lock_state_from : Reply → Option DeviceInfo
unfolding parse
lock_state_from r = if r.cmd == lock_state then parsed (parse r.payload) else none

abbrev pub read_info : Result DeviceInfo ParseError → Result DeviceInfo LinkError
read_info (ok info) = ok info
read_info (err e) = err (invalid_payload e)

-- `get_info`, from the answer of its transaction.
unfoldable pub info_of : Result Reply LinkError → Result DeviceInfo LinkError
unfolding parse
info_of (ok r) = read_info (parse r.payload)
info_of (err e) = err e

-- Where a transaction stands: before it, in the quiet window, between two locks, and behind it.
pub data Phase : Type 0 where
  idle : Phase
  settling : ℕ → ℕ → List ℕ → ℕ → Phase
  registering : ℕ → List ℕ → ℕ → Phase
  writing : ℕ → List ℕ → ℕ → Phase
  awaiting : ℕ → ℕ → ℕ → Phase
  returned : ℕ → Result Reply LinkError → Phase

abbrev pub settling_or : Option ℕ → ℕ → List ℕ → ℕ → Phase
settling_or none cmd frame allowed = registering cmd frame allowed
settling_or (some hard) cmd frame allowed = settling hard cmd frame allowed

abbrev pub behind_settle : Settle → ℕ → ℕ → List ℕ → ℕ → Phase
behind_settle settled hard cmd frame allowed = registering cmd frame allowed
behind_settle (settle_failed reason) hard cmd frame allowed = returned cmd (err (down reason))
behind_settle (Settle.waits_until t) hard cmd frame allowed = settling hard cmd frame allowed

abbrev pub behind_register : LinkResult → ℕ → List ℕ → ℕ → Phase
behind_register (ok t) cmd frame allowed = writing cmd frame allowed
behind_register (err e) cmd frame allowed = returned cmd (err e)

abbrev pub behind_write : LinkResult → ℕ → ℕ → ℕ → Phase
behind_write (ok t) cmd allowed deadline = awaiting cmd allowed deadline
behind_write (err e) cmd allowed deadline = returned cmd (err e)

abbrev pub behind_await : Await → ℕ → ℕ → ℕ → Phase
behind_await (finished r) cmd allowed deadline = returned cmd r
behind_await (Await.waits_until t) cmd allowed deadline = awaiting cmd allowed deadline

-- The sections of `transact`, each at a time of the clock.
unfoldable pub step : ℕ → ℕ → Written → Phase → Shared → Phase × Shared
unfolding settle_turn register write_request await_turn
step quiet_after now answer (settling hard cmd frame allowed) s =
    let (o, s') = settle_turn quiet_after hard now s in (behind_settle o hard cmd frame allowed, s')
step quiet_after now answer (registering cmd frame allowed) s =
    let (o, s') = register cmd s in (behind_register o cmd frame allowed, s')
step quiet_after now answer (writing cmd frame allowed) s =
    let (o, s') = write_request frame answer s in (behind_write o cmd allowed (now + allowed), s')
step quiet_after now answer (awaiting cmd allowed deadline) s =
    let (o, s') = await_turn cmd allowed deadline now s in (behind_await o cmd allowed deadline, s')
step quiet_after now answer p s = (p, s)

abbrev pub begun : Result (List ℕ) EncodeError → ℕ → ℕ → ℕ → ℕ → Shared → Phase × Shared
begun (err e) quiet_after now cmd allowed s = (returned cmd (err (invalid_input e)), s)
begun (ok frame) quiet_after now cmd allowed s =
    let (hard, s') = begin_settle quiet_after now s in (settling_or hard cmd frame allowed, s')

-- A call of `transact`.
unfoldable pub begin_transact : ℕ → ℕ → ℕ → List ℕ → ℕ → Shared → Phase × Shared
unfolding encode begin_settle
begin_transact quiet_after now cmd payload allowed s =
    begun (encode cmd payload) quiet_after now cmd allowed s

-- The link with its reader thread, step by step in any order. A section of the writer runs under its
-- lock; the reader's turn is the handling of one read. The receiver of the unsolicited frames
-- may go away.
pub record System : Type 0 where
  pub phase : Phase
  pub reader : Reader
  pub shared : Shared

pub data Move (quiet_after silence : ℕ) (y z : System) : Type 0 where
  calls :
      (now cmd : ℕ) (payload : List ℕ) (allowed : ℕ)
      → (y.phase ≡ idle) ⊎ ((c : ℕ) × (r : Result Reply LinkError) × (y.phase ≡ returned c r))
      → z.reader ≡ y.reader
      → (z.phase, z.shared) ≡ begin_transact quiet_after now cmd payload allowed y.shared
      → Move quiet_after silence y z
  steps :
      (now : ℕ) (answer : Written)
      → z.reader ≡ y.reader
      → (z.phase, z.shared) ≡ step quiet_after now answer y.phase y.shared
      → Move quiet_after silence y z
  reads :
      (now : ℕ) (read : Read)
      → z.phase ≡ y.phase
      → (z.reader, z.shared) ≡ (turn silence now read y.reader y.shared).1
      → Move quiet_after silence y z
  ends :
      z.phase ≡ y.phase
      → z.reader ≡ y.reader
      → z.shared ≡ finish y.shared
      → Move quiet_after silence y z
  deafens :
      z.phase ≡ y.phase
      → z.reader ≡ y.reader
      → z.shared ≡ record (y.shared) { listening = false }
      → Move quiet_after silence y z

pub data Reach (quiet_after silence : ℕ) (y : System) : System → Type 0 where
  here : Reach quiet_after silence y y
  next :
      {z w : System}
      → Reach quiet_after silence y z
      → Move quiet_after silence z w
      → Reach quiet_after silence y w
