-- ===== src/Serial/Tests.antt =====
-- Runs of the serial link and the witnesses of its theorems.
use nano_kvm_usb_rs.Prelude.{
  chunks, ℕ, List, [], ◌∷◌, true, false, none, some, ok, ◌≡◌, refl, arith, inl,
}
use nano_kvm_usb_rs.Proto.Frame.{Frame, frame_bytes, into_reply, checksum, checksum_over, sum_bytes}
use nano_kvm_usb_rs.Proto.Parser.{drain_events, push}
use nano_kvm_usb_rs.Proto.Parser.RoundTrip.{IsSendable}
use nano_kvm_usb_rs.Proto.Reply.{Reply, answers, is_error}
use nano_kvm_usb_rs.Serial.Reader.{
  Shared, Read, bytes, failed, read_failed, run, starting, new, nothing_matched, route, turn,
  mark_down,
}
use nano_kvm_usb_rs.Serial.Reader.Matcher.{Sorts}
use nano_kvm_usb_rs.Serial.Reader.Matching.{run-Sorts}
use nano_kvm_usb_rs.Serial.Reader.Receipts.{matcher_of}
use nano_kvm_usb_rs.Serial.Link.{
  Phase, returned, idle, System, calls, steps, reads, Reach, here, next, begin_transact, step,
  register, await_turn, settle_turn, finished,
}
use nano_kvm_usb_rs.Serial.Link.Conversation.{new_link, returned-Answers, down-stays}

abbrev ack : ℕ → Reply
ack cmd = record { cmd = cmd; payload = 0 ∷ [] }

-- Three requests of a command whose first two replies are late: the first reply is put aside, and
-- excuses the second request, whose own late reply then answers the third.
abbrev timed_out_once : Shared
timed_out_once = (await_turn 2 10 10 11 (register 2 new).1).1

abbrev excused : Shared
excused =
    (await_turn 2 10 90 91
      (route 85 (ack 0x82) (register 2 (settle_turn 50 111 62 timed_out_once).1).1)).1

abbrev third : Shared
third = route 180 (ack 0x82) (register 2 (settle_turn 50 191 142 excused).1).1

late_reply_returned : (await_turn 2 10 190 185 third).0 ≡ finished (ok (ack 0x82))
unfolding await_turn register route settle_turn answers is_error
late_reply_returned = refl

-- A frame for the request that timed out, then one for the request that waits, in two reads.
abbrev ack_frame : Frame
ack_frame = record { addr = 0; cmd = 0x82; payload = 0 ∷ [] }

ack_frame-IsSendable : IsSendable ack_frame
ack_frame-IsSendable = omega arith

abbrev owing : Shared
owing = record new { inner = record nothing_matched { timed_out = some 2; inflight = some 2 } }

abbrev two_reads : List (ℕ × Read)
two_reads =
    (5, bytes (0x57 ∷ 0xAB ∷ 0 ∷ 0x82 ∷ []))
    ∷ (6, Read.timed_out)
    ∷ (7, bytes (1 ∷ 0 ∷ 0x85 ∷ 0x57 ∷ 0xAB ∷ 0 ∷ 0x82 ∷ 1 ∷ 0 ∷ 0x85 ∷ []))
    ∷ []

run-Sorts_example :
    Sorts
      (matcher_of owing)
      (ack 0x82 ∷ ack 0x82 ∷ [])
      (matcher_of (run 100 two_reads (starting 1) owing))
unfolding into_reply frame_bytes checksum sum_bytes
run-Sorts_example =
    run-Sorts 100 1 two_reads (ack_frame ∷ ack_frame ∷ []) owing
      (ack_frame-IsSendable, (ack_frame-IsSendable, tt))
      (
        0x01 ∷ 0 ∷ 0x85 ∷ 0x57 ∷ 0xAB ∷ 0 ∷ 0x82 ∷ 1 ∷ 0 ∷ 0x85 ∷ [],
        refl,
        (omega arith, ([], refl, refl)),
      )
      refl refl refl

-- A transaction of the command 2 that is answered.
abbrev after : System → Phase × Shared → System
after y out = record y { phase = out.0; shared = out.1 }

abbrev link_called : System
link_called = after (new_link 0) (begin_transact 50 1 2 [] 100 new)

abbrev link_registered : System
link_registered = after link_called (step 50 2 none link_called.phase link_called.shared)

abbrev link_written : System
link_written = after link_registered (step 50 3 none link_registered.phase link_registered.shared)

abbrev ack_read : Read
ack_read = bytes (0x57 ∷ 0xAB ∷ 0 ∷ 0x82 ∷ 1 ∷ 0 ∷ 0x85 ∷ [])

abbrev link_read : System
link_read =
    let out = (turn 100 4 ack_read link_written.reader link_written.shared).1 in
    record link_written { reader = out.0; shared = out.1 }

abbrev link_answered : System
link_answered = after link_read (step 50 5 none link_read.phase link_read.shared)

abbrev answered_run : Reach 50 100 (new_link 0) link_answered
answered_run =
    next
      (next
        (next (next (next here (calls 1 2 [] 100 (inl refl) refl refl)) (steps 2 none refl refl))
          (steps 3 none refl refl))
        (reads 4 ack_read refl refl))
      (steps 5 none refl refl)

link_answered_phase : link_answered.phase ≡ returned 2 (ok (ack 0x82))
unfolding begin_transact step turn answers is_error route drain_events push chunks checksum_over
    sum_bytes
link_answered_phase = refl

returned-Answers_example :
    (link_answered.shared.inner.inflight ≡ none)
    × ((answers (ack 0x82) 2 ≡ true) × (is_error (ack 0x82) ≡ false))
returned-Answers_example = returned-Answers 0 2 (ok (ack 0x82)) answered_run link_answered_phase

-- A read that fails, and a call behind it.
abbrev link_failed : System
link_failed =
    let out = (turn 100 4 (failed []) (new_link 0).reader new).1 in
    record (new_link 0) { reader = out.0; shared = out.1 }

abbrev link_refused : System
link_refused = after link_failed (begin_transact 50 9 2 [] 100 link_failed.shared)

failed_run : Reach 50 100 (new_link 0) link_failed
failed_run = next here (reads 4 (failed []) refl refl)

refused_run : Reach 50 100 link_failed link_refused
refused_run = next here (calls 9 2 [] 100 (inl phase) refl refl)
  where
    phase : link_failed.phase ≡ idle
    phase = refl

link_failed_down : link_failed.shared.inner.down ≡ some (read_failed [])
unfolding turn mark_down
link_failed_down = refl

down-stays_example : link_refused.shared.inner.down ≡ some (read_failed [])
down-stays_example = down-stays 0 (read_failed []) failed_run refused_run link_failed_down
