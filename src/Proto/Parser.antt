-- ===== src/Proto/Parser.antt =====
-- src/proto/frame.rs: the incremental reply parser. `&mut self` methods return the new parser.
-- The loop of `scan` runs on fuel; a round that goes on removes a byte, so the length is enough.
pub mod Rounds
pub mod Accounting
pub mod Bounds
pub mod Stream
pub mod RoundTrip
pub mod Resync
mod Tests
use nano_kvm_usb_rs.Prelude.{
  ℕ, zero, suc, ◌+◌, ◌-◌, min, List, [], ◌∷◌, ◌++◌, Bool, true, false, not, ◌&&◌, Option, none,
  some, ltb, ◌==◌, if◌then◌else◌, length, take, drop, get_or, chunks,
}
use nano_kvm_usb_rs.Proto.Frame.{Frame, head0, head1, overhead, checksum_over}

-- The cap on the reassembly buffer.
abbrev pub max_buffer : ℕ
max_buffer = 4096

pub data Event : Type 0 where
  frame : Frame → Event
  bad_checksum : List ℕ → Event
  truncated : List ℕ → Event
  garbage : ℕ → Event

pub record Parser : Type 0 where
  pub buf : List ℕ
  pub events : List Event
  pub pending_garbage : ℕ
  pub suppressed : ℕ

-- `Parser::new`.
abbrev pub new : Parser
new = record { buf = []; events = []; pending_garbage = 0; suppressed = 0 }

abbrev pub push_event : Event → Parser → Parser
push_event e p = record p { events = p.events ++ (e ∷ []) }

pub flush_garbage : Parser → Parser
flush_garbage p =
    if ltb 0 p.pending_garbage
    then record p { events = p.events ++ (garbage p.pending_garbage ∷ []); pending_garbage = 0 }
    else p

-- `n` bytes dropped as garbage, less those that a rejected candidate has already reported.
pub discard : ℕ → Parser → Parser
discard n p = if n == 0 then p else record p {
  buf = drop n p.buf;
  pending_garbage = p.pending_garbage + (n - min n p.suppressed);
  suppressed = p.suppressed - min n p.suppressed;
}

-- `saturating_sub` is the subtraction of ℕ.
pub consume : ℕ → Parser → Parser
consume n p = record p { buf = drop n p.buf; suppressed = p.suppressed - n }

-- `buf.windows(2).position(|w| w == HEAD)`.
pub find_head : List ℕ → Option ℕ
find_head [] = none
find_head (a ∷ []) = none
find_head (a ∷ b ∷ r) =
    let later = find_head (b ∷ r) in
    if a == head0 && b == head1 then some 0 else elim later [ none ↦ none | some i ↦ some (suc i) ]

-- `usize::from(buf.last() == Some(&HEAD[0]))`.
pub keep_last : List ℕ → ℕ
keep_last [] = 0
keep_last (a ∷ []) = if a == head0 then 1 else 0
keep_last (a ∷ b ∷ r) = keep_last (b ∷ r)

pub starts_with_head : List ℕ → Bool
starts_with_head [] = false
starts_with_head (a ∷ []) = false
starts_with_head (a ∷ b ∷ r) = a == head0 && b == head1

pub align : Parser → Bool × Parser
align p = if starts_with_head p.buf then (true, p) else elim (find_head p.buf) [
  | some i ↦ (true, discard i p)
  | none ↦ (false, discard (length p.buf - keep_last p.buf) p)
]

-- The body of the loop of `scan` behind `align`: `false` is a `break`. Every index is in bounds by
-- the two tests of the length, so the default of `get_or` is never read.
pub take_candidate : Parser → Bool × Parser
unfolding flush_garbage consume
take_candidate p =
    if ltb (length p.buf) 5
    then (false, p)
    else let len = get_or p.buf 4 0 in
      let total = overhead + len in
      if ltb (length p.buf) total
      then (false, p)
      else if checksum_over (take (total - 1) p.buf) == get_or p.buf (total - 1) 0
      then (
        true,
        consume total (
            push_event
              (frame (record {
                addr = get_or p.buf 2 0;
                cmd = get_or p.buf 3 0;
                payload = take len (drop 5 p.buf);
              }))
              (flush_garbage p)),
      )
      else (
        true,
        record (consume 1 (push_event (bad_checksum (take total p.buf)) (flush_garbage p))) {
          suppressed = total - 1;
        },
      )

pub scan_round : Parser → Bool × Parser
scan_round p = let (aligned, p') = align p in if aligned then take_candidate p' else (false, p')

pub scan_loop : ℕ → Parser → Parser
scan_loop zero p = p
scan_loop (suc fuel) p =
    let (again, p') = scan_round p in elim again [ true ↦ scan_loop fuel p' | false ↦ p' ]

pub scan : Parser → Parser
scan p = flush_garbage (scan_loop (suc (length p.buf)) p)

pub enforce_bound : Parser → Parser
enforce_bound p =
    if ltb max_buffer (length p.buf)
    then flush_garbage (record p {
      buf = [];
      pending_garbage = p.pending_garbage + (length p.buf - min (length p.buf) p.suppressed);
      suppressed = 0;
    })
    else p

-- One round of the loop of `push`.
pub push_chunk : Parser → List ℕ → Parser
push_chunk p chunk = enforce_bound (scan (record p { buf = p.buf ++ chunk }))

pub push_chunks : Parser → List (List ℕ) → Parser
push_chunks p [] = p
push_chunks p (c ∷ cs) = push_chunks (push_chunk p c) cs

unfoldable pub push : Parser → List ℕ → Parser
unfolding push_chunks push_chunk enforce_bound scan scan_loop scan_round take_candidate align
    discard find_head keep_last starts_with_head flush_garbage consume
push p bytes = push_chunks p (chunks max_buffer bytes)

unfoldable pub next_event : Parser → Option Event × Parser
next_event p = elim p.events [ [] ↦ (none, p) | e ∷ es ↦ (some e, record p { events = es }) ]

-- `drain_events`.
unfoldable pub drain_events : Parser → List Event × Parser
drain_events p = (p.events, record p { events = [] })

unfoldable pub expire_partial : Parser → Option Event × Parser
expire_partial p = elim p.buf [
  | [] ↦ (none, p)
  | b ∷ bs ↦ (some (truncated (b ∷ bs)), record p { buf = []; suppressed = 0 })
]

-- `Parser::reset`.
unfoldable pub reset : Parser → Parser
reset p = record p { buf = []; events = []; pending_garbage = 0; suppressed = 0 }
