-- ===== src/Serial/Reader/Matching.antt =====
-- src/serial/reader.rs: the reader thread against the matcher, over any reads.
use nano_kvm_usb_rs.Prelude.{
  ℕ, ◌-◌, ◌<◌, List, [], ◌∷◌, ◌++◌, map, map-append, Bool, true, false, none, ◌≡◌, refl, sym, ap,
  ◌∙◌, subst, if◌then◌else◌, All, All-of_append,
}
use nano_kvm_usb_rs.Proto.Frame.{Frame, into_reply}
use nano_kvm_usb_rs.Proto.Parser.Stream.{clean}
use nano_kvm_usb_rs.Proto.Parser.RoundTrip.{stream, IsSendable, none_left}
use nano_kvm_usb_rs.Serial.Reader.{
  Shared, Reader, Read, bytes, timed_out, failed, receive, turn, run, finish, starting,
}
use nano_kvm_usb_rs.Serial.Reader.Matcher.{deliver_all-Sorts, Sorts}
use nano_kvm_usb_rs.Serial.Reader.Receipts.{
  matcher_of, Delivered, replies, Delivered-then, none-Delivered, Carries, expire_early,
  receive-Received,
}

run_on :
    (silence now : ℕ) (read : Read) (reads : List (ℕ × Read)) (r : Reader) (s : Shared)
    → s.stop ≡ false
    → run silence ((now, read) ∷ reads) r s ≡ (
        let out : Bool × (Reader × Shared) = turn silence now read r s in
        if out.0 then run silence reads out.1.0 out.1.1 else finish out.1.1)
unfolding run
run_on silence now read reads r s q =
    let out = turn silence now read r s in
    let go = if out.0 then run silence reads out.1.0 out.1.1 else finish out.1.1 in
    ap (λ b. if b then finish s else go) q

run_from :
    (silence since : ℕ) (reads : List (ℕ × Read)) (r : Reader) (s : Shared) (fs : List Frame)
    (left b : List ℕ)
    → All IsSendable fs
    → r.parser ≡ clean left []
    → r.last_byte_at ≡ since
    → left ++ b ≡ stream fs
    → (b ≡ [] → left ≡ [])
    → Carries silence since reads b
    → s.stop ≡ false
    → s.listening ≡ true
    → Delivered (replies fs) s (run silence reads r s)
unfolding run turn
run_from silence since [] r s fs left b a p t e idle c q l =
    let empty = none_left fs (sym (ap (λ x. x ++ b) (idle c) ∙ c) ∙ e) in
    subst (λ g. Delivered (replies g) s s) (sym empty) (none-Delivered s s refl l refl)
run_from silence since ((now, bytes []) ∷ reads) r s fs left b a p t e idle c q l = absurd c
run_from silence since ((now, failed x) ∷ reads) r s fs left b a p t e idle c q l = absurd c
run_from silence since ((now, timed_out) ∷ reads) r s fs left b a p t e idle (early, c) q l =
    let still = expire_early silence now r s (subst (λ x. now - x < silence) (sym t) early) in
    subst (Delivered (replies fs) s)
      (sym (run_on silence now timed_out reads r s q ∙ ap (λ o. run silence reads o.0 o.1) still))
      (run_from silence since reads r s fs left b a p t e idle c q l)
run_from silence since ((now, bytes (x ∷ chunk)) ∷ reads) r s fs left b a p t e idle (later, eq, c)
      q l =
    let got =
      receive-Received now (x ∷ chunk) r s fs left later a p (ap (λ y. left ++ y) (sym eq) ∙ e)
        (λ z. idle (eq ∙ z)) l in
    let out = receive now (x ∷ chunk) r s in
    let kept = All-of_append IsSendable got.done got.todo (subst (All IsSendable) got.split a) in
    let goes =
      run_from silence now reads out.0 out.1 got.todo got.left later kept.1 got.parser got.at_time
        got.rest got.ends c (got.delivered.runs ∙ q) got.delivered.listens in
    let whole = Delivered-then got.delivered goes in
    let names : replies got.done ++ replies got.todo ≡ replies fs =
      sym (ap replies got.split ∙ map-append into_reply got.done got.todo) in
    subst (λ rs. Delivered rs s (run silence ((now, bytes (x ∷ chunk)) ∷ reads) r s)) names
      (subst (Delivered (replies got.done ++ replies got.todo) s)
        (sym (run_on silence now (bytes (x ∷ chunk)) reads r s q)) whole)

-- A reader thread refines its matcher. The bytes of any frames, in reads of any sizes with no pause as long as
-- the silence that gives a frame up, leave the thread, when it starts with no reply collected and a
-- receiver that listens, with these: the reply is the first frame that answers the request in
-- flight, once the first frame that answers the request that timed out is left out, and every other
-- frame went to the channel, in order.
pub run-Sorts :
    (silence now : ℕ) (reads : List (ℕ × Read)) (fs : List Frame) (s : Shared)
    → All IsSendable fs
    → Carries silence now reads (stream fs)
    → s.stop ≡ false
    → s.listening ≡ true
    → s.inner.reply ≡ none
    → Sorts (matcher_of s) (map into_reply fs) (matcher_of (run silence reads (starting now) s))
run-Sorts silence now reads fs s a c q l h =
    let d =
      run_from silence now reads (starting now) s fs [] (stream fs) a refl refl refl (λ e. refl) c q
        l in
    subst (Sorts (matcher_of s) (map into_reply fs)) (sym d.matches)
      (deliver_all-Sorts (map into_reply fs) (matcher_of s) h)
