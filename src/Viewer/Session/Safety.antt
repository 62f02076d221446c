-- ===== src/Viewer/Session/Safety.antt =====
-- When the reducer of src/viewer/state.rs forwards, releases and captures.
use nano_kvm_usb_rs.Prelude.{
  List, [], ◌∷◌, ◌++◌, Bool, true, false, ◌||◌, arith, ◌≡◌, ◌≢◌, refl, ap, ◌∙◌,
}
use nano_kvm_usb_rs.Viewer.Session.{
  Session, released, engaging, captured, Trigger, Action, forward, release_all, reduce,
  engage_succeeded, close_requested, key,
}

-- Whether one of the actions sends an event to the target.
abbrev pub forwards : List Action → Bool
forwards [] = false
forwards (forward e ∷ rest) = true
forwards (_ ∷ rest) = forwards rest

-- Whether one of the actions asks for a release-all.
abbrev pub releases : List Action → Bool
releases [] = false
releases (release_all r ∷ rest) = true
releases (_ ∷ rest) = releases rest

-- Input reaches the target only while captured and not closing, and such a step keeps the capture.
pub reduce-forwards :
    (s : Session) (t : Trigger)
    → forwards (reduce s t).1 ≡ true
    → (s.capture ≡ captured) × (s.closing ≡ false) × ((reduce s t).0.capture ≡ captured)
unfolding reduce
reduce-forwards s (key k down) h = ground arith
reduce-forwards s t h = ground arith

-- Capture is entered only by the answer that the writer has acknowledged the release, while engaging.
pub reduce-captures :
    (s : Session) (t : Trigger)
    → s.capture ≢ captured
    → (reduce s t).0.capture ≡ captured
    → (t ≡ engage_succeeded) × (s.capture ≡ engaging) × (s.closing ≡ false)
unfolding reduce
reduce-captures s (key k down) n h = ground arith
reduce-captures s t n h = ground arith

-- Capture is left only with a release-all, with both consumed edges forgotten.
pub reduce_leaves :
    (s : Session) (t : Trigger)
    → s.capture ≢ released
    → (reduce s t).0.capture ≡ released
    → (releases (reduce s t).1 ≡ true)
      × ((reduce s t).0.consumed_left ≡ false)
      × ((reduce s t).0.consumed_enter ≡ false)
unfolding reduce
reduce_leaves s (key k down) n h = ground arith
reduce_leaves s t n h = ground arith

-- The event loop: triggers in order, with the actions of each.
unfoldable pub run : Session → List Trigger → Session × List Action
run s [] = (s, [])
run s (t ∷ ts) = let (s', here) = reduce s t in let (s'', later) = run s' ts in (s'', here ++ later)

forwards-append : (xs ys : List Action) → forwards (xs ++ ys) ≡ (forwards xs || forwards ys)
forwards-append [] ys = refl
forwards-append (x ∷ xs) ys = ground (arith, forwards-append xs ys)

releases-append : (xs ys : List Action) → releases (xs ++ ys) ≡ (releases xs || releases ys)
releases-append [] ys = refl
releases-append (x ∷ xs) ys = ground (arith, releases-append xs ys)

closing_step :
    (s : Session) (t : Trigger)
    → s.closing ≡ true
    → ((reduce s t).0 ≡ s) × (forwards (reduce s t).1 ≡ false) × (releases (reduce s t).1 ≡ false)
unfolding reduce
closing_step s t h = ground arith

-- Nothing moves a session that closes.
closing_still :
    (ts : List Trigger) (s : Session)
    → s.closing ≡ true
    → ((run s ts).0 ≡ s) × (forwards (run s ts).1 ≡ false) × (releases (run s ts).1 ≡ false)
unfolding run
closing_still [] s h = (refl, refl, refl)
closing_still (t ∷ ts) s h =
    let (same, f, r) = closing_step s t h in
    let later = closing_still ts s h in
    ground (
      arith,
      same,
      f,
      r,
      later,
      forwards-append (reduce s t).1 (run s ts).1,
      releases-append (reduce s t).1 (run s ts).1,
    )

-- The first request to close a window.
closes :
    (s : Session)
    → s.closing ≡ false
    → let r = reduce s close_requested in
      (r.0.closing ≡ true)
      × (r.0.capture ≡ released)
      × (forwards r.1 ≡ false)
      × (releases r.1 ≡ true)
unfolding reduce
closes s h = ground arith

-- From the first request to close on, whatever comes behind it: the session leaves capture with a release-all,
-- nothing is forwarded to the target, and what comes behind the request neither changes the session nor asks for
-- another release.
pub run-closing :
    (s : Session) (ts : List Trigger)
    → s.closing ≡ false
    → let closed = (reduce s close_requested).0 in
      let r = run s (close_requested ∷ ts) in
      (r.0.closing ≡ true)
      × (r.0.capture ≡ released)
      × (forwards r.1 ≡ false)
      × (releases r.1 ≡ true)
      × (r.0 ≡ closed)
      × (releases (run closed ts).1 ≡ false)
unfolding run
run-closing s ts h =
    let closed = (reduce s close_requested).0 in
    let (shut, out, quiet, released_all) = closes s h in
    let (same, f, r) = closing_still ts closed shut in
    (
      ap (λ x. x.closing) same ∙ shut,
      ap (λ x. x.capture) same ∙ out,
      ground (arith, quiet, f, forwards-append (reduce s close_requested).1 (run closed ts).1),
      ground
          (arith, released_all, r, releases-append (reduce s close_requested).1 (run closed ts).1),
      same,
      r,
    )
