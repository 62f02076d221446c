-- ===== src/Input/Event.antt =====
-- src/input/mod.rs: what a producer submits, and why a call is refused.
use nano_kvm_usb_rs.Prelude.{ℕ, Bool}
use nano_kvm_usb_rs.Prelude.Int.{ℤ}
use nano_kvm_usb_rs.Proto.Report.{HidKey}

pub data Event : Type 0 where
  key : HidKey → Bool → Event
  button : ℕ → Bool → Event
  pointer_abs : ℕ → ℕ → Event
  pointer_rel : ℤ → ℤ → Event
  wheel : ℤ → Event

pub data SubmitError : Type 0 where
  disengaged overflow link_down shutting_down : SubmitError

pub data EngageError : Type 0 where
  not_yet_acked : ℕ → ℕ → EngageError
  shutting_down : EngageError
