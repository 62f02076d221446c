-- ===== src/Input/Protocol/Settles.antt =====
-- src/input/writer.rs: a release that is owed can always be completed, by the writer alone.
use nano_kvm_usb_rs.Prelude.{false, if◌then◌else◌, ◌≡◌, ok, err}
use nano_kvm_usb_rs.Input.Event.{EngageError}
use nano_kvm_usb_rs.Input.Shared.{Shared, engage}
use nano_kvm_usb_rs.Input.Protocol.{Phase, idle, Move}

-- The writer's moves, with no call of another thread between them.
pub data Runs : Shared → Phase → Shared → Phase → Type 0 where
  stop : (s : Shared) (p : Phase) → Runs s p s p
  go : {s t u : Shared} {p q r : Phase} → Move s p t q → Runs t q u r → Runs s p u r

-- Nothing is owed, and a session is refused only by a shutdown.
pub record IsSettled (s : Shared) : Type 0 where
  pub quiet : s.cancel ≡ false
  pub acknowledged : s.acked_epoch ≡ s.requested_epoch
  pub engages : (engage s).0 ≡ (if s.shutting_down then err EngageError.shutting_down else ok tt)

abbrev pub Settles : Shared → Phase → Type 0
Settles s p = (t : Shared) × Runs s p t idle × IsSettled t

first : {s t : Shared} {p q : Phase} → Move s p t q → Settles t q → Settles s p
first m (u, runs, settled) = (u, go m runs, settled)
