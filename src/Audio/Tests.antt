-- ===== src/Audio/Tests.antt =====
-- Witnesses for the period ring.
use nano_kvm_usb_rs.Prelude.{Option, none, ◌++◌, List, [], ◌∷◌, some, arith, ◌≡◌, refl, All}
use nano_kvm_usb_rs.Audio.Ring.{push, pop, RingConfig, PeriodRing, period_samples, new}
use nano_kvm_usb_rs.Audio.Ring.Order.{IsPart, pushed, played, run-IsPart}
use nano_kvm_usb_rs.Audio.Ring.Counts.{Transfer, pushes, pops, IsWhole, run, run-IsValid}
use nano_kvm_usb_rs.Audio.Ring.Pushing.{IsValid}

abbrev small_config : RingConfig
small_config = record { periods = 2; period_frames = 1 }

abbrev a_pump : List Transfer
a_pump = pops ∷ pushes (1 ∷ 2 ∷ []) ∷ pushes (3 ∷ 4 ∷ []) ∷ pushes (5 ∷ 6 ∷ []) ∷ pops ∷ []

a_pump-IsWhole : All (IsWhole small_config) a_pump
unfolding period_samples
a_pump-IsWhole = (tt, (refl, (refl, (refl, (tt, tt)))))

run-IsValid_example : (r : PeriodRing) × (run a_pump (new small_config) ≡ some r) × IsValid r
run-IsValid_example = run-IsValid small_config a_pump (omega arith) a_pump-IsWhole

abbrev from_some : Option PeriodRing → PeriodRing
from_some none = new small_config
from_some (some r) = r

-- One overrun in the pump above: the first period is gone, the second is played.
abbrev after_pump : PeriodRing
after_pump = from_some (run a_pump (new small_config))

run_of_a_pump : run a_pump (new small_config) ≡ some after_pump
unfolding run new push pop
run_of_a_pump = refl

run-IsPart_example : IsPart (pushed a_pump) (played a_pump (new small_config) ++ after_pump.queue)
run-IsPart_example = run-IsPart small_config a_pump after_pump run_of_a_pump
