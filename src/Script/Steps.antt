-- ===== src/Script/Steps.antt =====
-- src/script/mod.rs: the steps of a compiled script.
use nano_kvm_usb_rs.Prelude.{ℕ, suc, List, [], ◌∷◌, ◌++◌}
use nano_kvm_usb_rs.Proto.Report.{KeyboardReport, keyboard_release_all}

-- The texts `key …`, `type …` and `release`, from what they name.
pub data Label : Type 0 where
  key_label : List ℕ → Label
  type_label : ℕ → Label
  release_label : Label

pub record Outgoing : Type 0 where
  pub label : Label
  pub report : KeyboardReport

-- A wait in milliseconds.
pub data Step : Type 0 where
  send : Outgoing → Step
  wait : ℕ → Step

-- `Script`, a list of steps. `Script::tap` adds the press and the release behind the others.
unfoldable pub tap : ℕ → ℕ → Label → List Step → List Step
tap usage modifiers label script =
    script
    ++ (send (record {
      label = label;
      report = record { modifiers = modifiers; keys = usage ∷ 0 ∷ 0 ∷ 0 ∷ 0 ∷ 0 ∷ [] };
    })
        ∷ send (record { label = release_label; report = keyboard_release_all })
        ∷ [])

unfoldable pub report_count : List Step → ℕ
report_count [] = 0
report_count (send o ∷ steps) = suc (report_count steps)
report_count (wait ms ∷ steps) = report_count steps
