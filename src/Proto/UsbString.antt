-- ===== src/Proto/UsbString.antt =====
-- src/proto/usb_string.rs: the `GET_USB_STRING` reply. A text is a list of code points. The decoding
-- and the escapes of the Rust library are parameters.
use nano_kvm_usb_rs.Prelude.{
  ℕ, List, [], ◌∷◌, ◌++◌, Bool, false, ◌==◌, if◌then◌else◌, Result, ok, err, length, ◌≡◌, All,
  All-append, Bool-cases, inl, inr, subst, ap, ==→eq,
}

pub data UsbStringKind : Type 0 where
  manufacturer product serial : UsbStringKind

unfoldable pub request_byte : UsbStringKind → ℕ
request_byte manufacturer = 0
request_byte product = 1
request_byte serial = 2

pub record UsbStrings : Type 0 where
  pub manufacturer : List ℕ
  pub product : List ℕ
  pub serial : List ℕ

unfoldable pub set : UsbStringKind → List ℕ → UsbStrings → UsbStrings
set UsbStringKind.manufacturer value s = record s { manufacturer = value }
set UsbStringKind.product value s = record s { product = value }
set UsbStringKind.serial value s = record s { serial = value }

unfoldable pub get : UsbStringKind → UsbStrings → List ℕ
get UsbStringKind.manufacturer s = s.manufacturer
get UsbStringKind.product s = s.product
get UsbStringKind.serial s = s.serial

pub data UsbStringError : Type 0 where
  empty : UsbStringError
  wrong_type : ℕ → ℕ → UsbStringError

-- `[len, ascii…]` with a length that fits, or the legacy form with none.
unfoldable pub text_bytes : List ℕ → List ℕ
text_bytes [] = []
text_bytes (len ∷ tail) = if len == length tail then tail else len ∷ tail

yielded : {a b : List ℕ} → ◌≡◌ {A = Result (List ℕ) UsbStringError} (ok a) (ok b) → a ≡ b
yielded h = cc

refused :
    {e : UsbStringError} {b : List ℕ} → ◌≡◌ {A = Result (List ℕ) UsbStringError} (err e) (ok b) → ⊥
refused h = cc

-- What the source takes from the Rust library: `String::from_utf8_lossy`, `char::is_control` and
-- `char::escape_debug`.
module _ (from_utf8_lossy : List ℕ → List ℕ) (is_control : ℕ → Bool)
    (escape_debug : ℕ → List ℕ) where
  escape_all : List ℕ → List ℕ
  escape_all [] = []
  escape_all (c ∷ cs) =
      let rest = escape_all cs in if is_control c then escape_debug c ++ rest else c ∷ rest

  unfoldable pub render : List ℕ → List ℕ
  unfolding escape_all
  render bytes = escape_all (from_utf8_lossy bytes)

  unfoldable pub parse_usb_string : UsbStringKind → List ℕ → Result (List ℕ) UsbStringError
  unfolding render text_bytes request_byte
  parse_usb_string kind [] = err empty
  parse_usb_string kind (type_byte ∷ rest) =
      if type_byte == request_byte kind
      then ok (render (text_bytes rest))
      else err (wrong_type (request_byte kind) type_byte)

  abbrev pub IsPrintable : List ℕ → Type 0
  IsPrintable = All (λ c. is_control c ≡ false)

  module _ (escape_printable : (c : ℕ) → IsPrintable (escape_debug c)) where
    escape_all-IsPrintable : (cs : List ℕ) → IsPrintable (escape_all cs)
    unfolding escape_all
    escape_all-IsPrintable [] = tt
    escape_all-IsPrintable (c ∷ cs) = elim (Bool-cases (is_control c)) [
      | inl e ↦
          rw e (All-append _ (escape_debug c) _ (escape_printable c) (escape_all-IsPrintable cs))
      | inr e ↦ rw e (e, escape_all-IsPrintable cs)
    ]

    -- No text that a reply yields holds a control character, whatever bytes the device chose, if
    -- no escape does; a text is yielded only for a reply of the kind that was asked for.
    pub parse_usb_string-IsPrintable :
        (kind : UsbStringKind) (payload : List ℕ) {text : List ℕ}
        → parse_usb_string kind payload ≡ ok text
        → IsPrintable text × ((rest : List ℕ) × (payload ≡ request_byte kind ∷ rest))
    unfolding parse_usb_string
    parse_usb_string-IsPrintable kind [] h = cc
    parse_usb_string-IsPrintable kind (t ∷ rest) {text} h =
        elim (Bool-cases (t == request_byte kind)) [
          | inl e ↦
              (let same : escape_all (from_utf8_lossy (text_bytes rest)) ≡ text =
                  yielded (rw e at h) in
                (
                  subst IsPrintable same
                      (escape_all-IsPrintable (from_utf8_lossy (text_bytes rest))),
                  (rest, ap (λ b. b ∷ rest) (==→eq t _ e)),
                ))
          | inr e ↦ absurd (refused (rw e at h))
        ]
