-- ===== src/Exn.antt =====
-- The exceptions of pypowervm/exceptions.py that the modelled parts raise and catch, with their
-- class relations and their texts.
use pypowervm.Prelude.{
  ℕ, zero, suc, ◌/◌, ◌%◌, String, ◌<>◌, ◌≡◌, refl, Bool, true, false, Option, none, some, [], ◌∷◌,
  ltb, if◌then◌else◌, get_elem?,
}

pub data Exn : Type 0 where
  -- `Error` and the classes for failed requests, with the message
  api_error : String → Exn
  job_request_failed : String → String → Exn
  job_request_timed_out : String → ℕ → Exn
  os_shutdown_no_rmc : String → Exn
  vm_power_off_failure : String → String → Exn
  vm_power_off_timeout : String → ℕ → Exn
  vm_power_on_failure : String → String → Exn
  vm_power_on_timeout : String → ℕ → Exn
  -- the value, the enumeration's name and its values, as texts
  invalid_enum_value : String → String → String → Exn
  -- any exception that is no subclass of `Error`, with its text
  foreign : String → Exn

-- `isinstance(e, Error)`
abbrev pub is_error : Exn → Bool
is_error (foreign _) = false
is_error _ = true

-- `isinstance(e, JobRequestFailed)`
abbrev pub is_job_request_failed : Exn → Bool
is_job_request_failed (job_request_failed _ _) = true
is_job_request_failed (job_request_timed_out _ _) = true
is_job_request_failed _ = false

-- `isinstance(e, VMPowerOffFailure)`
abbrev pub is_vm_power_off_failure : Exn → Bool
is_vm_power_off_failure (vm_power_off_failure _ _) = true
is_vm_power_off_failure (vm_power_off_timeout _ _) = true
is_vm_power_off_failure _ = false

or_empty : Option String → String
or_empty none = ""
or_empty (some d) = d

digit : ℕ → String
unfolding or_empty
digit n = or_empty (get_elem? ("0" ∷ "1" ∷ "2" ∷ "3" ∷ "4" ∷ "5" ∷ "6" ∷ "7" ∷ "8" ∷ "9" ∷ []) n)

digits : ℕ → ℕ → String
digits zero n = ""
digits (suc fuel) n =
    let rest = digits fuel (n / 10) in if ltb n 10 then digit n else rest <> digit (n % 10)

-- `'%d' % n`
unfoldable pub decimal : ℕ → String
unfolding digits digit
decimal n = digits (suc n) n

-- `six.text_type(e)`
unfoldable pub text_of : Exn → String
unfolding decimal
text_of (api_error m) = m
text_of (job_request_failed op error) = "The '" <> op <> "' operation failed. " <> error
text_of (job_request_timed_out op seconds) =
    "The '"
    <> op
    <> "' operation failed. Failed to complete the task in "
    <> decimal seconds
    <> " seconds."
text_of (os_shutdown_no_rmc nm) =
    "Can not perform OS shutdown on Virtual Machine " <> nm
    <> " because its RMC connection is not active."
text_of (vm_power_off_failure nm reason) =
    "Failed to power off Virtual Machine " <> nm <> ": " <> reason
text_of (vm_power_off_timeout nm timeout) =
    "Power off of Virtual Machine " <> nm <> " timed out after " <> decimal timeout <> " seconds."
text_of (vm_power_on_failure nm reason) =
    "Failed to power on Virtual Machine " <> nm <> ": " <> reason
text_of (vm_power_on_timeout nm timeout) =
    "Power on of Virtual Machine " <> nm <> " timed out after " <> decimal timeout <> " seconds."
text_of (invalid_enum_value value enum values) =
    "Invalid value '" <> value <> "' for '" <> enum <> "'.  Valid values are: " <> values
text_of (foreign m) = m

decimal_run : decimal 1208 ≡ "1208"
unfolding decimal
decimal_run = refl
