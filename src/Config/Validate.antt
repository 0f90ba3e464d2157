-- ===== src/Config/Validate.antt =====
-- `validateConfiguration` and `ValidatePort` of internal/config/config.go. The gateway URL is
-- checked by `NormalizeGatewayURL`, which stands on `net/url`: its verdict is a parameter.
use paracetamol.Base.{
  ℕ, ◌^◌, ◌≤◌, Bool, true, false, not, ◌&&◌, ◌||◌, Option, none, some, List, [], ◌∷◌, ◌≡◌, refl,
  ◌↔◌, arith, ltb, leb, ◌==◌, if◌then◌else◌,
}
use paracetamol.Base.Int.{ℤ, pos, ltb_ℤ}
use paracetamol.Base.Result.{Result, ok, err}
use paracetamol.Text.{is_empty, Text, codes, equal, trim_space}
use paracetamol.Config.Types.{Configuration}
use paracetamol.Config.Defaults.{default_configuration}
use paracetamol.Config.Numbers.{is_digit, digits_value}

pub data Invalid : Type 0 where
  applications api_key_file client_api_key_file data_dir profile listen startup_timeout : Invalid
  client_url backend port models_max slots retention_days url : Invalid

abbrev pub Verdict : Type 0
Verdict = Option Invalid

-- the first check that finds a fault
unfoldable pub first_fault : List (Bool × Invalid) → Verdict
first_fault [] = none
first_fault ((fault, e) ∷ rest) = if fault then some e else first_fault rest

-- `filepath.IsAbs` on Linux
abbrev pub is_absolute : Text → Bool
is_absolute [] = false
is_absolute (c ∷ s) = c == b'/'

-- a check of a value that is set
abbrev pub bad {ℓ} : {A : Type ℓ} → (A → Bool) → Option A → Bool
bad test none = false
bad test (some v) = test v

abbrev pub outside : ℕ → ℕ → ℤ → Bool
outside lo hi v = ltb_ℤ v (pos lo) || ltb_ℤ (pos hi) v

-- `*value == "" || !filepath.IsAbs(*value)`
abbrev pub bad_path : Text → Bool
bad_path v = is_empty v || not (is_absolute v)

unfoldable pub blank : Text → Bool
blank v = is_empty (trim_space v)

-- an application other than llama-cpp
unfoldable pub any_unsupported : List Text → Bool
any_unsupported [] = false
any_unsupported (a ∷ rest) = not (equal a (codes "llama-cpp")) || any_unsupported rest

module _ (valid_url : Text → Bool) where
  -- `validateConfiguration`: its checks, in their order
  abbrev pub checks : Configuration → List (Bool × Invalid)
  checks c =
      let g = c.gateway in
      (any_unsupported g.applications, applications)
      ∷ (bad bad_path g.api_key_file, api_key_file)
      ∷ (bad bad_path g.client.api_key_file, client_api_key_file)
      ∷ (bad bad_path c.storage.data_dir, data_dir)
      ∷ (bad blank g.profile, profile)
      ∷ (bad blank g.listen, listen)
      ∷ (bad blank g.startup_timeout, startup_timeout)
      ∷ (bad blank g.client.url, client_url)
      ∷ (bad blank g.llama_cpp.backend, backend)
      ∷ (bad (outside 1 65535) g.port, port)
      ∷ (bad (λ v. ltb_ℤ v (pos 1)) g.llama_cpp.models_max, models_max)
      ∷ (bad (outside 1 64) g.llama_cpp.slots, slots)
      ∷ (bad (outside 30 365) g.statistics.retention_days, retention_days)
      ∷ (bad (λ v. not (valid_url v)) g.client.url, url)
      ∷ []

  unfoldable pub validate_configuration : Configuration → Verdict
  unfolding first_fault
  validate_configuration c = first_fault (checks c)

  -- The defaults are accepted too, for an absolute data directory and if the default URL is.
  default_configuration_accepted :
      (dir : Text)
      → is_absolute dir ≡ true
      → valid_url (codes "http://127.0.0.1:7455/v1") ≡ true
      → validate_configuration (default_configuration dir) ≡ none
  unfolding validate_configuration any_unsupported blank trim_space equal
  default_configuration_accepted [] a u = cc
  default_configuration_accepted (c ∷ dir) a u = rw (a, u) refl

pub data BadPort : Type 0 where
  not_an_integer out_of_range : BadPort

unfoldable pub only_digits : Text → Bool
only_digits [] = true
only_digits (c ∷ s) = is_digit c && only_digits s

-- `ValidatePort`; `strconv.Atoi` of digits fails from 2^63 on
unfoldable pub validate_port : Text → Result BadPort ℕ
unfolding only_digits digits_value
validate_port value =
    let n = digits_value 0 value in
    if is_empty value || not (only_digits value)
    then err not_an_integer
    else if leb (2 ^ 63) n
    then err not_an_integer
    else if ltb n 1 || ltb 65535 n
    then err out_of_range
    else ok n

-- `ValidatePort` accepts exactly the non-empty texts of digits whose value is a port from 1 to
-- 65535, and returns that value.
validate_port_iff :
    (value : Text) (n : ℕ)
    → (validate_port value ≡ ok n) ↔ (
        (is_empty value ≡ false)
        × (only_digits value ≡ true)
        × (digits_value 0 value ≡ n)
        × (1 ≤ n)
        × (n ≤ 65535))
unfolding validate_port
validate_port_iff value n =
    (λ h. (ground arith, ground arith, ground arith, ground arith, ground arith), λ h. ground arith)
