-- ===== src/Config/Accepted.antt =====
-- The configurations that `validateConfiguration` of internal/config/config.go accepts.
use paracetamol.Base.{
  ℕ, ◌≤◌, Bool, true, false, not, Option, none, some, List, [], ◌∷◌, ◌++◌, ◌≡◌, refl, ap, ◌↔◌,
  arith, All, Bool-cases, inl, inr,
}
use paracetamol.Base.Int.{ℤ, pos, negsuc, ltb_ℤ}
use paracetamol.Text.{is_empty, Text, codes, is_space, keep, trim_left, trim_right, trim_space}
use paracetamol.Ledger.Maps.{equal→≡, equal_refl}
use paracetamol.Config.Types.{Configuration}
use paracetamol.Config.Validate.{
  Invalid, first_fault, bad, outside, bad_path, blank, any_unsupported, checks,
  validate_configuration,
}

first_fault-none :
    (checks : List (Bool × Invalid)) → first_fault checks ≡ none → All (λ c. c.0 ≡ false) checks
unfolding first_fault
first_fault-none [] h = tt
first_fault-none ((true, e) ∷ rest) h = cc
first_fault-none ((false, e) ∷ rest) h = (refl, first_fault-none rest h)

none-first_fault :
    (checks : List (Bool × Invalid)) → All (λ c. c.0 ≡ false) checks → first_fault checks ≡ none
unfolding first_fault
none-first_fault [] h = refl
none-first_fault ((fault, e) ∷ rest) h = rw h.0 (none-first_fault rest h.1)

-- a text that is set has a character other than a space
abbrev pub Visible : Option Text → Type 0
Visible none = Unit
Visible (some v) = (c : ℕ) × (front back : Text) × (v ≡ front ++ c ∷ back) × (is_space c ≡ false)

is_empty-trim_right : (s : Text) → is_empty (trim_right s) ≡ false → is_empty s ≡ false
unfolding trim_right
is_empty-trim_right [] h = h
is_empty-trim_right (c ∷ s) h = refl

trim_space-trim_left : (v : Text) → blank v ≡ false → is_empty (trim_left v) ≡ false
unfolding blank trim_space
trim_space-trim_left v h = is_empty-trim_right (trim_left v) h

trim_left-Visible : (v : Text) → is_empty (trim_left v) ≡ false → Visible (some v)
unfolding trim_left
trim_left-Visible [] h = absurd (ground arith)
trim_left-Visible (c ∷ s) h = elim (Bool-cases (is_space c)) [
  | inl space ↦
      let (d, front, back, e, visible) = trim_left-Visible s (ground arith) in
      (d, c ∷ front, back, ap (◌∷◌ c) e, visible)
  | inr visible ↦ (c, [], s, refl, visible)
]

Visible-tail :
    (d : ℕ) (s : Text) (c : ℕ) (front back : Text)
    → d ∷ s ≡ front ++ c ∷ back
    → is_space c ≡ false
    → is_space d ≡ true
    → Visible (some s)
Visible-tail d s c [] back e visible space = absurd (ground (arith, e))
Visible-tail d s c (f ∷ front) back e visible space = (c, front, back, cc e, visible)

-- what is left of a text that has one begins with such a character
Visible-trim_left :
    (v : Text)
    → Visible (some v)
    → (d : ℕ) × (s : Text) × (trim_left v ≡ d ∷ s) × (is_space d ≡ false)
unfolding trim_left
Visible-trim_left [] (c, [], back, e, visible) = absurd (cc e)
Visible-trim_left [] (c, d ∷ front, back, e, visible) = absurd (cc e)
Visible-trim_left (d ∷ s) (c, front, back, e, visible) = elim (Bool-cases (is_space d)) [
  | inr here ↦ (d, s, rw here refl, here)
  | inl space ↦ rw space (Visible-trim_left s (Visible-tail d s c front back e visible space))
]

keep-visible : (d : ℕ) (s : Text) → is_space d ≡ false → is_empty (keep d s) ≡ false
unfolding keep
keep-visible d [] visible = rw visible refl
keep-visible d (c ∷ s) visible = refl

trim_right-visible : (d : ℕ) (s : Text) → is_space d ≡ false → is_empty (trim_right (d ∷ s)) ≡ false
unfolding trim_right
trim_right-visible d s visible = keep-visible d (trim_right s) visible

Visible-blank : (v : Option Text) → Visible v → bad blank v ≡ false
unfolding blank trim_space
Visible-blank none h = refl
Visible-blank (some v) h =
    let (d, s, e, visible) = Visible-trim_left v h in rw e (trim_right-visible d s visible)

-- an integer that is set lies in the range
abbrev pub Within : ℕ → ℕ → Option ℤ → Type 0
Within lo hi none = Unit
Within lo hi (some v) = (n : ℕ) × (v ≡ pos n) × (lo ≤ n) × (n ≤ hi)

abbrev pub AtLeastOne : Option ℤ → Type 0
AtLeastOne none = Unit
AtLeastOne (some v) = (n : ℕ) × (v ≡ pos n) × (1 ≤ n)

outside-Within :
    (lo hi : ℕ) (v : Option ℤ) → bad (outside lo hi) v ≡ false → 1 ≤ lo → Within lo hi v
outside-Within lo hi none h l = tt
outside-Within lo hi (some (pos n)) h l = (n, refl, ground arith, ground arith)
outside-Within lo hi (some (negsuc n)) h l = absurd (ground arith)

below-AtLeastOne : (v : Option ℤ) → bad (λ v. ltb_ℤ v (pos 1)) v ≡ false → AtLeastOne v
below-AtLeastOne none h = tt
below-AtLeastOne (some (pos n)) h = (n, refl, ground arith)
below-AtLeastOne (some (negsuc n)) h = absurd (ground arith)

Within-outside : (lo hi : ℕ) (v : Option ℤ) → Within lo hi v → bad (outside lo hi) v ≡ false
Within-outside lo hi none h = refl
Within-outside lo hi (some v) (n, e, low, high) = rw e (ground arith)

AtLeastOne-below : (v : Option ℤ) → AtLeastOne v → bad (λ v. ltb_ℤ v (pos 1)) v ≡ false
AtLeastOne-below none h = refl
AtLeastOne-below (some v) (n, e, low) = rw e (ground arith)

-- a text that is set begins with a slash
abbrev pub Absolute : Option Text → Type 0
Absolute none = Unit
Absolute (some v) = (rest : Text) × (v ≡ b'/' ∷ rest)

bad_path-Absolute : (v : Option Text) → bad bad_path v ≡ false → Absolute v
bad_path-Absolute none h = tt
bad_path-Absolute (some []) h = absurd (ground arith)
bad_path-Absolute (some (c ∷ rest)) h = (rest, ap (λ c. c ∷ rest) (ground arith))

Absolute-bad_path : (v : Option Text) → Absolute v → bad bad_path v ≡ false
Absolute-bad_path none h = refl
Absolute-bad_path (some v) (rest, e) = rw e refl

blank-Visible : (v : Option Text) → bad blank v ≡ false → Visible v
blank-Visible none h = tt
blank-Visible (some v) h = trim_left-Visible v (trim_space-trim_left v h)

any_unsupported-All :
    (xs : List Text) → any_unsupported xs ≡ false → All (λ a. a ≡ codes "llama-cpp") xs
unfolding any_unsupported
any_unsupported-All [] h = tt
any_unsupported-All (a ∷ rest) h =
    (equal→≡ a (codes "llama-cpp") (ground arith), any_unsupported-All rest (ground arith))

All-any_unsupported :
    (xs : List Text) → All (λ a. a ≡ codes "llama-cpp") xs → any_unsupported xs ≡ false
unfolding any_unsupported
All-any_unsupported [] h = refl
All-any_unsupported (a ∷ rest) h =
    rw (h.0, equal_refl (codes "llama-cpp")) (All-any_unsupported rest h.1)

module _ (valid_url : Text → Bool) where
  abbrev pub Allowed : Option Text → Type 0
  Allowed none = Unit
  Allowed (some v) = valid_url v ≡ true

  bad_url-Allowed : (v : Option Text) → bad (λ v. not (valid_url v)) v ≡ false → Allowed v
  bad_url-Allowed none h = tt
  bad_url-Allowed (some v) h = ground arith

  Allowed-bad_url : (v : Option Text) → Allowed v → bad (λ v. not (valid_url v)) v ≡ false
  Allowed-bad_url none h = refl
  Allowed-bad_url (some v) h = rw h refl

  -- what an accepted configuration satisfies
  pub record IsAccepted (c : Configuration) : Type 0 where
    pub supported : All (λ a. a ≡ codes "llama-cpp") c.gateway.applications
    pub key_path : Absolute c.gateway.api_key_file
    pub client_key_path : Absolute c.gateway.client.api_key_file
    pub data_path : Absolute c.storage.data_dir
    pub profile_visible : Visible c.gateway.profile
    pub listen_visible : Visible c.gateway.listen
    pub timeout_visible : Visible c.gateway.startup_timeout
    pub url_visible : Visible c.gateway.client.url
    pub backend_visible : Visible c.gateway.llama_cpp.backend
    pub url_allowed : Allowed c.gateway.client.url
    pub port_range : Within 1 65535 c.gateway.port
    pub models_range : AtLeastOne c.gateway.llama_cpp.models_max
    pub slots_range : Within 1 64 c.gateway.llama_cpp.slots
    pub retention_range : Within 30 365 c.gateway.statistics.retention_days

  checks-IsAccepted :
      (c : Configuration) → All (λ c. c.0 ≡ false) (checks valid_url c) → IsAccepted c
  checks-IsAccepted c a =
      let blanks = a.1.1.1.1 in
      let late = blanks.1.1.1.1.1 in
      record {
        supported = any_unsupported-All c.gateway.applications a.0;
        key_path = bad_path-Absolute c.gateway.api_key_file a.1.0;
        client_key_path = bad_path-Absolute c.gateway.client.api_key_file a.1.1.0;
        data_path = bad_path-Absolute c.storage.data_dir a.1.1.1.0;
        profile_visible = blank-Visible c.gateway.profile blanks.0;
        listen_visible = blank-Visible c.gateway.listen blanks.1.0;
        timeout_visible = blank-Visible c.gateway.startup_timeout blanks.1.1.0;
        url_visible = blank-Visible c.gateway.client.url blanks.1.1.1.0;
        backend_visible = blank-Visible c.gateway.llama_cpp.backend blanks.1.1.1.1.0;
        url_allowed = bad_url-Allowed c.gateway.client.url late.1.1.1.1.0;
        port_range = outside-Within 1 65535 c.gateway.port late.0 (omega arith);
        models_range = below-AtLeastOne c.gateway.llama_cpp.models_max late.1.0;
        slots_range = outside-Within 1 64 c.gateway.llama_cpp.slots late.1.1.0 (omega arith);
        retention_range =
            outside-Within 30 365 c.gateway.statistics.retention_days late.1.1.1.0 (omega arith);
      }

  IsAccepted-checks :
      (c : Configuration) → IsAccepted c → All (λ c. c.0 ≡ false) (checks valid_url c)
  IsAccepted-checks c a = (
    All-any_unsupported c.gateway.applications a.supported,
    (
      Absolute-bad_path c.gateway.api_key_file a.key_path,
      (
        Absolute-bad_path c.gateway.client.api_key_file a.client_key_path,
        (
          Absolute-bad_path c.storage.data_dir a.data_path,
          (
            Visible-blank c.gateway.profile a.profile_visible,
            (
              Visible-blank c.gateway.listen a.listen_visible,
              (
                Visible-blank c.gateway.startup_timeout a.timeout_visible,
                (
                  Visible-blank c.gateway.client.url a.url_visible,
                  (
                    Visible-blank c.gateway.llama_cpp.backend a.backend_visible,
                    (
                      Within-outside 1 65535 c.gateway.port a.port_range,
                      (
                        AtLeastOne-below c.gateway.llama_cpp.models_max a.models_range,
                        (
                          Within-outside 1 64 c.gateway.llama_cpp.slots a.slots_range,
                          (
                            Within-outside 30 365 c.gateway.statistics.retention_days
                                a.retention_range,
                            (Allowed-bad_url c.gateway.client.url a.url_allowed, tt),
                          ),
                        ),
                      ),
                    ),
                  ),
                ),
              ),
            ),
          ),
        ),
      ),
    ),
  )

  -- `validateConfiguration` accepts exactly the configurations in which every application is
  -- llama-cpp and, wherever one is set, a path begins with a slash, the profile, the listen
  -- address, the startup timeout, the client URL and the backend have a character that is not a
  -- space, `NormalizeGatewayURL` takes the URL, the port is from 1 to 65535, the number of models
  -- at least 1, the slots are from 1 to 64 and the days of retention from 30 to 365.
  pub validate_configuration-IsAccepted :
      (c : Configuration) → (validate_configuration valid_url c ≡ none) ↔ IsAccepted c
  unfolding validate_configuration
  validate_configuration-IsAccepted c = (
    λ h. checks-IsAccepted c (first_fault-none (checks valid_url c) h),
    λ a. none-first_fault (checks valid_url c) (IsAccepted-checks c a),
  )
