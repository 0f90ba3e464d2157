-- ===== src/Config/Parser.antt =====
-- `parseConfiguration` of internal/config/parser.go: the lines, the sections and the settings.
use Prim.Native.String.{String}
use paracetamol.Base.{
  ℕ, ◌+◌, Bool, false, not, ◌&&◌, ◌||◌, Option, none, some, List, [], ◌∷◌, ◌++◌, ◌==◌,
  if◌then◌else◌,
}
use paracetamol.Base.Int.{ℤ}
use paracetamol.Base.Result.{Result, ok, err, ◌>>=◌}
use paracetamol.Text.{
  is_empty, Text, codes, equal, trim_space, contains, cut, split, unsnoc, has_prefix,
}
use paracetamol.Config.Types.{Configuration, Gateway, empty_configuration}
use paracetamol.Config.Values.{
  Why, not_utf8, malformed_section, unknown_section, duplicate_section, expected_assignment,
  outside_section, unknown_setting, duplicate_setting, expected_boolean, Parsed, strip_comment,
  parse_string,
}
use paracetamol.Config.Numbers.{parse_integer, parse_string_array}

-- membership in `seenSections` and `seenSettings`
unfoldable pub seen : Text → List Text → Bool
unfolding equal
seen s [] = false
seen s (t ∷ ts) = equal s t || seen s ts

abbrev pub known_sections : List Text
known_sections =
    codes "storage"
    ∷ codes "gateway"
    ∷ codes "gateway.client"
    ∷ codes "gateway.llama-cpp"
    ∷ codes "gateway.statistics"
    ∷ []

abbrev ends_with : ℕ → Option (Text × ℕ) → Bool
ends_with c none = false
ends_with c (some (front, last)) = last == c

abbrev front_of : Option (Text × ℕ) → Text
front_of none = []
front_of (some (front, last)) = front

-- `parseConfigurationSection`; the line begins with `[`, and `rest` is what follows that
unfoldable pub parse_section : Text → Parsed Text
unfolding unsnoc has_prefix trim_space seen
parse_section rest =
    let inner = front_of (unsnoc rest) in
    let section = trim_space inner in
    if not (ends_with b']' (unsnoc rest))
      || has_prefix rest (codes "[")
      || ends_with b']' (unsnoc inner)
    then err malformed_section
    else if seen section known_sections
    then ok section
    else err unknown_section

abbrev pub is : Text → String → Bool
is s literal = equal s (codes literal)

abbrev with_gateway : Configuration → (Gateway → Gateway) → Configuration
with_gateway c f = record c { gateway = f c.gateway }

-- `rawValue == "true"` behind the test that it is a Boolean
unfoldable pub parse_boolean : Text → Parsed Bool
unfolding equal
parse_boolean raw =
    if not (is raw "true") && not (is raw "false") then err expected_boolean else ok (is raw "true")

unfoldable pub apply_text : Text → (Text → Configuration) → Parsed Configuration
apply_text raw set = parse_string raw >>= λ value. ok (set value)

unfoldable pub apply_array : Text → (List Text → Configuration) → Parsed Configuration
unfolding parse_string_array
apply_array raw set = parse_string_array raw >>= λ value. ok (set value)

unfoldable pub apply_integer : Text → (ℤ → Configuration) → Parsed Configuration
unfolding parse_integer
apply_integer raw set = parse_integer raw >>= λ value. ok (set value)

unfoldable pub apply_boolean : Text → (Bool → Configuration) → Parsed Configuration
unfolding parse_boolean
apply_boolean raw set = parse_boolean raw >>= λ value. ok (set value)

-- `applyConfigurationSetting`; the error of a value is wrapped, and is that of the value here
unfoldable pub apply_setting : Configuration → Text → Text → Text → Parsed Configuration
apply_setting c section key raw =
    let setting = section ++ b'.' ∷ key in
    let g = c.gateway in
    if is setting "storage.data_dir"
    then apply_text raw (λ v. record c { storage = record { data_dir = some v } })
    else if is setting "gateway.applications"
    then apply_array raw (λ v. record c { gateway = record g { applications = v } })
    else if is setting "gateway.profile"
    then apply_text raw (λ v. record c { gateway = record g { profile = some v } })
    else if is setting "gateway.render_nodes"
    then apply_array raw (λ v. record c { gateway = record g { render_nodes = v } })
    else if is setting "gateway.listen"
    then apply_text raw (λ v. record c { gateway = record g { listen = some v } })
    else if is setting "gateway.port"
    then apply_integer raw (λ v. record c { gateway = record g { port = some v } })
    else if is setting "gateway.startup_timeout"
    then apply_text raw (λ v. record c { gateway = record g { startup_timeout = some v } })
    else if is setting "gateway.client.url"
    then apply_text raw (λ v. record c {
      gateway = record g { client = record { url = some v; api_key_file = g.client.api_key_file } };
    })
    else if is setting "gateway.api_key_file" || is setting "gateway.client.api_key_file"
    then if is section "gateway"
      then apply_text raw (λ v. record c { gateway = record g { api_key_file = some v } })
      else apply_text raw (λ v. record c {
        gateway = record g { client = record { url = g.client.url; api_key_file = some v } };
      })
    else if is setting "gateway.llama-cpp.backend"
    then apply_text raw (λ v. record c {
      gateway = record g {
        llama_cpp = record {
          backend = some v;
          models_max = g.llama_cpp.models_max;
          slots = g.llama_cpp.slots;
        };
      };
    })
    else if is setting "gateway.llama-cpp.models_max"
    then apply_integer raw (λ v. record c {
      gateway = record g {
        llama_cpp = record {
          backend = g.llama_cpp.backend;
          models_max = some v;
          slots = g.llama_cpp.slots;
        };
      };
    })
    else if is setting "gateway.llama-cpp.slots"
    then apply_integer raw (λ v. record c {
      gateway = record g {
        llama_cpp = record {
          backend = g.llama_cpp.backend;
          models_max = g.llama_cpp.models_max;
          slots = some v;
        };
      };
    })
    else if is setting "gateway.statistics.enabled"
    then apply_boolean raw (λ v. record c {
      gateway = record g {
        statistics = record { enabled = some v; retention_days = g.statistics.retention_days };
      };
    })
    else if is setting "gateway.statistics.retention_days"
    then apply_integer raw (λ v. record c {
      gateway = record g {
        statistics = record { enabled = g.statistics.enabled; retention_days = some v };
      };
    })
    else err unknown_setting

-- The variables of the loop over the lines.
pub record Parser : Type 0 where
  pub configuration : Configuration
  pub section : Text
  pub sections : List Text
  pub settings : List Text

-- a line that begins with `[`
unfoldable pub enter_section : Parser → Text → Parsed Parser
unfolding parse_section seen
enter_section p rest = parse_section rest >>= λ section.
    if seen section p.sections
    then err duplicate_section
    else ok (record p { section = section; sections = section ∷ p.sections })

unfoldable pub assign : Parser → Text → Text → Parsed Parser
unfolding contains seen apply_setting
assign p key raw =
    let setting = p.section ++ b'.' ∷ key in
    if is_empty key || is_empty raw
    then err expected_assignment
    else if is_empty p.section
    then err outside_section
    else if contains b'.' key
    then err unknown_setting
    else if seen setting p.settings
    then err duplicate_setting
    else apply_setting p.configuration p.section key raw >>= λ c.
        ok (record p { configuration = c; settings = setting ∷ p.settings })

-- the body of the loop, on a line without its comment and outer spaces
unfoldable pub line_body : Parser → Text → Parsed Parser
unfolding enter_section cut assign
line_body p [] = ok p
line_body p (c ∷ s) = if c == b'[' then enter_section p s else elim (cut b'=' (c ∷ s)) [
  | none ↦ err expected_assignment
  | some (key, raw) ↦ assign p (trim_space key) (trim_space raw)
]

unfoldable pub parse_line : Parser → Text → Parsed Parser
unfolding line_body
parse_line p raw = strip_comment raw >>= λ line. line_body p (trim_space line)

-- An error carries the number of its line.
unfoldable pub parse_lines : ℕ → Parser → List Text → Result (ℕ × Why) Parser
parse_lines number p [] = ok p
parse_lines number p (raw ∷ rest) = elim (parse_line p raw) [
  | err e ↦ err (number, e)
  | ok q ↦ parse_lines (number + 1) q rest
]

abbrev pub fresh : Parser
fresh = record { configuration = empty_configuration; section = []; sections = []; settings = [] }

-- `parseConfiguration`; `none` stands for bytes that are not valid UTF-8 (line 0 for that error)
unfoldable pub parse_configuration : Option Text → Result (ℕ × Why) Configuration
parse_configuration none = err (0, not_utf8)
parse_configuration (some contents) =
    parse_lines 1 fresh (split b'\n' contents) >>= λ p. ok p.configuration
