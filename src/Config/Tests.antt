-- ===== src/Config/Tests.antt =====
-- Concrete configurations, and the theorems of the configuration files applied to them.
use paracetamol.Base.{◌↔◌, ℕ, true, false, [], ◌∷◌, ◌++◌, ◌≡◌, refl, some, none, Bool, All}
use paracetamol.Base.Int.{pos}
use paracetamol.Base.Result.{ok, err}
use paracetamol.Text.{Text, codes, trim_space, split}
use paracetamol.Config.Values.{unsupported_escape, strip_comment, parse_string}
use paracetamol.Config.Quoting.{Strips, outside}
use paracetamol.Config.Comments.{strip_comment-Strips}
use paracetamol.Config.Quote.{quote, parse_string-quote, IsKept}
use paracetamol.Config.Refused.{parse_string-quote_refused}
use paracetamol.Config.Parser.{
  known_sections, Parser, apply_text, apply_array, apply_integer, apply_boolean, parse_line,
  parse_lines, parse_configuration,
}
use paracetamol.Config.Defaults.{
  default_contents, default_configuration, parse_configuration-default_contents,
}
use paracetamol.Config.Unique.{
  known_settings, sections_named, settings_named, IsUnique, parse_configuration-Names,
}
use paracetamol.Config.Validate.{validate_configuration, any_unsupported, blank, first_fault}
use paracetamol.Config.Accepted.{IsAccepted, validate_configuration-IsAccepted}

abbrev ascii_only : ℕ → Bool
ascii_only c = false

-- a quote, a backslash and a tab
abbrev home : Text
home = codes "/d\"\\\t"

IsKept-home : All (IsKept ascii_only) home
IsKept-home = (refl, (refl, (refl, (refl, (refl, tt)))))

abbrev commented : Text
commented = codes "url = \"a#b\" # note"

-- a basic string, a literal and a comment that holds a quote
quotes_stripped :
    strip_comment (codes "a = \"#\\\"\" '#\\' # \"") ≡ ok (codes "a = \"#\\\"\" '#\\' ")
unfolding strip_comment
quotes_stripped = refl

stripped : strip_comment commented ≡ ok (codes "url = \"a#b\" ")
unfolding strip_comment
stripped = refl

commented-Strips : Strips outside commented (codes "url = \"a#b\" ")
commented-Strips = (strip_comment-Strips commented (codes "url = \"a#b\" ")).0 stripped

strip_comment-Strips_example :
    (strip_comment commented ≡ ok (codes "url = \"a#b\" "))
    ↔ Strips outside commented (codes "url = \"a#b\" ")
strip_comment-Strips_example = strip_comment-Strips commented (codes "url = \"a#b\" ")

parse_string-quote_example : parse_string (quote ascii_only home) ≡ ok home
parse_string-quote_example = parse_string-quote ascii_only home IsKept-home

-- a vertical tab
parse_string-quote_refused_example :
    parse_string (quote ascii_only (codes "/a" ++ 11 ∷ codes "b")) ≡ err unsupported_escape
parse_string-quote_refused_example =
    parse_string-quote_refused ascii_only (codes "/a") 11 (codes "b") (refl, (refl, tt))
      (refl, refl)

parse_configuration-default_contents_example :
    parse_configuration (some (default_contents ascii_only home)) ≡ ok (default_configuration home)
parse_configuration-default_contents_example =
    parse_configuration-default_contents ascii_only home IsKept-home

abbrev text : Text
text = codes "[gateway.llama-cpp] # backend\nslots = 8\n\n[storage]\ndata_dir = '/srv'\n"

abbrev parsed : Parser
parsed = record {
  configuration = record {
    storage = record { data_dir = some (codes "/srv") };
    gateway = record {
      applications = [];
      profile = none;
      render_nodes = [];
      listen = none;
      port = none;
      startup_timeout = none;
      api_key_file = none;
      client = record { url = none; api_key_file = none };
      llama_cpp = record { backend = none; models_max = none; slots = some (pos 8) };
      statistics = record { enabled = none; retention_days = none };
    };
  };
  section = codes "storage";
  sections = codes "storage" ∷ codes "gateway.llama-cpp" ∷ [];
  settings = codes "storage.data_dir" ∷ codes "gateway.llama-cpp.slots" ∷ [];
}

text_parsed : parse_configuration (some text) ≡ ok parsed.configuration
unfolding parse_configuration parse_lines parse_line strip_comment trim_space split apply_text
    apply_array apply_integer apply_boolean parse_string
text_parsed = refl

parse_configuration-Names_example :
    IsUnique known_sections [] (sections_named (split b'\n' text))
    × IsUnique known_settings [] (settings_named [] (split b'\n' text))
parse_configuration-Names_example = parse_configuration-Names text parsed.configuration text_parsed

abbrev any_url : Text → Bool
any_url u = true

parsed_accepted : validate_configuration any_url parsed.configuration ≡ none
unfolding validate_configuration first_fault any_unsupported blank trim_space
parsed_accepted = refl

parsed_satisfies : IsAccepted any_url parsed.configuration
parsed_satisfies =
    (validate_configuration-IsAccepted any_url parsed.configuration).0 parsed_accepted

validate_configuration-IsAccepted_example :
    (validate_configuration any_url parsed.configuration ≡ none)
    ↔ IsAccepted any_url parsed.configuration
validate_configuration-IsAccepted_example =
    validate_configuration-IsAccepted any_url parsed.configuration
