-- ===== src/Config/Defaults.antt =====
-- `DefaultContents` of internal/config/config.go, and how `parseConfiguration` reads it. The
-- constants that the source prints by `strconv.Itoa` and `strconv.Quote` stand in the text.
use paracetamol.Base.{
  ℕ, ◌+◌, Bool, true, false, ◌||◌, none, some, List, [], ◌∷◌, ◌++◌, ◌≡◌, refl, arith, ◌==◌, length,
  All, ◌∙◌, ap, inl, inr, ==_refl,
}
use paracetamol.Base.Int.{pos}
use paracetamol.Base.Result.{ok, ◌>>=◌, Result-cases}
use paracetamol.Text.{is_empty, Text, codes, is_space, trim_space, split, split_onto, contains}
use paracetamol.Config.Types.{Configuration, empty_configuration}
use paracetamol.Config.Values.{strip_from, strip_comment, parse_string}
use paracetamol.Config.Parser.{
  Parser, fresh, apply_text, apply_array, apply_integer, apply_boolean, assign, parse_line,
  parse_lines, parse_configuration,
}
use paracetamol.Config.Quote.{
  quote, quote_body, IsKept, plain, escaped, IsKept-Kept, parse_string-quote, trim_space_between,
}

abbrev head_text : Text
head_text =
    codes
      "# Paracetamol host configuration. Command-line flags override corresponding\n# environment variables where defined; both override these values.\n\n[storage]\ndata_dir = "

abbrev tail_text : Text
tail_text =
    codes
      "\n[gateway]\n# Empty lists keep automatic backend and render-node discovery.\n# Loopback is always available; a non-loopback listen address adds publication.\napplications = []\nprofile = \"auto\"\nrender_nodes = []\nlisten = \"127.0.0.1\"\nport = 7455\nstartup_timeout = \"30m\"\n# Optional Bearer authentication. Use a private file containing a random key.\n# api_key_file = \"/absolute/path/to/gateway.key\"\n\n[gateway.client]\nurl = \"http://127.0.0.1:7455/v1\"\n# Client credentials are separate, including for a local gateway.\n# api_key_file = \"/absolute/path/to/gateway.key\"\n\n[gateway.llama-cpp]\nbackend = \"rocm\"\nmodels_max = 1\n# Simultaneous requests per loaded model, sharing its configured KV token pool.\nslots = 4\n\n[gateway.statistics]\n# Private daily totals only; no prompts, responses, or client identities.\nenabled = true\nretention_days = 90\n"

unfoldable pub default_contents : (ℕ → Bool) → Text → Text
default_contents is_print data_dir = head_text ++ (quote is_print data_dir ++ b'\n' ∷ tail_text)

-- what the defaults say
abbrev pub default_configuration : Text → Configuration
default_configuration data_dir = record {
  storage = record { data_dir = some data_dir };
  gateway = record {
    applications = [];
    profile = some (codes "auto");
    render_nodes = [];
    listen = some (codes "127.0.0.1");
    port = some (pos 7455);
    startup_timeout = some (codes "30m");
    api_key_file = none;
    client = record { url = some (codes "http://127.0.0.1:7455/v1"); api_key_file = none };
    llama_cpp = record {
      backend = some (codes "rocm");
      models_max = some (pos 1);
      slots = some (pos 4);
    };
    statistics = record { enabled = some true; retention_days = some (pos 90) };
  };
}

parse_lines-append :
    (n : ℕ) (p q : Parser) (before after : List Text)
    → parse_lines n p before ≡ ok q
    → parse_lines n p (before ++ after) ≡ parse_lines (n + length before) q after
unfolding parse_lines
parse_lines-append n p q [] after e = ground arith
parse_lines-append n p q (raw ∷ before) after e = elim (Result-cases (parse_line p raw)) [
  | inl (r, h) ↦
      rw (h, parse_lines)
        (parse_lines-append (n + 1) r q before after (rw (h, parse_lines) at e)
          ∙ ap (λ (k : ℕ). parse_lines k q after) (omega arith))
  | inr (x, h) ↦ absurd (ground (arith, h))
]

split_onto-append :
    (c : ℕ) (line rest : Text)
    → contains c line ≡ false
    → split_onto c (line ++ c ∷ rest) ≡ (line, split c rest)
unfolding split_onto contains split
split_onto-append c [] rest h = rw (==_refl c) refl
split_onto-append c (d ∷ line) rest h = ground (arith, split_onto-append c line rest)

strip_from-escape :
    (e : ℕ) (rest : Text)
    → strip_from b'"' false (b'\\' ∷ e ∷ rest)
      ≡ (strip_from b'"' false rest >>= λ s. ok (b'\\' ∷ e ∷ s))
unfolding strip_from
strip_from-escape e rest = elim (Result-cases (strip_from b'"' false rest)) [
  | inl (s, h) ↦ rw (h, strip_from) refl
  | inr (x, h) ↦ rw (h, strip_from) refl
]

strip_from-plain :
    (c : ℕ) (rest : Text)
    → (c == b'"' || c == b'\\' || c == b'\n') ≡ false
    → strip_from b'"' false (c ∷ rest) ≡ (strip_from b'"' false rest >>= λ s. ok (c ∷ s))
unfolding strip_from
strip_from-plain c rest n = ground arith

module _ (is_print : ℕ → Bool) where
  strip_from-quote_body :
      (s : Text)
      → All (IsKept is_print) s
      → strip_from b'"' false (quote_body is_print s ++ b'"' ∷ [])
        ≡ ok (quote_body is_print s ++ b'"' ∷ [])
  unfolding quote_body
  strip_from-quote_body [] k = unfold strip_from in refl
  strip_from-quote_body (c ∷ s) k =
      let ih = strip_from-quote_body s k.1 in
      elim (IsKept-Kept is_print c k.0) [
        | plain q v u n ↦ rw q (strip_from-plain c _ n ∙ rw ih refl)
        | escaped e q v u n ↦ rw q (strip_from-escape e _ ∙ rw ih refl)
      ]

  contains-quote_body :
      (s : Text)
      → All (IsKept is_print) s
      → contains b'\n' (quote_body is_print s ++ b'"' ∷ []) ≡ false
  unfolding quote_body contains
  contains-quote_body [] k = refl
  contains-quote_body (c ∷ s) k =
      let ih = contains-quote_body s k.1 in
      elim (IsKept-Kept is_print c k.0) [
        | plain q v u n ↦ rw q (ground (arith, n, ih))
        | escaped e q v u n ↦ rw q (rw n ih)
      ]

-- the parser in the section `[storage]`, and behind the line of `data_dir`
abbrev in_storage : Parser
in_storage = record {
  configuration = empty_configuration;
  section = codes "storage";
  sections = codes "storage" ∷ [];
  settings = [];
}

abbrev with_data_dir : Text → Parser
with_data_dir dir = record {
  configuration = record empty_configuration { storage = record { data_dir = some dir } };
  section = codes "storage";
  sections = codes "storage" ∷ [];
  settings = codes "storage.data_dir" ∷ [];
}

abbrev data_dir_line : Text → Text
data_dir_line q = codes "data_dir = " ++ q

assign_data_dir :
    (raw dir : Text)
    → is_empty raw ≡ false
    → ((set : Text → Configuration) → apply_text raw set ≡ ok (set dir))
    → assign in_storage (codes "data_dir") raw ≡ ok (with_data_dir dir)
unfolding assign
assign_data_dir raw dir full reads = rw full (rw reads refl)

trim_space-space : (s : Text) → trim_space (b' ' ∷ s) ≡ trim_space s
unfolding trim_space
trim_space-space s = refl

module _ (is_print : ℕ → Bool) (dir : Text) (kept : All (IsKept is_print) dir) where
  strip_comment_data_dir :
      strip_comment (data_dir_line (quote is_print dir)) ≡ ok (data_dir_line (quote is_print dir))
  unfolding strip_comment strip_from quote
  strip_comment_data_dir = rw (strip_from-quote_body is_print dir kept, strip_from) refl

  trim_quote : trim_space (quote is_print dir) ≡ quote is_print dir
  unfolding quote is_space
  trim_quote = trim_space_between b'"' (quote_body is_print dir) b'"' refl refl

  trim_data_dir :
      trim_space (data_dir_line (quote is_print dir)) ≡ data_dir_line (quote is_print dir)
  unfolding quote is_space
  trim_data_dir =
      trim_space_between b'd' (codes "ata_dir = \"" ++ quote_body is_print dir) b'"' refl refl

  apply_text-quote :
      (set : Text → Configuration) → apply_text (quote is_print dir) set ≡ ok (set dir)
  unfolding apply_text
  apply_text-quote set = rw (parse_string-quote is_print dir kept) refl

  quote_not_empty : (raw : Text) → raw ≡ quote is_print dir → is_empty raw ≡ false
  unfolding quote
  quote_not_empty raw e = rw e refl

  parse_data_dir :
      parse_line in_storage (data_dir_line (quote is_print dir)) ≡ ok (with_data_dir dir)
  unfolding parse_line
  parse_data_dir = rw strip_comment_data_dir (
      rw trim_data_dir (
        rw (trim_space-space (quote is_print dir), trim_quote)
          (assign_data_dir (quote is_print dir) dir (quote_not_empty _ refl) apply_text-quote)))

lines_before : List Text
lines_before =
    codes "# Paracetamol host configuration. Command-line flags override corresponding"
    ∷ codes "# environment variables where defined; both override these values."
    ∷ []
    ∷ codes "[storage]"
    ∷ []

parse_before : parse_lines 1 fresh lines_before ≡ ok in_storage
unfolding parse_lines parse_line lines_before strip_comment trim_space
parse_before = refl

parse_after :
    (dir : Text)
    → (parse_lines 6 (with_data_dir dir) (split b'\n' tail_text) >>= λ p. ok p.configuration)
      ≡ ok (default_configuration dir)
unfolding parse_lines parse_line strip_comment trim_space split apply_text apply_array apply_integer
    apply_boolean parse_string
parse_after dir = refl

module _ (is_print : ℕ → Bool) (dir : Text) (kept : All (IsKept is_print) dir) where
  contains-quote : contains b'\n' (quote is_print dir) ≡ false
  unfolding quote contains
  contains-quote = contains-quote_body is_print dir kept

  split-default_contents :
      split b'\n' (default_contents is_print dir)
      ≡ lines_before ++ data_dir_line (quote is_print dir) ∷ split b'\n' tail_text
  unfolding default_contents split lines_before
  split-default_contents =
      rw (split_onto-append b'\n' (quote is_print dir) tail_text contains-quote, split_onto) refl

-- The file that `DefaultContents` writes is accepted, and says what the defaults say, for every
-- data directory of printable characters and the controls \b, \t, \n, \f and \r; a printable
-- character is one of ASCII, quotes and backslashes included, or one beyond 0x7f that
-- `unicode.IsPrint` takes. Characters that are written by a \u or \U escape are left out.
pub parse_configuration-default_contents :
    (is_print : ℕ → Bool) (dir : Text)
    → All (IsKept is_print) dir
    → parse_configuration (some (default_contents is_print dir)) ≡ ok (default_configuration dir)
unfolding parse_configuration parse_lines lines_before
parse_configuration-default_contents is_print dir kept =
    let q = quote is_print dir in
    let rest = split b'\n' tail_text in
    let first =
      parse_lines-append 1 fresh in_storage lines_before (data_dir_line q ∷ rest) parse_before in
    rw (split-default_contents is_print dir kept)
      (rw first (rw (parse_data_dir is_print dir kept, parse_lines) (parse_after dir)))
