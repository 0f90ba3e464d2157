-- ===== src/Config/Unique.antt =====
-- The names of sections and settings in an accepted configuration.
use paracetamol.Base.{
  Option, none, sym, subst, if◌then◌else◌, some, ℕ, ◌+◌, true, false, List, [], ◌∷◌, ◌++◌, ◌≡◌,
  arith, ◌==◌, Bool-cases, Option-cases, inl, inr,
}
use paracetamol.Base.Result.{ok, err, Result-cases}
use paracetamol.Text.{Text, codes, trim_space, cut, split, unsnoc}
use paracetamol.Config.Types.{Configuration}
use paracetamol.Config.Values.{Parsed, strip_comment}
use paracetamol.Config.Parser.{
  seen, known_sections, parse_section, apply_setting, Parser, fresh, enter_section, assign,
  line_body, parse_line, parse_lines, parse_configuration,
}

abbrev pub known_settings : List Text
known_settings =
    codes "storage.data_dir"
    ∷ codes "gateway.applications"
    ∷ codes "gateway.profile"
    ∷ codes "gateway.render_nodes"
    ∷ codes "gateway.listen"
    ∷ codes "gateway.port"
    ∷ codes "gateway.startup_timeout"
    ∷ codes "gateway.client.url"
    ∷ codes "gateway.api_key_file"
    ∷ codes "gateway.client.api_key_file"
    ∷ codes "gateway.llama-cpp.backend"
    ∷ codes "gateway.llama-cpp.models_max"
    ∷ codes "gateway.llama-cpp.slots"
    ∷ codes "gateway.statistics.enabled"
    ∷ codes "gateway.statistics.retention_days"
    ∷ []

-- What a line, without its comment and outer spaces, names: nothing, a section or a key.
pub data Line : Type 0 where
  empty_line : Line
  header : Text → Line
  setting : Text → Line

abbrev front_of : Option (Text × ℕ) → Text
front_of none = []
front_of (some (front, last)) = front

abbrev key_of : Option (Text × Text) → Text
key_of none = []
key_of (some (key, raw)) = trim_space key

abbrev pub line_of : Text → Line
line_of [] = empty_line
line_of (c ∷ s) =
    if c == b'['
    then header (trim_space (front_of (unsnoc s)))
    else setting (key_of (cut b'=' (c ∷ s)))

abbrev content_of : Parsed Text → Line
content_of (ok line) = line_of (trim_space line)
content_of (err e) = empty_line

abbrev pub content : Text → Line
content raw = content_of (strip_comment raw)

-- the section behind a line
abbrev pub section_after : Text → Line → Text
section_after section (header next) = next
section_after section _ = section

abbrev pub with_section : Line → List Text → List Text
with_section (header section) names = section ∷ names
with_section _ names = names

abbrev pub with_setting : Text → Line → List Text → List Text
with_setting section (setting key) names = (section ++ b'.' ∷ key) ∷ names
with_setting section _ names = names

-- the sections that the lines of a text enter
abbrev pub sections_named : List Text → List Text
sections_named [] = []
sections_named (raw ∷ rest) = with_section (content raw) (sections_named rest)

-- the settings that they assign, each with its section in front; they begin in `section`
abbrev pub settings_named : Text → List Text → List Text
settings_named section [] = []
settings_named section (raw ∷ rest) =
    with_setting section (content raw) (settings_named (section_after section (content raw)) rest)

-- each entry occurs in `known`, and neither in `before` nor among the entries in front of it
abbrev pub IsUnique : List Text → List Text → List Text → Type 0
IsUnique known before [] = Unit
IsUnique known before (t ∷ ts) =
    (seen t known ≡ true) × (seen t before ≡ false) × IsUnique known (t ∷ before) ts

-- the chain of tests of `applyConfigurationSetting` ends in an error unless one of them holds
parse_section-known :
    (rest section : Text) → parse_section rest ≡ ok section → seen section known_sections ≡ true
unfolding parse_section
parse_section-known rest section h = ground arith

apply_setting-known :
    (c : Configuration) (section key raw : Text) {d : Configuration}
    → apply_setting c section key raw ≡ ok d
    → seen (section ++ b'.' ∷ key) known_settings ≡ true
unfolding apply_setting seen
apply_setting-known c section key raw h = ground arith

-- what an accepted line does to the names that the parser has seen
abbrev Names : Line → Parser → Parser → Type 0
Names empty_line p q = q ≡ p
Names (header section) p q =
    (seen section known_sections ≡ true)
    × (seen section p.sections ≡ false)
    × (q.section ≡ section)
    × (q.sections ≡ section ∷ p.sections)
    × (q.settings ≡ p.settings)
Names (setting key) p q =
    (seen (p.section ++ b'.' ∷ key) known_settings ≡ true)
    × (seen (p.section ++ b'.' ∷ key) p.settings ≡ false)
    × (q.section ≡ p.section)
    × (q.sections ≡ p.sections)
    × (q.settings ≡ (p.section ++ b'.' ∷ key) ∷ p.settings)

parse_section-front :
    (rest section : Text)
    → parse_section rest ≡ ok section
    → section ≡ trim_space (front_of (unsnoc rest))
unfolding parse_section
parse_section-front rest section h = ground arith

enter_section-Names :
    (p q : Parser) (rest : Text)
    → enter_section p rest ≡ ok q
    → Names (header (trim_space (front_of (unsnoc rest)))) p q
unfolding enter_section
enter_section-Names p q rest h = elim (Result-cases (parse_section rest)) [
  | inr (e, bad) ↦ absurd (ground arith)
  | inl (section, fine) ↦
      let known = parse_section-known rest section fine in
      let names : Names (header section) p q = ground arith in
      subst (λ t. Names (header t) p q) (parse_section-front rest section fine) names
]

assign-Names : (p q : Parser) (key raw : Text) → assign p key raw ≡ ok q → Names (setting key) p q
unfolding assign
assign-Names p q key raw h = elim (Result-cases (apply_setting p.configuration p.section key raw)) [
  | inr (e, bad) ↦ absurd (ground arith)
  | inl (c, fine) ↦
      let known = apply_setting-known p.configuration p.section key raw fine in ground arith
]

line_body-Names : (p q : Parser) (line : Text) → line_body p line ≡ ok q → Names (line_of line) p q
unfolding line_body
line_body-Names p q [] h = ground arith
line_body-Names p q (c ∷ s) h = elim (Bool-cases (c == b'[')) [
  | inl section ↦ rw section (enter_section-Names p q s (ground arith))
  | inr other ↦ elim (Option-cases (cut b'=' (c ∷ s))) [
    | inl missing ↦ absurd (ground arith)
    | inr ((key, raw), found) ↦
        rw other (rw found (assign-Names p q (trim_space key) (trim_space raw) (ground arith)))
  ]
]

parse_line-Names : (p q : Parser) (raw : Text) → parse_line p raw ≡ ok q → Names (content raw) p q
unfolding parse_line
parse_line-Names p q raw h = elim (Result-cases (strip_comment raw)) [
  | inr (e, bad) ↦ absurd (ground arith)
  | inl (line, fine) ↦
      subst (λ x. Names (content_of x) p q) (sym fine)
        (line_body-Names p q (trim_space line) (ground arith))
]

-- the names of the lines that are left, against those seen before them
abbrev Fits : Parser → List Text → Type 0
Fits p lines =
    IsUnique known_sections p.sections (sections_named lines)
    × IsUnique known_settings p.settings (settings_named p.section lines)

Names-Fits :
    (l : Line) (p q : Parser) (rest : List Text)
    → Names l p q
    → Fits q rest
    → IsUnique known_sections p.sections (with_section l (sections_named rest))
      × IsUnique known_settings p.settings
          (with_setting p.section l (settings_named (section_after p.section l) rest))
Names-Fits empty_line p q rest n f = subst (λ p. Fits p rest) n f
Names-Fits (header section) p q rest (known, new, here, sections, settings) f =
    ((known, new, rw sections at f.0), rw (here, settings) at f.1)
Names-Fits (setting key) p q rest (known, new, here, sections, settings) f =
    (rw sections at f.0, (known, new, rw (here, settings) at f.1))

parse_lines-Fits :
    (number : ℕ) (p q : Parser) (lines : List Text)
    → parse_lines number p lines ≡ ok q
    → Fits p lines
unfolding parse_lines
parse_lines-Fits number p q [] h = (tt, tt)
parse_lines-Fits number p q (raw ∷ rest) h = elim (Result-cases (parse_line p raw)) [
  | inr (e, bad) ↦ absurd (ground arith)
  | inl (r, fine) ↦
      Names-Fits (content raw) p r rest (parse_line-Names p r raw fine)
        (parse_lines-Fits (number + 1) r q rest (ground arith))
]

-- In a text that `parseConfiguration` accepts, each section header names a known section that no
-- earlier header names, and each assignment a known setting, the key in the section of the last
-- header, that no earlier line assigns. Both are read from the lines alone.
pub parse_configuration-Names :
    (contents : Text) (c : Configuration)
    → parse_configuration (some contents) ≡ ok c
    → IsUnique known_sections [] (sections_named (split b'\n' contents))
      × IsUnique known_settings [] (settings_named [] (split b'\n' contents))
unfolding parse_configuration
parse_configuration-Names contents c h =
    let lines = split b'\n' contents in
    elim (Result-cases (parse_lines 1 fresh lines)) [
      | inr (e, bad) ↦ absurd (ground arith)
      | inl (p, fine) ↦ parse_lines-Fits 1 fresh p lines fine
    ]
