-- ===== src/Podman/Client.antt =====
-- The methods of `podman.Client` that the gateway uses.
use paracetamol.Base.{
  ℕ, ◌==◌, Bool, true, false, not, ◌&&◌, Option, none, some, List, [], ◌∷◌, ◌++◌, ltb, leb,
  if◌then◌else◌,
}
use paracetamol.Text.{Text, codes, equal, is_space, is_empty, trim_space}
use paracetamol.Podman.Machine.{
  Reply, not_run, exited, podman, look_path, not_installed, cannot_query, rootful, unsupported_kind,
  not_started, cannot_inspect, cannot_decode_labels, invalid_port, ambiguous_port,
  invalid_published_port, not_loopback, invalid_request, command_failed, Host, Action, pure, fail,
  ◌>>=◌, ◌>>◌, fail_if, call,
}

-- encoding/json, net and strconv: labels as a function, empty where there is none; a host and a
-- port; whether an address is a loopback address; a decimal integer
pub record Formats : Type 0 where
  pub decode_labels : Text → Option (Text → Text)
  pub split_host_port : Text → Option (Text × Text)
  pub is_loopback : Text → Bool
  pub atoi : Text → Option ℕ

-- `strings.Fields`: `word` is the field that is being read
unfoldable pub fields_from : Text → Text → List Text
unfolding is_space
fields_from word [] = if is_empty word then [] else word ∷ []
fields_from word (c ∷ s) =
    let rest = fields_from (if is_space c then [] else word ++ c ∷ []) s in
    if is_space c && not (is_empty word) then word ∷ rest else rest

-- `<` on strings
abbrev pub less_text : Text → Text → Bool
less_text [] [] = false
less_text [] (d ∷ t) = true
less_text (c ∷ s) [] = false
less_text (c ∷ s) (d ∷ t) = let rest = less_text s t in if c == d then rest else ltb c d

-- a place in a sorted list without duplicates, what `unique` and `sort.Strings` make of a list
unfoldable pub insert_sorted : Text → List Text → List Text
unfolding equal
insert_sorted name [] = name ∷ []
insert_sorted name (other ∷ names) =
    let rest = insert_sorted name names in
    if equal name other
    then other ∷ names
    else if less_text name other
    then name ∷ other ∷ names
    else other ∷ rest

unfoldable pub sort_unique : List Text → List Text
unfolding insert_sorted
sort_unique [] = []
sort_unique (name ∷ names) = insert_sorted name (sort_unique names)

abbrev pub managed_container_label : Text
managed_container_label = codes "io.github.fff7d1bc.paracetamol.managed"

abbrev pub managed_application_label : Text
managed_application_label = codes "io.github.fff7d1bc.paracetamol.application"

abbrev pub managed_role_label : Text
managed_role_label = codes "io.github.fff7d1bc.paracetamol.role"

abbrev pub inspect_arguments : Text → List Text
inspect_arguments name =
    codes "inspect" ∷ codes "--format" ∷ codes "{{json .Config.Labels}}" ∷ name ∷ []

abbrev pub valid_port : ℕ → Bool
valid_port port = leb 1 port && leb port 65535

-- What is made of the one line of `podman port`: the number of its port, its parts, and the lines.
abbrev pub port_number : Formats → Text → Option ℕ → Action ℕ
port_number formats address none = fail not_loopback
port_number formats address (some port) =
    if formats.is_loopback address && valid_port port then pure port else fail not_loopback

abbrev pub split_port : Formats → Option (Text × Text) → Action ℕ
split_port formats none = fail invalid_published_port
split_port formats (some (address, port_text)) =
    port_number formats address (formats.atoi port_text)

unfoldable pub published_port : Formats → List Text → Action ℕ
published_port formats (line ∷ []) = split_port formats (formats.split_host_port line)
published_port formats _ = fail ambiguous_port

-- the arguments of `RemoveContainer` with two seconds of grace, as the gateway calls it
abbrev pub remove_arguments : Text → List Text
remove_arguments name =
    codes "rm" ∷ codes "--force" ∷ codes "--time" ∷ codes "2" ∷ codes "--ignore" ∷ name ∷ []

abbrev pub names_arguments : Text → List Text
names_arguments application =
    let filter_application =
      if is_empty application
      then []
      else codes "--filter"
        ∷ (codes "label=" ++ managed_application_label ++ codes "=" ++ application)
        ∷ [] in
    codes "ps"
    ∷ codes "--all"
    ∷ codes "--filter"
    ∷ (codes "label=" ++ managed_container_label ++ codes "=true")
    ∷ (filter_application ++ codes "--format" ∷ codes "{{.Names}}" ∷ [])

-- What the methods make of the reply to their call.
abbrev pub rootless_reply : Reply → Action (Unit {0})
rootless_reply not_run = fail cannot_query
rootless_reply (exited status out errors) = do
  fail_if (not (status == 0)) cannot_query
  fail_if (not (equal (trim_space out) (codes "true"))) rootful

abbrev pub is_missing : Reply → Bool
is_missing not_run = true
is_missing (exited status out errors) = false

abbrev pub exists_reply : Reply → Action Bool
exists_reply not_run = fail not_started
exists_reply (exited status out errors) =
    if status == 0 then pure true else if status == 1 then pure false else fail cannot_inspect

abbrev pub names_reply : Reply → Action (List Text)
names_reply not_run = fail cannot_inspect
names_reply (exited status out errors) =
    if status == 0 then pure (sort_unique (fields_from [] out)) else fail cannot_inspect

abbrev pub capture_reply : Reply → Action Text
capture_reply not_run = fail command_failed
capture_reply (exited status out errors) =
    if status == 0 then pure (trim_space out) else fail command_failed

abbrev pub execute_reply : Reply → Action (Unit {0})
execute_reply not_run = fail command_failed
execute_reply (exited status out errors) = fail_if (not (status == 0)) command_failed

abbrev pub decoded_labels : Option (Text → Text) → Action (Text → Text)
decoded_labels none = fail cannot_decode_labels
decoded_labels (some labels) = pure labels

module _ (host : Host) where
  unfoldable pub require_rootless : Action (Unit {0})
  unfolding trim_space equal
  require_rootless = do
    found ← call host (look_path (codes "podman"))
    fail_if (is_missing found) not_installed
    reply ←
        call host
          (podman (codes "info" ∷ codes "--format" ∷ codes "{{.Host.Security.Rootless}}" ∷ []))
    rootless_reply reply

  -- `Exists`
  unfoldable pub exists : Text → Text → Action Bool
  unfolding equal
  exists kind name = do
    fail_if (not (equal kind (codes "image")) && not (equal kind (codes "container")))
        unsupported_kind
    reply ← call host (podman (kind ∷ codes "exists" ∷ name ∷ []))
    exists_reply reply

  unfoldable pub managed_container_names : Text → Action (List Text)
  unfolding sort_unique fields_from
  managed_container_names application = do
    reply ← call host (podman (names_arguments application))
    names_reply reply

  unfoldable pub capture : List Text → Action Text
  unfolding trim_space
  capture arguments = do reply ← call host (podman arguments); capture_reply reply

  unfoldable pub container_labels : Formats → Text → Action (Text → Text)
  unfolding capture
  container_labels formats name = do
    raw ← capture (inspect_arguments name)
    decoded_labels (formats.decode_labels raw)

  -- `PublishedLoopbackPort`; `port_argument` is the port with `/tcp`
  unfoldable pub published_loopback_port : Formats → Text → ℕ → Text → Action ℕ
  unfolding published_port fields_from capture
  published_loopback_port formats name container_port port_argument = do
    fail_if (not (valid_port container_port)) invalid_port
    raw ← capture (codes "port" ∷ name ∷ port_argument ∷ [])
    published_port formats (fields_from [] raw)

  unfoldable pub execute : List Text → Action (Unit {0})
  execute arguments = do reply ← call host (podman arguments); execute_reply reply

  unfoldable pub remove_container : Text → Action (Unit {0})
  unfolding execute
  remove_container name = do
    fail_if (is_empty name) invalid_request
    execute (remove_arguments name)
