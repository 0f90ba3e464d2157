-- ===== src/Completion/Collector.antt =====
-- `completionCollector`. What encoding/json decodes is the input: an item of the array `choices`
-- with what its keys hold.
use paracetamol.Base.{
  ℕ, zero, suc, ◌+◌, Bool, true, false, not, ◌&&◌, ◌||◌, Option, none, some, List, [], ◌∷◌, leb,
  ◌==◌, if◌then◌else◌,
}
use paracetamol.Base.Int.{ℤ, pos, negsuc}

abbrev pub max_observed_completion_choices : ℕ
max_observed_completion_choices = 16

pub data CompletionObservation : Type 0 where
  available partially unavailable : CompletionObservation

-- the closed reasons; `other` stands for every string that is none of them
pub data Reason : Type 0 where
  stop length_reached tool_calls function_call content_filter other : Reason

pub record ChoiceFinishReason : Type 0 where
  pub index : ℕ
  pub finish_reason : Reason

pub record CompletionMetadata : Type 0 where
  pub observation : CompletionObservation
  pub finish_reasons : List ChoiceFinishReason
  pub stream_done : Option Bool

-- the empty string is `none`
pub record CompletionChoice : Type 0 where
  pub seen : Bool
  pub reason : Option Reason
  pub conflict : Bool

pub record CompletionCollector : Type 0 where
  pub choices : ℕ → CompletionChoice
  pub partial : Bool
  pub stream_ended : Bool

abbrev pub unseen : CompletionChoice
unseen = record { seen = false; reason = none; conflict = false }

abbrev pub new_collector : CompletionCollector
new_collector = record { choices = λ i. unseen; partial = false; stream_ended = false }

abbrev pub mark_partial : CompletionCollector → CompletionCollector
mark_partial c = record c { partial = true }

unfoldable pub mark_stream_done : CompletionCollector → CompletionCollector
mark_stream_done c =
    if c.stream_ended
    then record (mark_partial c) { stream_ended = true }
    else record c { stream_ended = true }

-- what `finish_reason` holds: nothing or null, a string, or something else
pub data ReasonField : Type 0 where
  no_reason not_a_string : ReasonField
  named : Reason → ReasonField

-- an item of the array: not an object with its keys once, an index that is missing or no integer,
-- or an index and a reason
pub data Item : Type 0 where
  not_an_object no_index : Item
  choice : ℤ → ReasonField → Item

-- what `choices` holds: nothing or null, too many bytes, no array, or items, which end in an item
-- that does not decode, in a closed array, or in an array with something wrong behind it
pub data Ending : Type 0 where
  undecodable closed trailing : Ending

pub data Choices : Type 0 where
  no_choices oversized not_an_array : Choices
  items : List Item → Ending → Choices

abbrev pub equal_reason : Reason → Reason → Bool
equal_reason stop stop = true
equal_reason length_reached length_reached = true
equal_reason tool_calls tool_calls = true
equal_reason function_call function_call = true
equal_reason content_filter content_filter = true
equal_reason other other = true
equal_reason _ _ = false

abbrev pub is_other : Reason → Bool
is_other other = true
is_other _ = false

unfoldable pub set_choice : CompletionCollector → ℕ → CompletionChoice → CompletionCollector
set_choice c n state = record c { choices = λ i. if i == n then state else c.choices i }

-- what a reason does to a choice that is seen, and whether it contradicts
unfoldable pub settle : CompletionChoice → Reason → CompletionChoice × Bool
settle state r = if state.conflict then (state, false) else elim state.reason [
  | none ↦ (record state { reason = some r }, false)
  | some before ↦
      if equal_reason before r
      then (record state { reason = some r }, false)
      else (record { seen = state.seen; reason = none; conflict = true }, true)
]

-- an index in the range, with its reason
unfoldable pub observe_choice : CompletionCollector → ℕ → ReasonField → CompletionCollector
unfolding set_choice settle
observe_choice c n field =
    let state = record (c.choices n) { seen = true } in
    elim field [
      | no_reason ↦ set_choice c n state
      | not_a_string ↦ mark_partial (set_choice c n state)
      | named r ↦
          let settled = settle state r in
          let marked = if is_other r || settled.1 then mark_partial c else c in
          set_choice marked n settled.0
    ]

unfoldable pub observe_item : CompletionCollector → Item → CompletionCollector
unfolding observe_choice
observe_item c not_an_object = mark_partial c
observe_item c no_index = mark_partial c
observe_item c (choice (negsuc n) field) = mark_partial c
observe_item c (choice (pos n) field) =
    if leb max_observed_completion_choices n then mark_partial c else observe_choice c n field

unfoldable pub observe_items : CompletionCollector → List Item → CompletionCollector
unfolding observe_item
observe_items c [] = c
observe_items c (i ∷ is) = observe_items (observe_item c i) is

unfoldable pub observe_object : CompletionCollector → Choices → CompletionCollector
unfolding observe_items
observe_object before found =
    let c = if before.stream_ended then mark_partial before else before in
    elim found [
      | no_choices ↦ c
      | oversized ↦ mark_partial c
      | not_an_array ↦ mark_partial c
      | items is closed ↦ observe_items c is
      | items is undecodable ↦ mark_partial (observe_items c is)
      | items is trailing ↦ mark_partial (observe_items c is)
    ]

-- `observeResponse`; the Boolean is the verdict of `uniqueCompletionKeys`
unfoldable pub observe_response : CompletionCollector → Bool → Choices → CompletionCollector
unfolding observe_object
observe_response c unique found = if unique then observe_object c found else mark_partial c

-- the loop of `metadata` from `index` on: the reasons, and whether a choice is seen without one
unfoldable pub reasons_from : (ℕ → CompletionChoice) → ℕ → ℕ → List ChoiceFinishReason × Bool
reasons_from choices index zero = ([], false)
reasons_from choices index (suc n) =
    let rest = reasons_from choices (index + 1) n in
    elim ((choices index).reason) [
      | some r ↦ (record { index = index; finish_reason = r } ∷ rest.0, rest.1)
      | none ↦ (rest.0, (choices index).seen || rest.1)
    ]

abbrev pub has_reasons : List ChoiceFinishReason → Bool
has_reasons [] = false
has_reasons (r ∷ rs) = true

-- the last `if` of `metadata`
unfoldable pub verdict : Bool → List ChoiceFinishReason × Bool → CompletionObservation
verdict partial (reasons, unfinished) =
    if partial || (unfinished && has_reasons reasons)
    then partially
    else if has_reasons reasons
    then available
    else unavailable

unfoldable pub metadata : CompletionCollector → Bool → CompletionMetadata
unfolding reasons_from verdict
metadata c stream =
    let found = reasons_from c.choices 0 max_observed_completion_choices in
    record {
      observation = verdict (c.partial || (stream && not c.stream_ended)) found;
      finish_reasons = found.0;
      stream_done = if stream then some c.stream_ended else none;
    }
