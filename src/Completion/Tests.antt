-- ===== src/Completion/Tests.antt =====
-- A concrete response, and the theorems of the collector applied to it.
use paracetamol.Base.{true, List, [], ◌∷◌, ◌≡◌, refl}
use paracetamol.Base.Int.{pos}
use paracetamol.Completion.Collector.{
  Item, choice, named, no_reason, stop, length_reached, new_collector, observe_items, observe_item,
  observe_choice, set_choice, settle, CompletionCollector, mark_stream_done, metadata, verdict,
  reasons_from, available,
}
use paracetamol.Completion.Sound.{Reflects, note_items, collected-Reflects}

-- choice 0 is named twice, with different reasons
abbrev contradictory : List Item
contradictory =
    choice (pos 0) no_reason
    ∷ choice (pos 0) (named stop)
    ∷ choice (pos 1) (named stop)
    ∷ choice (pos 0) (named length_reached)
    ∷ []

collected-Reflects_example :
    Reflects (note_items 0 contradictory []) ((observe_items new_collector contradictory).choices 0)
collected-Reflects_example = collected-Reflects contradictory 0

abbrev finished : CompletionCollector
finished =
    mark_stream_done
      (observe_items new_collector (choice (pos 0) no_reason ∷ choice (pos 0) (named stop) ∷ []))

finished_available : (metadata finished true).observation ≡ available
unfolding metadata verdict reasons_from mark_stream_done observe_items observe_item observe_choice
    set_choice settle
finished_available = refl
