-- ===== src/Examples/CrdtExamples.antt =====
-- packages/crdt/src/crdt.ts: a binding that takes one local commit.
use effect_state_tree.Base.{◌≡◌, ◌≢◌, refl, Bool, true, Option, []}
use effect_state_tree.Runtime.{Envelope}
use effect_state_tree.Runtime.Context.{has_tag}
use effect_state_tree.Crdt.{should_broadcast}
use effect_state_tree.Crdt.Binding.{
  CrdtWork, resting, ended, Binding, initial_binding, start, observe, take_work, send, finish,
  enqueue, mark_queued, mark_settled, remove_pending, idle_answer,
}
use effect_state_tree.Crdt.Consistent.{
  Reached, begun, started, observed, taken, was_sent, finished, IsConsistent, Reached-IsConsistent,
  Reached-idle_answer,
}
use effect_state_tree.Examples.Samples.{commit_at}

abbrev same : Envelope → Envelope → Bool
same c d = true

same_refl : (c : Envelope) → same c c ≡ true
same_refl c = refl

abbrev taking : Binding
taking = take_work (observe same 9 (commit_at 0 0 1) (start initial_binding))

reaches : Reached same taking
reaches = taken (observed 9 (commit_at 0 0 1) (started begun))

Reached-IsConsistent_example : IsConsistent taking
Reached-IsConsistent_example = Reached-IsConsistent same same_refl reaches

abbrev after_item : Binding
after_item = finish (send same taking)

resting_ne_ended : (item : Option CrdtWork) → resting ≢ ended item
resting_ne_ended item e = cc

idle_example :
    (after_item.work ≡ []) × (after_item.coordinator ≡ resting) × (after_item.pending ≡ [])
unfolding idle_answer finish send take_work observe start enqueue mark_queued mark_settled
    remove_pending should_broadcast has_tag
idle_example =
    Reached-idle_answer same same_refl {b = after_item} (finished (was_sent reaches)) refl refl
      resting_ne_ended
