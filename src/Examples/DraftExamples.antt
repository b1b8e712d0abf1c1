-- ===== src/Examples/DraftExamples.antt =====
-- packages/draft/src/draft.ts: a submission of a counter.
use effect_state_tree.Base.{ℕ, ◌≡◌, ◌≢◌, false, Option, none, List, [], arith}
use effect_state_tree.Base.Text.{Text, codes}
use effect_state_tree.Base.Result.{Result, ok}
use effect_state_tree.Snapshot.{Value}
use effect_state_tree.Patch.{TreePatch}
use effect_state_tree.Patch.Batch.{AppliedPatches}
use effect_state_tree.Runtime.Store.{Store}
use effect_state_tree.Validation.{Issue}
use effect_state_tree.Draft.{Draft, DraftError, Synchronized, Submission, finish_submit}
use effect_state_tree.Draft.Sync.{finish_submit-store}
use effect_state_tree.Examples.Samples.{counter, applied_to}

abbrev decode : Value → Result Issue ℕ
decode v = ok 1

abbrev take_over : Value → Value → Result Text AppliedPatches
take_over v w = ok (applied_to w)

abbrev set_two : Value → List TreePatch → Result Text AppliedPatches
set_two v ps = ok (applied_to (counter 1 2))

abbrev no_listeners : Store → Store
no_listeners s = s

abbrev no_authority : Text → Option Value
no_authority f = none

abbrev submission : Submission ℕ
submission = record {
  submitted = 1;
  working = counter 0 1;
  saved_at_request = counter 0 0;
  revision = 1;
}

-- The draft when the request ends: at the submission's revision, or one edit later.
abbrev settled : Draft
settled = record {
  store = record {
    state = record { snapshot = counter 0 1; revision = 1 };
    is_shutdown = false;
    published = [];
  };
  saved = counter 0 0;
}

abbrev edited : Draft
edited = record {
  store = record {
    state = record { snapshot = counter 0 5; revision = 2 };
    is_shutdown = false;
    published = [];
  };
  saved = counter 0 0;
}

abbrev finish : Draft → Draft × Result (Result Text (DraftError Text)) Synchronized
finish d =
    finish_submit [] decode take_over set_two no_listeners (codes "t") 8 no_authority submission
      (ok (counter 1 2)) d

two_ne_one : ◌≢◌ {A = ℕ} 2 1
two_ne_one e = omega (arith, e)

edited_example : (finish edited).0.store ≡ edited.store
edited_example =
    finish_submit-store [] decode take_over set_two no_listeners (codes "t") 8 no_authority
      submission (ok (counter 1 2)) edited two_ne_one
