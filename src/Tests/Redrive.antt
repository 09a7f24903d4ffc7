-- ===== src/Tests/Redrive.antt =====
-- A redrive of the letters of the fixtures.
use agent_wake.Prelude.{◌≤◌, String, ◌≡◌, refl, ◌⊎◌, false, Option, none, [], any}
use agent_wake.Json.{end, text_at, get, py_str}
use agent_wake.Store.Queue.{enqueue_pending, claim_rows}
use agent_wake.Store.DeadLetters.{mark_redriven, dead_letter_count}
use agent_wake.Outbox.{response}
use agent_wake.Delivery.Channels.{raised}
use agent_wake.Cli.Redrive.{RedriveWorld, mark_of, redrive, redrive_next_session}
use agent_wake.Cli.Redrive.Marked.{is_success, redrive_marks}
use agent_wake.Cli.Redrive.Lost.{requeued_for_the_source}
use agent_wake.Tests.Fixtures.{store_of, letter}

abbrev world : RedriveWorld
world = record {
  enqueue_now = 5;
  mark_now = 6;
  callback = λ n. response 500;
  refuses_host = λ h. false;
  is_interrupted = false;
  channels = λ k. raised "down";
}

redrive_marks_example :
    let st = store_of [] in
    let r = redrive world end "d1" st in
    (((r.0.dead_letters ≡ st.dead_letters) × (is_success r.1 ≡ false))
      ⊎ ((error : Option String) × (r.0.dead_letters
            ≡ (mark_redriven world.mark_now "d1"
                (mark_of (is_success r.1))
                error
                st).dead_letters)))
    × (is_success r.1 ≡ false → dead_letter_count false st ≤ dead_letter_count false r.0)
redrive_marks_example = redrive_marks world end "d1" (store_of [])

requeued_for_the_source_example :
    claim_rows 6 "desk" 5
      (redrive_next_session world (letter "d1" "next_session" none 1) (store_of [])).0
    ≡ claim_rows 6 "desk" 5 (store_of [])
unfolding get py_str any
requeued_for_the_source_example =
    requeued_for_the_source world (letter "d1" "next_session" none 1) (store_of []) 6 5 "desk"
      (unfold enqueue_pending text_at in refl) (unfold text_at in refl)
