-- ===== src/Tests/Outbox.antt =====
-- The outbox at a callback that fails twice and then answers.
use agent_wake.Prelude.{
  ℕ, zero, suc, ◌-◌, ◌≤◌, ◌≡◌, ◌≢◌, refl, ◌⊎◌, false, none, some, [], ◌∷◌, length,
}
use agent_wake.Json.{str, end, field, get, truthy, as_str, as_obj}
use agent_wake.Addressing.Tables.{sender}
use agent_wake.Outbox.Url.{url_scheme}
use agent_wake.Outbox.Callback.{allowed, is_unparsable, validate_callback_url}
use agent_wake.Outbox.{
  Outbox, Attempt, response, raised, Reply, try_all, callback_url, deliver_reply, ReplyWorld,
  ReplyResult, replied,
}
use agent_wake.Outbox.Retry.{Ends, attempts_end, Lettered, reply_kept_or_delivered}
use agent_wake.Tests.Fixtures.{two_rows}

abbrev answers : ℕ → Attempt
answers zero = response 503
answers (suc zero) = raised "callback timed out"
answers (suc (suc n)) = response 204

abbrev outbox : Outbox
outbox = record {
  config = field "default_callback_url" (str "https://example.org/cb") end;
  max_retries = 3;
  backoff_delays = 1 ∷ 4 ∷ 16 ∷ [];
  store = some two_rows;
}

abbrev reply : Reply
reply = record {
  source = "ci";
  reply_id = "r1";
  in_reply_to = "e1";
  content = "done";
  reply_destination = some "desk";
}

attempts_end_example :
    Ends answers 3 0 (try_all answers outbox).delivered
    × (length (try_all answers outbox).slept ≤ 3 - 1)
attempts_end_example = attempts_end answers outbox

abbrev calm : ReplyWorld
calm = record {
  rejects = λ h. false;
  answers = answers;
  is_cancelled = false;
  meanwhile = λ o. o;
  write_fails = false;
  letter_id = "d7";
  now = 9;
}

reply_kept_or_delivered_example :
    let s = deliver_reply calm reply outbox in
    (result : ReplyResult) × (s.1 ≡ replied result)
    × (((result.status ≡ "delivered")
          × (s.0 ≡ outbox)
          × ((try_all answers outbox).delivered ≢ none))
        ⊎ ((result.status ≡ "failed")
            × Lettered reply (some two_rows) s.0.store
            × ((try_all answers outbox).delivered ≡ none))
        ⊎ ((result.status ≡ "rejected")
            × Lettered reply (some two_rows) s.0.store
            × (validate_callback_url (λ h. false) "https://example.org/cb" ≢ allowed)))
unfolding callback_url truthy sender as_obj get as_str url_scheme
reply_kept_or_delivered_example =
    reply_kept_or_delivered calm reply outbox "https://example.org/cb" refl
      (unfold is_unparsable in refl) refl refl
