-- ===== src/Threads/Examples.antt =====
-- The pointers and the binding at concrete inputs.
use shannon_bot.Base.{List, Option, [], false, none, refl, some, ℕ, ◌∷◌, ◌≡◌}
use shannon_bot.Domain.Enums.{not_reviewed}
use shannon_bot.Domain.Text.{codes}
use shannon_bot.Threads.Attached.{IsPlaced, claim_thread-exclusive, create_and_claim-IsPlaced}
use shannon_bot.Threads.Binding.{
  ThreadTarget, ThreadWorld, attach_or_take_back, claim, claim_unowned, create_and_claim, discarded,
  not_updated, opened, settled, write,
}
use shannon_bot.Threads.Pointers.{
  TrackedItem, claim_thread, ids_now, is_claimable, is_not_distinct, is_value, repointed,
}
use shannon_bot.Threads.Written.{NamesCreated, write-NamesCreated}

abbrev blank : ℕ → Option ℕ → TrackedItem
blank i thread = record {
  id = i;
  title = codes "Fix it";
  github_state = codes "open";
  status = not_reviewed;
  github_updated_at = some 10;
  last_delivery_id = some 1;
  discord_thread_id = thread;
  discord_message_id = none;
  discord_thread_locked = none;
  discord_channel_id = none;
  shown_labels = none;
}

abbrev unattached : List TrackedItem
unattached = blank 4 none ∷ blank 5 (some 60) ∷ []

-- Two first syncs: the thread of the first stays.
first_wins :
    (claim_thread 4 72 none none (some 30) (claim_thread 4 71 none none (some 30) unattached).0).1
    ≡ (some 71, none)
unfolding claim_thread is_claimable is_not_distinct repointed ids_now is_value
first_wins = refl

claim_thread-exclusive_example :
    claim_thread 4 72 none none (some 30) (claim_thread 4 71 none none (some 30) unattached).0
    ≡ claim_thread 4 71 none none (some 30) unattached
unfolding is_value
claim_thread-exclusive_example =
    claim_thread-exclusive 4 71 72 none none none (some 30) (some 30) unattached refl

abbrev target : ThreadTarget
target = record {
  tracked_item_id = 4;
  channel_id = 30;
  thread_id = none;
  message_id = none;
  thread_channel_id = none;
}

-- Another sync attaches thread 71 while this one opens thread 72.
abbrev raced : ThreadWorld
raced = record {
  creation = opened (record { thread_id = 72; message_id = some 9 });
  update = not_updated;
  swap_fails = false;
  delete_fails = false;
  meddling_before = λ t. (claim_thread 4 71 none none (some 30) t).0;
  meddling_between = λ t. t;
}

loser_is_deleted : (create_and_claim target raced unattached).deleted ≡ 72 ∷ []
unfolding create_and_claim attach_or_take_back claim claim_unowned settled discarded claim_thread
    is_claimable is_not_distinct repointed ids_now is_value
loser_is_deleted = refl

create_and_claim-IsPlaced_example : IsPlaced 4 72 (create_and_claim target raced unattached)
create_and_claim-IsPlaced_example = create_and_claim-IsPlaced target raced unattached 72 refl refl

write-NamesCreated_example :
    NamesCreated
      (ids_now 4 (write false target raced unattached).table).0
      (write false target raced unattached).answer
write-NamesCreated_example = write-NamesCreated false target raced unattached
