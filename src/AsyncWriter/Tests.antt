-- ===== src/AsyncWriter/Tests.antt =====
-- The writer over a database that fails a number of times.
use birb_nest.Prelude.{
  ℕ, zero, suc, ◌≡◌, refl, Option, none, some, [], ◌∷◌, Text, text_eq, lit, arith,
}
use birb_nest.Prelude.Maps.{Dict, insert}
use birb_nest.Cache.{Bytes}
use birb_nest.AsyncWriter.{WriteRequest, new_async_writer, write, send, Database, process}
use birb_nest.AsyncWriter.Steps.{
  System, submitted, taken, worked, woken, submit, take, work, wake, Reach, here, next, started,
}
use birb_nest.AsyncWriter.Accounts.{IsAccounted, Reach-IsAccounted}

-- The entries of one instance, and the calls that are still to fail.
abbrev Shaky : Type 0
Shaky = ℕ × Dict Bytes

abbrev set_shaky : Text → Bytes → Shaky → Option Text × Shaky
set_shaky k v (zero, m) = (none, (zero, insert k v m))
set_shaky k v (suc n, m) = (some (lit "timeout"), (n, m))

abbrev shaky : Database Shaky
shaky = record { set_with_instance = λ k id v w. set_shaky k v w }

abbrev begun : System Shaky
begun = started (new_async_writer 10 2) (1, [])

abbrev first_write : WriteRequest
first_write = record {
  key = lit "k";
  value = lit "old";
  timestamp = 1;
  retries = 0;
  instance_id = lit "a";
}

abbrev second_write : WriteRequest
second_write = record first_write { value = lit "new"; timestamp = 2 }

-- Two writes of one key: the first is to be retried when the second is stored, and then stored
-- over it.
abbrev submitted_one : System Shaky
submitted_one = submitted (write 1 (lit "k") (lit "old") (lit "a") begun.writer) begun

abbrev submitted_both : System Shaky
submitted_both =
    submitted (write 2 (lit "k") (lit "new") (lit "a") submitted_one.writer) submitted_one

-- Two workers have a request each; the call of the first fails, that of the second stores.
abbrev first_taken : System Shaky
first_taken = taken first_write (second_write ∷ []) submitted_both

abbrev both_taken : System Shaky
both_taken = taken second_write [] first_taken

abbrev first_failed : System Shaky
first_failed = worked (second_write ∷ []) (process shaky 3 first_write both_taken.world) both_taken

abbrev second_stored : System Shaky
second_stored = worked [] (process shaky 3 second_write first_failed.world) first_failed

abbrev retried : WriteRequest
retried = record first_write { retries = 1 }

abbrev requeued : System Shaky
requeued = woken [] (send retried second_stored.writer) second_stored

abbrev retaken : System Shaky
retaken = taken retried [] requeued

abbrev overwritten : System Shaky
overwritten = worked [] (process shaky 3 retried retaken.world) retaken

stale_value_stays : overwritten.world ≡ (0, (lit "k", lit "old") ∷ [])
unfolding started new_async_writer submitted write send taken worked process woken insert text_eq
stale_value_stays = refl

both_reached : Reach shaky begun both_taken
unfolding started new_async_writer submitted write send taken
both_reached =
    next
      (next
        (next (next here (submit begun 1 (lit "k") (lit "old") (lit "a")))
          (submit submitted_one 2 (lit "k") (lit "new") (lit "a")))
        (take submitted_both first_write (second_write ∷ []) (omega arith) refl))
      (take first_taken second_write [] (omega arith) refl)

overwritten_reached : Reach shaky begun overwritten
unfolding started new_async_writer submitted write send taken worked process woken insert text_eq
overwritten_reached =
    next
      (next
        (next
          (next (next both_reached (work both_taken first_write (second_write ∷ []) [] refl))
            (work first_failed second_write [] [] refl))
          (wake second_stored retried [] [] refl))
        (take requeued retried [] (omega arith) refl))
      (work retaken retried [] [] refl)

Reach-IsAccounted_example : IsAccounted overwritten
Reach-IsAccounted_example = Reach-IsAccounted shaky 10 2 (1, []) overwritten_reached
