-- ===== src/Examples/Events.antt =====
-- Concrete tables of events.
use mathlib.Core.Path.{subst}
use paper_collector_agent.Prelude.{
  ◌≡◌, refl, List, ◌=s◌, select, inr, true, All, ok, some, take, traverse, arith, [], ◌∷◌, ◌++◌,
  if◌then◌else◌,
}
use paper_collector_agent.Json.{end}
use paper_collector_agent.StreamEvents.{
  Row, Table, insert, delete_conversation, from_row, list_after, latest, get_event, new_row,
}
use paper_collector_agent.Broadcast.{Follower, Step, read, write, follow}
use paper_collector_agent.Broadcast.Cursor.{IsReadable}
use paper_collector_agent.Broadcast.Delivery.{follow_lem}
use paper_collector_agent.StreamEvents.Order.{
  IsValid, insert-IsValid, delete_conversation_lem, IsOther,
}
use paper_collector_agent.StreamEvents.Reading.{remaining, list_after_lem}
use paper_collector_agent.StreamEvents.Queries.{matches, latest-insert, get_event-insert}

abbrev empty_table : Table
empty_table = record { rows = []; last_id = 0 }

abbrev one_row : Table
one_row = (insert "7" "c1" "r1" "run.started" end empty_table).1

abbrev two_rows : Table
two_rows = (insert "7" "c2" "r2" "run.started" end one_row).1

abbrev three_rows : Table
three_rows = (insert "7" "c1" "r1" "run.finished" end two_rows).1

empty_table-IsValid : IsValid empty_table
empty_table-IsValid = record { sound = tt; ordered = tt }

one_row-IsValid : IsValid one_row
one_row-IsValid = insert-IsValid "7" "c1" "r1" "run.started" end empty_table empty_table-IsValid

two_rows-IsValid : IsValid two_rows
two_rows-IsValid = insert-IsValid "7" "c2" "r2" "run.started" end one_row one_row-IsValid

insert-IsValid_example : IsValid three_rows
insert-IsValid_example = insert-IsValid "7" "c1" "r1" "run.finished" end two_rows two_rows-IsValid

delete_conversation_lem_example :
    let after = delete_conversation "7" "c1" three_rows in
    IsValid after
    × All (IsOther "7" "c1") after.rows
    × (select (λ r. r.conversation_id =s "c2") after.rows
        ≡ select (λ r. r.conversation_id =s "c2") three_rows.rows)
delete_conversation_lem_example =
    delete_conversation_lem "7" "c1" (λ r. r.conversation_id =s "c2") three_rows
      insert-IsValid_example
      (λ r h.
        inr (λ e. let same : ("c1" =s "c2") ≡ true = subst (λ c. (c =s "c2") ≡ true) e h in cc))

list_after_lem_example :
    list_after "7" "r1" (some 1) 100 three_rows
    ≡ traverse from_row (take 100 (remaining "7" "r1" (some 1) three_rows))
list_after_lem_example =
    list_after_lem "7" "r1" (some 1) 100 three_rows insert-IsValid_example (omega arith)

latest-insert_example :
    latest "7" "r1" three_rows ≡ ok (some (insert "7" "c1" "r1" "run.finished" end two_rows).0)
latest-insert_example = latest-insert "7" "c1" "r1" "run.finished" end two_rows two_rows-IsValid

get_event-insert_example : get_event "7" "r1" 2 three_rows ≡ (
    if matches "7" "r1" 2 (new_row "7" "c1" "r1" "run.finished" end two_rows)
    then ok (some (insert "7" "c1" "r1" "run.finished" end two_rows).0)
    else get_event "7" "r1" 2 two_rows)
get_event-insert_example = get_event-insert "7" "c1" "r1" "run.finished" end two_rows "7" "r1" 2

three_rows-IsReadable : All IsReadable three_rows.rows
unfolding insert new_row from_row
three_rows-IsReadable = ((_, refl), ((_, refl), ((_, refl), tt)))

-- Two reads around a write of the run and a write of another one.
abbrev schedule : List Step
schedule = read ∷ write "7" "c1" "r1" "late" end ∷ write "8" "c1" "r1" "other" end ∷ read ∷ []

follow_lem_example :
    (t' : Table) × (f : Follower) × (rows : List Row) × (follow "7" "r1" schedule three_rows
        (record { cursor = some 1; yielded = [] })
      ≡ ok (t', f))
    × (traverse from_row rows ≡ ok f.yielded)
    × (remaining "7" "r1" (some 1) t' ≡ rows ++ remaining "7" "r1" f.cursor t')
follow_lem_example =
    follow_lem "7" "r1" (some 1) schedule three_rows insert-IsValid_example three_rows-IsReadable
