-- ===== src/Client/Tests.antt =====
-- The properties of the client's state at fixed events.
use ircparser.Base.{nat_eq, ◌≡◌, [], ◌∷◌, none, codes}
use ircparser.Event.{Event, EventType, EventData, join_data, mode_data, connected_data, nick_data}
use ircparser.Client.{new_client}
use ircparser.Client.Members.{member, move, moved, joins, member-move}
use ircparser.Client.Names.{handle_event}
use ircparser.Client.Tracking.Moves.{IsTracked}
use ircparser.Client.Tracking.{run_events, run_events-IsTracked}
use ircparser.Client.Nicks.{handle_event-current_nick}

abbrev event : EventType → EventData → Event
event t d = record { type = t; message = none; body = d; time = 0 }

abbrev own_join : Event
own_join = event EventType.join (join_data (record { channel = codes "#room"; nick = codes "me" }))

abbrev other_join : Event
other_join =
    event EventType.join (join_data (record { channel = codes "#room"; nick = codes "you" }))

abbrev op_other : Event
op_other =
    event EventType.mode
      (mode_data (record { target = codes "#room"; modes = codes "+o"; args = codes "you" ∷ [] }))

abbrev rename_other : Event
rename_other =
    event EventType.nick (nick_data (record { old_nick = codes "you"; new_nick = codes "him" }))

run_events-IsTracked_example : IsTracked (
    run_events
      (new_client (codes "me") (codes "user") (codes "Real"))
      ((1, own_join) ∷ (2, other_join) ∷ (3, op_other) ∷ (4, rename_other) ∷ []))
run_events-IsTracked_example =
    run_events-IsTracked (codes "me") (codes "user") (codes "Real")
      ((1, own_join) ∷ (2, other_join) ∷ (3, op_other) ∷ (4, rename_other) ∷ [])

handle_event-current_nick_example :
    (handle_event 5
      (new_client (codes "me") [] [])
      (event EventType.registered (connected_data (codes "srv")))).0.current_nick
    ≡ (new_client (codes "me") [] []).current_nick
handle_event-current_nick_example =
    handle_event-current_nick 5 (new_client (codes "me") [] [])
      (event EventType.registered (connected_data (codes "srv"))) (cc)

member-move_example :
    member
      (move
        (new_client (codes "me") [] [])
        (joins (record { channel = codes "#a"; nick = codes "me" })))
      (codes "#a")
      (codes "me")
    ≡ moved
        (new_client (codes "me") [] [])
        (joins (record { channel = codes "#a"; nick = codes "me" }))
        (codes "#a")
        (codes "me")
member-move_example =
    member-move (new_client (codes "me") [] [])
      (joins (record { channel = codes "#a"; nick = codes "me" })) (codes "#a") (codes "me")
