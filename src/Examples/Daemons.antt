-- ===== src/Examples/Daemons.antt =====
-- Subscriptions and the control socket at concrete inputs.
use hisohiso.Prelude.{◌≤◌, ◌≡◌, ◌⊎◌, refl, true, false, none, some, [], ◌∷◌, ◌++◌, length}
use hisohiso.Text.{units}
use hisohiso.Events.Subscription.{
  Subscription, subscribe_to_room, on_error, refreshed, close, error_step, answer_step, Reach,
  start, next,
}
use hisohiso.Events.Refresh.{Spaced, Reach-Spaced, Reach-closed}
use hisohiso.Control.Socket.{
  World, is_control_socket_live, start_control_server, finish_start, crash,
}
use hisohiso.Control.Socket
use hisohiso.Control.Instances.{Reach-single, finish_start-twice}

-- A token expires, its refresh is answered, and the new one expires a day later.
abbrev waiting : Subscription
waiting = on_error 50000 (some 401) true false (subscribe_to_room (units "j1"))

abbrev renewed : Subscription
renewed = refreshed (some (units "j2")) waiting

abbrev again : Subscription
again = on_error 90000000 (some 401) true false renewed

abbrev again-Reach : Reach (subscribe_to_room (units "j1")) again
unfolding on_error
again-Reach =
    next
      (next (next start (error_step 50000 (some 401) true false))
        (answer_step (some (units "j2")) 0 refl))
      (error_step 90000000 (some 401) true false)

Reach-Spaced_example : (again.in_flight ≤ 1) × Spaced again.refreshes
Reach-Spaced_example = Reach-Spaced (units "j1") again again-Reach

-- The answer comes after the close.
abbrev late : Subscription
late = refreshed (some (units "j2")) (close waiting)

abbrev late-Reach : Reach (close waiting) late
unfolding on_error
late-Reach = next start (answer_step (some (units "j2")) 0 refl)

Reach-closed_example : (late.sources ≡ waiting.sources) × (late.refreshes ≡ waiting.refreshes)
Reach-closed_example = Reach-closed waiting late late-Reach

-- The socket that a crashed daemon left.
abbrev stale : World
stale = record { path = some 3; listening = []; fresh = 4 }

abbrev running : World
running = (start_control_server stale).0

Reach-single_example :
    (length running.listening ≤ 1)
    × ((running.listening ≡ [])
        ⊎ ((is_control_socket_live running ≡ true) × ((start_control_server running).1 ≡ none)))
Reach-single_example = Reach-single stale running refl (Socket.next Socket.start Socket.start_step)

finish_start-twice_example :
    let first = finish_start (is_control_socket_live stale) stale in
    let second = finish_start (is_control_socket_live stale) first.0 in
    (first.1 ≡ some 4) × (second.1 ≡ some 5) × (second.0.listening ≡ ([] ++ (4 ∷ [])) ++ (5 ∷ []))
unfolding is_control_socket_live
finish_start-twice_example = finish_start-twice stale refl
