-- ===== src/Examples/Knocks.antt =====
-- The table of sessions and the knocks at concrete inputs.
use hisohiso.Prelude.{
  ◌+◌, ◌≡◌, refl, Bool, true, false, ◌&&◌, none, some, List, [], ◌∷◌, ◌++◌, all, any, leb, length,
  if◌then◌else◌,
}
use hisohiso.Text.{Text, units, text_eq}
use hisohiso.Agents.Session.{Session, ActiveRoom, attach}
use hisohiso.Agents.Manager.{
  Manager, Approval, first_device, operator, session_of, RoomStatus, gone, alive, reconcile_all,
}
use hisohiso.Agents.Table.{reconcile_all-gone, is_gone}
use hisohiso.Agents.Knock.{
  Knock, key_of, knock_at, approval, approve_done, on_knock, resolve_agent_knock,
}
use hisohiso.Agents.Confirm.{resolve_agent_knock-on_knock, approve_done-two_first}
use hisohiso.Agents.Facts.{
  Fact, knocked, confirmed, is_allowed, here, knock_step, done_step, resolve_step, Reach, start,
  next,
}
use hisohiso.Agents.Admission.{Reach-allowed}
use hisohiso.Agents.Restore.{Answers, restore, is_restorable, is_some}
use hisohiso.Agents.Restored.{restore_lem}

abbrev room : Text → Bool → ActiveRoom
room id is_bound = record {
  agent_id = id;
  name = units "claude";
  room_hash = units "h";
  room_secret = units "s";
  room_password = some (units "1234");
  participant_token = units "t";
  subscriber_jwt = units "j";
  session_id = none;
  bound = some is_bound;
  bound_pubkey = if is_bound then some (units "k1") else none;
  seen_msg_ids = none;
}

abbrev session : Bool → Session
session is_bound = attach 0 (units "1234") (room (units "a1") is_bound)

abbrev manager : Bool → Manager
manager is_bound = record {
  heap = λ a. session is_bound;
  sessions = (units "a1", 7) ∷ [];
  pending_agent_knocks = [];
  session_knock_message = units "let me in";
  rooms_file = [];
  notices = [];
  approving = [];
  admitted_devices = [];
}

abbrev knock : Text → Text → Knock
knock p i = record { knock_pubkey = some p; msg_id = some i; cleartext = some (units "let me in ") }

-- A second device knocks on a bound room, the operator approves and the relay takes it.
abbrev asked : Approval
asked = record {
  agent_id = units "a1";
  knock_pubkey = units "k2";
  knock_msg_id = units "m";
  cause = operator (key_of (units "a1") (units "m"));
}

abbrev admitted : Manager
admitted = approve_done 30 asked [] true (
    resolve_agent_knock 20 (units "a1") (units "m") true
      (on_knock 10 7 (knock (units "k2") (units "m")) (manager true)))

abbrev facts : List Fact
facts =
    confirmed (key_of (units "a1") (units "m"))
    ∷ knocked (units "let me in") (knock (units "k2") (units "m"))
    ∷ []

abbrev admitted-Reach : Reach (manager true) admitted facts
unfolding resolve_agent_knock on_knock hisohiso.Agents.Knock.check_knock text_eq hisohiso.Text.trim
    hisohiso.Text.is_space attach session_of
admitted-Reach =
    next
      (next (next start (knock_step 10 7 (knock (units "k2") (units "m"))))
        (resolve_step 20 (units "a1") (units "m") true))
      (done_step 30 asked [] true here)

Reach-allowed_example : all (is_allowed facts) admitted.admitted_devices ≡ true
Reach-allowed_example = Reach-allowed (manager true) admitted facts refl refl refl admitted-Reach

resolve_agent_knock-on_knock_example :
    ((resolve_agent_knock 20
        (units "a1")
        (units "m")
        true
        (on_knock 10 7 (knock (units "k2") (units "m")) (manager true))).approving
      ≡ []
        ++ (if true && leb 20 (10 + 600000)
            then approval
                (session true)
                (units "k2")
                (units "m")
                (operator (key_of (units "a1") (units "m")))
              ∷ []
            else []))
    × (knock_at
          (key_of (units "a1") (units "m"))
          (resolve_agent_knock 20
            (units "a1")
            (units "m")
            true
            (on_knock 10 7 (knock (units "k2") (units "m")) (manager true))).pending_agent_knocks
        ≡ none)
unfolding hisohiso.Agents.Knock.check_knock text_eq hisohiso.Text.trim hisohiso.Text.is_space attach
    session_of
resolve_agent_knock-on_knock_example =
    resolve_agent_knock-on_knock 10 20 7 7 (knock (units "k2") (units "m")) (units "k2") (units "m")
      true (manager true) refl refl refl refl

abbrev x : Approval
x = approval (session false) (units "k1") (units "m1") (first_device 7)

abbrev y : Approval
y = approval (session false) (units "k2") (units "m2") (first_device 7)

abbrev two_asked : Manager
two_asked =
    on_knock 12 7 (knock (units "k2") (units "m2"))
      (on_knock 10 7 (knock (units "k1") (units "m1")) (manager false))

abbrev two_in : Manager
two_in = approve_done 15 y [] true (approve_done 14 x (y ∷ []) true two_asked)

approve_done-two_first_example :
    (two_asked.approving ≡ x ∷ y ∷ [])
    × (two_in.admitted_devices ≡ [] ++ (x ∷ y ∷ []))
    × (two_in.notices ≡ [])
    × ((two_in.heap 7).bound_pubkey ≡ some (units "k2"))
unfolding hisohiso.Agents.Knock.check_knock text_eq hisohiso.Text.trim hisohiso.Text.is_space attach
    session_of
approve_done-two_first_example =
    approve_done-two_first 10 12 14 15 7 7 (knock (units "k1") (units "m1"))
      (knock (units "k2") (units "m2")) (units "k1") (units "m1") (units "k2") (units "m2")
      (manager false) refl refl refl refl refl

abbrev status : Text → RoomStatus
status id = if text_eq id (units "a1") then gone else alive

reconcile_all-gone_example :
    (session_of
        (units "a1")
        (reconcile_all 5 status (manager true).sessions (manager true)).0.sessions
      ≡ (if is_gone (status (units "a1"))
          then none
          else session_of (units "a1") (manager true).sessions))
    × (length (reconcile_all 5 status (manager true).sessions (manager true)).1.cleaned
          + (reconcile_all 5 status (manager true).sessions (manager true)).1.alive_count
          + (reconcile_all 5 status (manager true).sessions (manager true)).1.unknown_count
        ≡ length (manager true).sessions)
reconcile_all-gone_example = reconcile_all-gone 5 status (units "a1") (manager true)

abbrev answers : ActiveRoom → Answers
answers r = record {
  room_exists = text_eq r.agent_id (units "a1");
  has_profile = true;
  jwt_expires_soon = true;
  refreshed_jwt = some (units "j2");
}

abbrev rooms : List ActiveRoom
rooms = room (units "a1") true ∷ room (units "a2") false ∷ []

abbrev fresh_manager : Manager
fresh_manager = record (manager true) { sessions = [] }

restore_lem_example :
    (is_some (session_of (units "a2") (restore 9 answers 0 rooms fresh_manager).manager.sessions)
      ≡ any
          (λ (r : ActiveRoom). is_restorable (answers r) r && text_eq r.agent_id (units "a2"))
          rooms)
    × (length (restore 9 answers 0 rooms fresh_manager).restored
          + length (restore 9 answers 0 rooms fresh_manager).dropped
        ≡ length rooms)
restore_lem_example = restore_lem 9 answers (units "a2") 0 rooms fresh_manager refl
