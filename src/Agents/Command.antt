-- ===== src/Agents/Command.antt =====
-- cli/src/daemon/agent-manager.ts: the command line, the prompt and the environment of a turn.
--
-- A profile is what `getAgent` or the registry gives; `build_resume_args` is the profile's own
-- function.
use hisohiso.Prelude.{Bool, Option, none, some, List, [], ◌∷◌, ◌++◌, if◌then◌else◌}
use hisohiso.Text.{Text, units}
use hisohiso.Message.Envelope.{is_empty}
use hisohiso.Agents.Session.{Session}
use hisohiso.Agents.Input.{wrapped_text}

-- `systemPromptMode`; any other value appends a flag.
pub data PromptMode : Type 0 where
  codex_config prepend_message_once append_flag : PromptMode

pub record Profile : Type 0 where
  pub args : List Text
  pub is_session_mode : Bool
  pub build_resume_args : Option (Text → List Text)
  pub append_system_prompt : Option Text
  pub system_prompt_mode : PromptMode
  pub needs_room_secret : Bool

-- `mode === 'session' && session.sessionId !== null`, with the id.
abbrev pub resumed : Profile → Session → Option Text
resumed p s = if p.is_session_mode then s.session_id else none

abbrev pub base_args : Profile → Option Text → List Text
base_args p none = p.args
base_args p (some id) = elim p.build_resume_args [ none ↦ p.args | some build ↦ build id ]

abbrev pub resume_flag : Profile → Option Text → List Text
resume_flag p none = []
resume_flag p (some id) = elim p.build_resume_args [
  | none ↦ units "--resume" ∷ id ∷ []
  | some build ↦ []
]

abbrev pub prompt_args : PromptMode → Text → List Text
prompt_args codex_config t = units "--config" ∷ (units "instructions=" ++ t) ∷ []
prompt_args prepend_message_once t = []
prompt_args append_flag t = units "--append-system-prompt" ∷ t ∷ []

-- A system prompt that is absent or empty adds nothing.
abbrev pub system_args : Profile → List Text
system_args p = elim p.append_system_prompt [
  | none ↦ []
  | some t ↦ if is_empty t then [] else prompt_args p.system_prompt_mode t
]

-- `argv`, before the prompt of a buffered turn is added.
unfoldable pub argv_of : Profile → Session → List Text
argv_of p s = let id = resumed p s in base_args p id ++ (system_args p ++ resume_flag p id)

abbrev pub prepended : PromptMode → Option Text → Text → Text → Text
prepended prepend_message_once none t message = t ++ (10 ∷ 10 ∷ message)
prepended prepend_message_once (some id) t message = message
prepended codex_config id t message = message
prepended append_flag id t message = message

-- `messageToSend`
unfoldable pub message_to_send : Profile → Session → Text → Text → Text
unfolding wrapped_text
message_to_send p s text peer =
    let message = wrapped_text peer text in
    elim p.append_system_prompt [
      | none ↦ message
      | some t ↦
          if is_empty t then message else prepended p.system_prompt_mode (resumed p s) t message
    ]

-- `env`
unfoldable pub env_of : Profile → Session → List (Text × Text)
env_of p s =
    (units "HISOHISO_AGENT_ID", s.agent_id)
    ∷ (units "HISOHISO_AGENT_NAME", s.name)
    ∷ (units "HISOHISO_ROOM_HASH", s.room_hash)
    ∷ (if p.needs_room_secret then (units "HISOHISO_ROOM_SECRET", s.room_secret) ∷ [] else [])
