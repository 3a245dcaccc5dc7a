-- ===== src/Agents/Input.antt =====
-- cli/src/daemon/agent-manager.ts: the text of a turn, from a decrypted chat message, and the envelope
-- that the agent reads.
--
-- The conversions of a value that is no string, by a template and by `JSON.stringify`, are
-- parameters; a conversion that throws is none. A message whose text throws is lost: the handler
-- drops it, or rejects before a turn starts.
use hisohiso.Prelude.{
  ℕ, Bool, true, false, not, Option, none, some, List, [], ◌∷◌, ◌++◌, ltb, leb, ◌&&◌, ◌||◌, ◌==◌,
  if◌then◌else◌, length, take, all,
}
use hisohiso.Text.{Text, units, trim, collapse, join, show}
use hisohiso.Json.{Json, null, str, get, get?, as_str, as_arr, is_str, truthy}

pub record Convert : Type 0 where
  pub to_text : Json → Option Text
  pub stringify : Json → Text

abbrev pub text_of : Convert → Json → Option Text
text_of js (str s) = some (units s)
text_of js v = js.to_text v

-- `quoteForAgent`, of cli/src/lib/room-bridge.ts.
unfoldable pub quote_for_agent : Text → Text
quote_for_agent quote =
    let compact = trim (collapse false quote) in
    if ltb 80 (length compact) then take 77 compact ++ units "..." else compact

-- `r && typeof r.text === 'string'`
abbrev pub reply_text : Json → Option Text
reply_text r = elim (as_str (get "text" r)) [ none ↦ none | some s ↦ some (units s) ]

abbrev pub quoted : Option Json → Option Text
quoted quote =
    if truthy quote
    then (elim (as_str quote) [
      | none ↦ none
      | some s ↦ some (units " (re: \"" ++ (quote_for_agent (units s) ++ units "\")"))
    ])
    else some []

-- One line of a batch of replies; a quote that is truthy and no string throws.
unfoldable pub reply_lines : List Json → Option (List Text)
reply_lines [] = some []
reply_lines (r ∷ rs) =
    let rest = reply_lines rs in
    elim (reply_text r) [
      | none ↦ rest
      | some t ↦ elim (quoted (get? "quote" (get "reply_to" r))) [
        | none ↦ none
        | some q ↦ elim rest [
          | none ↦ none
          | some ls ↦ some ((units "↳" ++ (q ++ (units " " ++ t))) ∷ ls)
        ]
      ]
    ]

abbrev pub batch_text : List Text → Text
batch_text lines =
    units "[FROM USER · "
    ++ (show (length lines)
        ++ (units " "
            ++ ((if length lines == 1 then units "reply" else units "replies")
                ++ (units "]" ++ (10 ∷ join 10 lines)))))

abbrev pub is_nullish : Option Json → Bool
is_nullish none = true
is_nullish (some null) = true
is_nullish (some v) = false

abbrev pub plain_text : Convert → Option Json → Option Text
plain_text js none = some []
plain_text js (some null) = some []
plain_text js (some v) = text_of js v

unfoldable pub message_text : Convert → Json → Option Text
message_text js parsed = elim (as_arr (get "replies" parsed)) [
  | some (r ∷ rs) ↦ elim (reply_lines (r ∷ rs)) [ none ↦ none | some ls ↦ some (batch_text ls) ]
  | _ ↦ plain_text js (get "text" parsed)
]

abbrev pub is_secret : Json → Bool
is_secret r = is_str "secret" (get "type" r) && not (is_nullish (get "value" r))

abbrev pub block_name : Convert → Option Json → Option Text
block_name js none = some (units "?")
block_name js (some null) = some (units "?")
block_name js (some v) = text_of js v

abbrev pub secret_value : Convert → Option Json → Text
secret_value js none = []
secret_value js (some (str s)) = units s
secret_value js (some v) = js.stringify v

unfoldable pub secret_lines : Convert → List Json → Option (List Text)
secret_lines js [] = some []
secret_lines js (r ∷ rs) =
    let rest = secret_lines js rs in
    if is_secret r
    then (elim (block_name js (get "block_id" r)) [
      | none ↦ none
      | some b ↦ elim rest [
        | none ↦ none
        | some ls ↦ some (
            (units "[secret for block " ++ (b ++ (units "]: " ++ secret_value js (get "value" r))))
            ∷ ls)
      ]
    ])
    else rest

-- `secretSuffix`
unfoldable pub secret_suffix : Convert → Json → Option Text
secret_suffix js parsed = elim (as_arr (get "block_responses" parsed)) [
  | none ↦ some []
  | some rs ↦ elim (secret_lines js rs) [ none ↦ none | some ls ↦ some (join 10 ls) ]
]

abbrev pub with_suffix : Text → Text → Text
with_suffix t [] = t
with_suffix t (c ∷ cs) = t ++ (10 ∷ c ∷ cs)

-- `turnInput`: none where the code drops the message. A read of a property of null throws.
unfoldable pub turn_input : Convert → Json → Option Text
turn_input js null = none
turn_input js parsed = elim (message_text js parsed) [
  | none ↦ none
  | some t ↦ elim (secret_suffix js parsed) [ none ↦ none | some s ↦ some (with_suffix t s) ]
]

abbrev pub is_hex : ℕ → Bool
is_hex c = (leb 48 c && leb c 57) || (leb 97 c && leb c 102)

-- `safePeerHandle`, with `/^[0-9a-f]{64}$/`.
unfoldable pub safe_peer_handle : Text → Text
safe_peer_handle from = if length from == 64 && all is_hex from then from else units "unknown"

-- `wrappedText`
unfoldable pub wrapped_text : Text → Text → Text
wrapped_text peer text =
    units "<untrusted-peer-message from=\""
    ++ (safe_peer_handle peer
        ++ (units "\">" ++ (10 ∷ text ++ (10 ∷ units "</untrusted-peer-message>"))))
