-- ===== src/Agents/Ledger.antt =====
-- cli/src/daemon/agent-manager.ts: the ledger of message ids and its pruning.
--
-- A ledger is the list of entries that `Object.entries` gives, in its order. The ids are the UUIDs
-- of the clients, never array indices, so a round trip through an object keeps that order.
use hisohiso.Prelude.{
  ℕ, ◌+◌, Bool, false, ◌||◌, List, [], ◌∷◌, ◌++◌, ltb, leb, if◌then◌else◌, filter, length, take,
}
use hisohiso.Prelude.Sorted.{sort_desc}
use hisohiso.Text.{Text, text_eq}

pub record Entry : Type 0 where
  pub msg_id : Text
  pub first_seen : ℕ

abbrev pub seen_msg_ttl_ms : ℕ
seen_msg_ttl_ms = 86400000

abbrev pub seen_msg_max : ℕ
seen_msg_max = 500

-- `seenMsgIds.has(id)`
unfoldable pub has_msg : Text → List Entry → Bool
has_msg id [] = false
has_msg id (e ∷ es) = text_eq e.msg_id id || has_msg id es

-- `seenMsgIds.set(id, now)` at an id that the map does not hold.
abbrev pub set_msg : Text → ℕ → List Entry → List Entry
set_msg id now es = es ++ (record { msg_id = id; first_seen = now } ∷ [])

-- `ts >= Date.now() - SEEN_MSG_TTL_MS`
abbrev pub is_fresh : ℕ → Entry → Bool
is_fresh now e = leb now (e.first_seen + seen_msg_ttl_ms)

-- `kept.sort((a, b) => b[1] - a[1])`
abbrev pub sort_newest : List Entry → List Entry
sort_newest = sort_desc (λ (e : Entry). e.first_seen)

unfoldable pub prune_seen_msg_ids : ℕ → List Entry → List Entry
unfolding sort_desc
prune_seen_msg_ids now entries =
    let kept = filter (is_fresh now) entries in
    if ltb seen_msg_max (length kept) then take seen_msg_max (sort_newest kept) else kept
