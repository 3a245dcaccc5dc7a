-- ===== src/Agents/Newest.antt =====
-- cli/src/daemon/agent-manager.ts: what `pruneSeenMsgIds` keeps and what it drops.
use mathlib.Core.List.{append-nil}
use Prim.Native.Nat.{min}
use hisohiso.Prelude.{
  ℕ, ◌≤◌, ◌≡◌, ap, ◌∙◌, Bool, List, [], ◌∷◌, ◌++◌, ltb, filter, length, drop, All, arith,
  Bool-cases, inl, inr, length-take,
}
use hisohiso.Prelude.Sorted.{
  count, take-drop, take-NotAbove, sort_desc-IsDescending, count-sort_desc, length-sort_desc,
}
use hisohiso.Agents.Ledger.{Entry, seen_msg_max, is_fresh, sort_newest, prune_seen_msg_ids}

abbrev NotAfter : Entry → Entry → Type 0
NotAfter e f = f.first_seen ≤ e.first_seen

none_after : (es : List Entry) → All (λ (e : Entry). All (NotAfter e) []) es
none_after [] = tt
none_after (e ∷ es) = (tt, none_after es)

-- Of the entries not older than 24 hours, pruning keeps as many as fit in 500 and drops a list of
-- others: kept and dropped are together those entries, each as often as before, and no dropped one
-- was first seen after a kept one.
pub prune_seen_msg_ids_newest :
    (now : ℕ) (entries : List Entry)
    → (dropped : List Entry) × (length (prune_seen_msg_ids now entries)
        ≡ min seen_msg_max (length (filter (is_fresh now) entries)))
      × ((p : Entry → Bool)
          → count p (prune_seen_msg_ids now entries ++ dropped)
            ≡ count p (filter (is_fresh now) entries))
      × All
          (λ (e : Entry). All (λ (f : Entry). f.first_seen ≤ e.first_seen) dropped)
          (prune_seen_msg_ids now entries)
unfolding prune_seen_msg_ids
prune_seen_msg_ids_newest now entries =
    let kept = filter (is_fresh now) entries in
    elim (Bool-cases (ltb seen_msg_max (length kept))) [
      | inl over ↦ rw over (
        drop seen_msg_max (sort_newest kept),
        omega (
          arith,
          over,
          length-take seen_msg_max (sort_newest kept),
          length-sort_desc (λ (e : Entry). e.first_seen) kept,
        ),
        λ p.
            ap (count p) (take-drop seen_msg_max (sort_newest kept))
            ∙ count-sort_desc (λ (e : Entry). e.first_seen) p kept,
        take-NotAbove (λ (e : Entry). e.first_seen) seen_msg_max (sort_newest kept)
            (sort_desc-IsDescending (λ (e : Entry). e.first_seen) kept),
      )
      | inr fits ↦ rw fits ([], ground arith, λ p. ap (count p) (append-nil kept), none_after kept)
    ]
