-- ===== src/Agents/Chunks.antt =====
-- cli/src/daemon/agent-manager.ts: the messages of a reply that `sendAgentOutput` sends.
use hisohiso.Prelude.{
  ℕ, zero, suc, ◌≤◌, ◌≡◌, refl, ap, ◌∙◌, Bool, true, Option, none, List, [], ◌∷◌, ◌++◌, leb,
  if◌then◌else◌, length, take, drop, All, arith, Bool-cases, inl, inr, length-take, length-drop,
  leb→le,
}
use hisohiso.Text.{Text}
use hisohiso.Json.{Json}
use hisohiso.Agents.Output.{
  Parsed, Sent, plains, max_msg, chunks, chunks_from, with_options, post_all, reply_messages,
  is_new_title, title_of, text_of_output, blocks_of,
}

abbrev pub flatten : List Text → Text
flatten [] = []
flatten (t ∷ ts) = t ++ flatten ts

-- The texts of messages, put together.
abbrev pub joined : List Sent → Text
joined [] = []
joined (m ∷ ms) = m.text ++ joined ms

append_nil : (t : Text) → t ++ [] ≡ t
append_nil [] = refl
append_nil (c ∷ cs) = ap (λ l. c ∷ l) (append_nil cs)

take-drop : (n : ℕ) (t : Text) → take n t ++ drop n t ≡ t
take-drop zero t = refl
take-drop (suc n) [] = refl
take-drop (suc n) (c ∷ cs) = ap (λ l. c ∷ l) (take-drop n cs)

flatten-chunks_from : (f : ℕ) (t : Text) → length t ≤ f → flatten (chunks_from f t) ≡ t
unfolding chunks_from
flatten-chunks_from zero [] h = refl
flatten-chunks_from zero (c ∷ cs) h = absurd (omega (arith, h))
flatten-chunks_from (suc f) [] h = refl
flatten-chunks_from (suc f) (c ∷ cs) h =
    ap (λ l. take max_msg (c ∷ cs) ++ l)
      (flatten-chunks_from f (drop max_msg (c ∷ cs))
        (omega (arith, h, length-drop max_msg (c ∷ cs))))
    ∙ take-drop max_msg (c ∷ cs)

abbrev Fits : Text → Type 0
Fits t = length t ≤ max_msg

chunks_from-Fits : (f : ℕ) (t : Text) → All Fits (chunks_from f t)
unfolding chunks_from
chunks_from-Fits zero t = tt
chunks_from-Fits (suc f) [] = tt
chunks_from-Fits (suc f) (c ∷ cs) =
    (omega (arith, length-take max_msg (c ∷ cs)), chunks_from-Fits f (drop max_msg (c ∷ cs)))

flatten-chunks : (t : Text) → flatten (chunks t) ≡ t
unfolding chunks
flatten-chunks t = elim (Bool-cases (leb (length t) max_msg)) [
  | inl short ↦ rw short (append_nil t)
  | inr long ↦ rw long (flatten-chunks_from (length t) t (omega arith))
]

chunks-Fits : (t : Text) → All Fits (chunks t)
unfolding chunks
chunks-Fits t = elim (Bool-cases (leb (length t) max_msg)) [
  | inl short ↦ rw short (leb→le (length t) max_msg short, tt)
  | inr long ↦ rw long (chunks_from-Fits (length t) t)
]

joined-plains : (ts : List Text) → joined (plains ts) ≡ flatten ts
joined-plains [] = refl
joined-plains (t ∷ ts) = ap (λ l. t ++ l) (joined-plains ts)

joined-with_options :
    (bs : Option (List Json)) (name : Option Text) (ts : List Text)
    → joined (with_options bs name ts) ≡ flatten ts
joined-with_options bs name [] = refl
joined-with_options bs name (t ∷ ts) = ap (λ l. t ++ l) (joined-plains ts)

abbrev SentFits : Sent → Type 0
SentFits m = length m.text ≤ max_msg

plains-Fits : (ts : List Text) → All Fits ts → All SentFits (plains ts)
plains-Fits [] a = tt
plains-Fits (t ∷ ts) a = (a.0, plains-Fits ts a.1)

with_options-Fits :
    (bs : Option (List Json)) (name : Option Text) (ts : List Text)
    → All Fits ts
    → All SentFits (with_options bs name ts)
with_options-Fits bs name [] a = tt
with_options-Fits bs name (t ∷ ts) a = (a.0, plains-Fits ts a.1)

post_all-joined :
    (relay : ℕ → Bool) (n : ℕ) (ms : List Sent)
    → (rest : Text) × (joined (post_all relay n ms).0 ++ rest ≡ joined ms)
      × ((post_all relay n ms).1 ≡ true → rest ≡ [])
unfolding post_all
post_all-joined relay n [] = ([], refl, λ ok. refl)
post_all-joined relay n (m ∷ ms) = elim (Bool-cases (relay n)) [
  | inl taken ↦
      let (rest, e, done) = post_all-joined relay (suc n) ms in
      rw taken (rest, assoc m.text _ rest ∙ ap (λ l. m.text ++ l) e, done)
  | inr refused ↦ rw refused (m.text ++ joined ms, refl, λ ok. absurd (cc))
]
  where
    assoc : (s t u : Text) → (s ++ t) ++ u ≡ s ++ (t ++ u)
    assoc [] t u = refl
    assoc (c ∷ s) t u = ap (λ l. c ∷ l) (assoc s t u)

post_all-Fits :
    (relay : ℕ → Bool) (n : ℕ) (ms : List Sent)
    → All SentFits ms
    → All SentFits (post_all relay n ms).0
unfolding post_all
post_all-Fits relay n [] a = tt
post_all-Fits relay n (m ∷ ms) a = elim (Bool-cases (relay n)) [
  | inl taken ↦ rw taken (a.0, post_all-Fits relay (suc n) ms a.1)
  | inr refused ↦ rw refused tt
]

-- Whatever the agent answers and whichever messages the relay takes, what goes out of a reply is
-- messages of at most 4000 units whose texts, put together in order, are the start of the text of
-- the reply; they are all of it when the relay takes each of them.
pub post_all-reply_messages :
    (relay : ℕ → Bool) (parsed : Option Parsed) (output : Text) (last : Option Text)
    → All
        (λ (m : Sent). length m.text ≤ max_msg)
        (post_all relay 0 (reply_messages parsed output last)).0
      × ((rest : Text) × (joined (post_all relay 0 (reply_messages parsed output last)).0 ++ rest
            ≡ text_of_output parsed output)
          × ((post_all relay 0 (reply_messages parsed output last)).1 ≡ true → rest ≡ []))
unfolding reply_messages
post_all-reply_messages relay parsed output last =
    let text = text_of_output parsed output in
    let name = if is_new_title (title_of parsed) last then title_of parsed else none in
    let (rest, e, done) = post_all-joined relay 0 (reply_messages parsed output last) in
    (
      post_all-Fits relay 0 (with_options (blocks_of parsed) name (chunks text))
          (with_options-Fits (blocks_of parsed) name (chunks text) (chunks-Fits text)),
      (
        rest,
        e ∙ joined-with_options (blocks_of parsed) name (chunks text) ∙ flatten-chunks text,
        done,
      ),
    )
