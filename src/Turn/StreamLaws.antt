-- ===== src/Turn/StreamLaws.antt =====
-- What the line parsers do with shapes that the providers do not send.
use hisohiso.Prelude.{
  ◌≡◌, refl, Bool, true, false, not, ◌||◌, Option, none, some, List, [], ◌∷◌, arith, any, eq_iff,
}
use hisohiso.Json.{Json, null, bool, num, str, arr, obj, get, is_str, to_list}
use hisohiso.Turn.Stream.{
  Event, Outcome, returns, throws, assistant_part, each, claude_event, iterate, content, ◌>>=◌,
}

abbrev pub is_null : Json → Bool
is_null null = true
is_null v = false

-- The values over which `for … of` cannot run.
abbrev pub is_iterable : Option Json → Bool
is_iterable (some (bool b)) = false
is_iterable (some (num n)) = false
is_iterable (some (obj fs)) = false
is_iterable v = true

abbrev pub members : Option Json → List Json
members (some (arr xs)) = to_list xs
members v = []

abbrev pub is_thrown {ℓ} : {A : Type ℓ} → Outcome A → Bool
is_thrown (returns a) = false
is_thrown throws = true

assistant_part-throws : (part : Json) → is_thrown (assistant_part part) ≡ is_null part
unfolding assistant_part
assistant_part-throws null = refl
assistant_part-throws (bool b) = ground arith
assistant_part-throws (num n) = ground arith
assistant_part-throws (str s) = ground arith
assistant_part-throws (arr xs) = ground arith
assistant_part-throws (obj fs) = ground arith

each-throws :
    (f : Json → Outcome (List Event)) (xs : List Json)
    → ((x : Json) → is_thrown (f x) ≡ is_null x)
    → is_thrown (each f xs) ≡ any is_null xs
unfolding each
each-throws f [] h = refl
each-throws f (x ∷ xs) h = ground (arith, h x, each-throws f xs h)

iterate-throws :
    (c : Option Json)
    → is_thrown (iterate c >>= each assistant_part)
      ≡ (not (is_iterable c) || any is_null (members c))
unfolding each
iterate-throws none = refl
iterate-throws (some null) = refl
iterate-throws (some (bool b)) = refl
iterate-throws (some (num n)) = refl
iterate-throws (some (str s)) = refl
iterate-throws (some (arr xs)) = each-throws assistant_part (to_list xs) assistant_part-throws
iterate-throws (some (obj fs)) = refl

not_system : (v : Option Json) → is_str "assistant" v ≡ true → is_str "system" v ≡ false
not_system none h = refl
not_system (some null) h = refl
not_system (some (bool b)) h = refl
not_system (some (num n)) h = refl
not_system (some (str s)) h = let e : s ≡ "assistant" = (eq_iff s "assistant").0 h in rw e
not_system (some (arr xs)) h = refl
not_system (some (obj fs)) h = refl

-- The line of an assistant message makes the parser throw exactly when its content is a number, a
-- Boolean or an object, or is an array that holds a null; otherwise it yields events.
pub claude_event-throws :
    (ev : Json)
    → is_str "assistant" (get "type" ev) ≡ true
    → is_thrown (claude_event ev)
      ≡ (not (is_iterable (content ev)) || any is_null (members (content ev)))
unfolding claude_event
claude_event-throws ev a = rw (not_system (get "type" ev) a, a) (iterate-throws (content ev))
