-- ===== src/Sh9/Glob.antt =====
-- sh9/src/eval/utils.rs: `match_glob_pattern`. The loop on the pattern takes one item of it in a round
-- and calls itself behind a `*`; each round spends a unit of fuel.
pub mod Matching
use fs.Base.{
  ℕ, zero, suc, Bool, true, false, not, ◌&&◌, ◌||◌, List, [], ◌∷◌, eqb, leb, ltb, if◌then◌else◌,
  Text, is_empty,
}
use fs.Sh9.Outcome.{Outcome, ok, panic, out_of_fuel, ◌>>=◌}

-- `chars_in_class` as the ranges that were put into it.
abbrev pub Ranges : Type 0
Ranges = List (ℕ × ℕ)

abbrev pub in_ranges : Ranges → ℕ → Bool
in_ranges [] n = false
in_ranges ((low, high) ∷ ranges) n = (leb low n && leb n high) || in_ranges ranges n

-- What a round of the loop is for.
pub data Item : Type 0 where
  many one : Item
  class : Bool → Ranges → Item
  literal : ℕ → Item

-- Whether a character that is negated by `!` or `^` stands first.
abbrev negates : Bool → ℕ → Bool
negates first c = first && ((eqb c b'!') || (eqb c b'^'))

-- The loop that reads a class up to its `]`, which the first place does not have.
unfoldable pub class_loop : Bool → Bool → Ranges → Text → Item × Text
class_loop first negated ranges [] = (class negated ranges, [])
class_loop first negated ranges (c ∷ []) =
    if eqb c b']' && not first
    then (class negated ranges, [])
    else if negates first c
    then (class true ranges, [])
    else (class negated ((c, c) ∷ ranges), [])
class_loop first negated ranges (c ∷ d ∷ []) =
    let negation = class_loop false true ranges (d ∷ []) in
    let next = class_loop false negated ((c, c) ∷ ranges) (d ∷ []) in
    if eqb c b']' && not first
    then (class negated ranges, d ∷ [])
    else if negates first c
    then negation
    else if eqb d b'-'
    then (class negated ((c, c) ∷ ranges), [])
    else next
class_loop first negated ranges (c ∷ d ∷ e ∷ s) =
    let negation = class_loop false true ranges (d ∷ e ∷ s) in
    let next = class_loop false negated ((c, c) ∷ ranges) (d ∷ e ∷ s) in
    let range = class_loop false negated ((c, e) ∷ ranges) s in
    if eqb c b']' && not first
    then (class negated ranges, d ∷ e ∷ s)
    else if negates first c
    then negation
    else if eqb d b'-'
    then (if eqb e b']' then (class negated ((c, c) ∷ (b'-', b'-') ∷ ranges), s) else range)
    else next

-- The item that a pattern begins with, and the rest of the pattern.
unfoldable pub token : ℕ → Text → Item × Text
unfolding class_loop
token c s =
    if eqb c b'*'
    then (many, s)
    else if eqb c b'?'
    then (one, s)
    else if eqb c b'['
    then class_loop true false [] s
    else (literal c, s)

abbrev pub accepts : Item → ℕ → Bool
accepts many n = true
accepts one n = true
accepts (class negated ranges) n = if negated then not (in_ranges ranges n) else in_ranges ranges n
accepts (literal c) n = eqb n c

-- The loop behind a `*`: the rest of the pattern on shorter and shorter ends of the name. The step
-- `remaining_name[1..]` cuts a character in two where that has more than one byte.
unfoldable pub star_loop : (Text → Outcome Bool) → Text → Outcome Bool
star_loop matches [] = matches []
star_loop matches (c ∷ s) =
    let rest = star_loop matches s in
    matches (c ∷ s) >>= (λ found. if found then ok true else if ltb c 0x80 then rest else panic)

-- One round, with the loop on the rest of the pattern.
unfoldable pub round : (Text → Text → Outcome Bool) → Item → Text → Text → Outcome Bool
unfolding star_loop
round next many [] name = ok true
round next many (p ∷ pattern) name = star_loop (next (p ∷ pattern)) name
round next item pattern [] = ok false
round next item pattern (n ∷ name) = if accepts item n then next pattern name else ok false

unfoldable pub match_glob_pattern : ℕ → Text → Text → Outcome Bool
unfolding token round
match_glob_pattern fuel [] name = ok (is_empty name)
match_glob_pattern zero (c ∷ pattern) name = out_of_fuel
match_glob_pattern (suc fuel) (c ∷ pattern) name =
    let (item, rest) = token c pattern in round (match_glob_pattern fuel) item rest name
